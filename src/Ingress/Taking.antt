-- ===== src/Ingress/Taking.antt =====
-- src/mattermost/ingress-queue.ts: what `claim` and the settlements return, and that one event has
-- one holder.
use openclaw_mattermost_cust.Base.{
  ℕ, ◌≡◌, refl, ◌⊎◌, Bool, true, false, ◌&&◌, String, ◌==◌, eq_iff, Option, none, some, List, inl,
  inr, arith, if◌then◌else◌, sym, subst, ◌∙◌, Option-cases, Bool-cases, All, ok,
}
use openclaw_mattermost_cust.Base.Table.{update_where, count_where, update_where_zero}
use openclaw_mattermost_cust.Base.Text.{or_text}
use openclaw_mattermost_cust.Ingress.Row.{
  pending, same_status, Row, Table, has_key, select_row, Json, Queue, QueueClaim, claim_record,
}
use openclaw_mattermost_cust.Ingress.Setup.{IdOrClaim, id_from}
use openclaw_mattermost_cust.Ingress.Operations.{run_update}
use openclaw_mattermost_cust.Ingress.Claiming.{set_claimed, takes, claim}
use openclaw_mattermost_cust.Ingress.History.{Call, after, run}
use openclaw_mattermost_cust.Ingress.Keys.{
  IsKeyed, select_row_keys, update_where_hits, count_where_keyed, count_where_absent,
  count_where_present,
}
use openclaw_mattermost_cust.Ingress.Consistency.{IsValid}
use openclaw_mattermost_cust.Ingress.Invariant.{claim-IsValid, run-IsValid}
use openclaw_mattermost_cust.Ingress.Custody.{Stored}
use openclaw_mattermost_cust.Ingress.Rights.{disturbs, held_until_presented}

-- An UPDATE that names one key either hits the stored row, or changes nothing.
module _ (p : Row → Bool) (f : Row → Row) (account id : String)
    (same : (a i : String) (r : Row) → has_key a i (f r) ≡ has_key a i r)
    (names : (r : Row) → p r ≡ true → has_key account id r ≡ true) (t : Table) where
  pub run_update_hit :
      (r : Row)
      → Stored account id r t
      → p r ≡ true
      → ((run_update p f t).0 ≡ true) × Stored account id (f r) (run_update p f t).1
  run_update_hit r e h = (
    ground (arith, count_where_present p account id t r e h),
    update_where_hits p f same account id t r e h,
  )

  pub run_update_miss :
      (r : Row) → IsKeyed t → Stored account id r t → p r ≡ false → run_update p f t ≡ (false, t)
  run_update_miss r k e h =
      let zero : count_where p t ≡ 0 = count_where_keyed p account id names t r k e h in
      rw (zero, update_where_zero p f t zero) refl

  run_update_absent : select_row account id t ≡ none → run_update p f t ≡ (false, t)
  run_update_absent e =
      let zero : count_where p t ≡ 0 = count_where_absent p account id names t e in
      rw (zero, update_where_zero p f t zero) refl

  -- Either way its result is the WHERE test of the stored row.
  pub run_update_lem :
      (r : Row)
      → IsKeyed t
      → Stored account id r t
      → ((run_update p f t).0 ≡ p r)
        × Stored account id (if p r then f r else r) (run_update p f t).1
        × ((p r ≡ true) ⊎ ((run_update p f t).1 ≡ t))
  run_update_lem r k e = elim (Bool-cases (p r)) [
    | inl yes_hit ↦
        let hit = run_update_hit r e yes_hit in (hit.0 ∙ sym yes_hit, rw yes_hit hit.1, inl yes_hit)
    | inr miss ↦
        let kept = run_update_miss r k e miss in
        (ground (arith, kept), rw miss (ground (arith, kept, e)), inr (ground (arith, kept)))
  ]

module _ (json : Json) (q : Queue) (ref : IdOrClaim) (id : String) (named : id_from ref ≡ ok id)
    (owner : Option String) (token : String) (now : ℕ) (t : Table) where
  takes_names : (r : Row) → takes q id r ≡ true → has_key q.account_id id r ≡ true
  takes_names r h = ground arith

  takes_pending : (r : Row) → Stored q.account_id id r t → r.status ≡ pending → takes q id r ≡ true
  takes_pending r e s = ground (
    arith,
    select_row_keys q.account_id id t r e,
    eq_iff r.account_id q.account_id,
    eq_iff r.event_id id,
  )

  pub claim_hit :
      (r : Row)
      → Stored q.account_id id r t
      → r.status ≡ pending
      → (t' : Table) × (claim json q ref owner token now t
          ≡ ok (some (claim_record json q (set_claimed token (or_text owner q.pid) now r)), t'))
        × Stored q.account_id id (set_claimed token (or_text owner q.pid) now r) t'
  unfolding claim
  claim_hit r e s =
      let f = set_claimed token (or_text owner q.pid) now in
      let hit =
        run_update_hit (takes q id) f q.account_id id (λ a i u. refl) takes_names t r e
          (takes_pending r e s) in
      (update_where (takes q id) f t, rw (named, hit.0, hit.1) refl, hit.1)

  pub claim_miss :
      IsKeyed t
      → (select_row q.account_id id t ≡ none)
        ⊎ ((r : Row) × Stored q.account_id id r t × (same_status r.status pending ≡ false))
      → claim json q ref owner token now t ≡ ok (none, t)
  unfolding claim
  claim_miss k (inl absent) =
      let none_changed =
        run_update_absent (takes q id) (set_claimed token (or_text owner q.pid) now) q.account_id id
          (λ a i u. refl) takes_names t absent in
      rw named (cc (none_changed, absent))
  claim_miss k (inr (r, e, busy)) =
      let none_changed =
        run_update_miss (takes q id) (set_claimed token (or_text owner q.pid) now) q.account_id id
          (λ a i u. refl) takes_names t r k e (ground arith) in
      rw named (ground (arith, none_changed, e))

  claim_cases :
      (c : QueueClaim json) (t' : Table)
      → IsKeyed t
      → claim json q ref owner token now t ≡ ok (some c, t')
      → (r : Row) × Stored q.account_id id r t × (r.status ≡ pending)
  claim_cases c t' k e = elim (Option-cases (select_row q.account_id id t)) [
    | inl absent ↦ absurd (cc (claim_miss k (inl absent)))
    | inr (r, found) ↦ elim (Bool-cases (same_status r.status pending)) [
      | inl free ↦ (r, found, ground arith)
      | inr busy ↦ absurd (cc (claim_miss k (inr (r, found, busy))))
    ]
  ]

-- Of one event only one claim is held: after a claim of it succeeded, every other claim of it finds
-- nothing and changes nothing, as long as no call on the account presented the first claim's token
-- or recovered stale claims in between, whatever else was called.
pub claim_excludes :
    (json : Json) (q : Queue) (ref ref' : IdOrClaim) (id : String) (owner owner' : Option String)
    (token token' : String) (now now' : ℕ) (t t' : Table) (c : QueueClaim json)
    (cs : List (Queue × Call json))
    → IsValid t
    → id_from ref ≡ ok id
    → id_from ref' ≡ ok id
    → claim json q ref owner token now t ≡ ok (some c, t')
    → All (λ e. (q.account_id == e.0.account_id) && disturbs json token e.1 ≡ false) cs
    → claim json q ref' owner' token' now' (run json cs t') ≡ ok (none, run json cs t')
claim_excludes json q ref ref' id owner owner' token token' now now' t t' c cs v n n' e quiet =
    let (r, found, free) = claim_cases json q ref id n owner token now t c t' v.keyed e in
    let (u, taken, held) = claim_hit json q ref id n owner token now t r found free in
    let same : u ≡ t' = cc in
    let valid : IsValid t' =
      subst (λ m. IsValid (after t m)) e (claim-IsValid json q ref owner token now t v) in
    let mine : r.account_id ≡ q.account_id = (select_row_keys q.account_id id t r found).0 in
    let kept =
      held_until_presented json q.account_id id (set_claimed token (or_text owner q.pid) now r)
        token cs t' refl refl (rw mine quiet) (rw same at held) in
    claim_miss json q ref' id n' owner' token' now' (run json cs t')
      (run-IsValid json cs t' valid).keyed (inr (_, kept, refl))
