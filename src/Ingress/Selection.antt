-- ===== src/Ingress/Selection.antt =====
-- src/mattermost/ingress-queue.ts: which event `claimNext` takes.
use openclaw_mattermost_cust.Base.{
  ℕ, ◌≤◌, ◌≡◌, refl, sym, ap, ◌∙◌, subst, Bool, true, false, not, ◌&&◌, ◌||◌, String, eq_iff,
  eq_refl, Option, none, some, List, [], ◌∷◌, inl, inr, arith, if◌then◌else◌, or_else, is_some,
  find, find_sound, find-none, Option-cases, Bool-cases, All, All-mono, All-take, All_of_find,
}
use openclaw_mattermost_cust.Base.Table.{select_where, select_where_sound, All-select_where}
use openclaw_mattermost_cust.Base.Sorting.{
  IsOrdered, IsOrdered-sort, IsOrdered-take, find-le, All-sort,
}
use openclaw_mattermost_cust.Base.Text.{or_text, truthy}
use openclaw_mattermost_cust.Ingress.Row.{
  pending, Row, Table, has_status, select_row, Json, Queue, QueueRecord, QueueClaim, base_record,
  claim_record,
}
use openclaw_mattermost_cust.Ingress.Setup.{Limit, positive_limit}
use openclaw_mattermost_cust.Ingress.Operations.{by_received, order_test, pending_window}
use openclaw_mattermost_cust.Ingress.Claiming.{
  ClaimOptions, claimable, claim_first, take_selected, takes, set_claimed_in_lane,
  resolve_claim_lane_key, includes, reconciled_lane, derived_or_stored,
}
use openclaw_mattermost_cust.Ingress.Keys.{IsKeyed, IsFound, All-IsFound}
use openclaw_mattermost_cust.Ingress.Custody.{Stored}
use openclaw_mattermost_cust.Ingress.Taking.{run_update_hit}

-- A stored row of the account that is pending.
abbrev pub IsWaiting : Queue → Table → Row → Type 0
IsWaiting q t r =
    Stored q.account_id r.event_id r t × (r.account_id ≡ q.account_id) × (r.status ≡ pending)

All-both {ℓ κ} :
    {A : Type ℓ} (P Q : A → Type κ) (xs : List A) → All P xs → All Q xs → All (λ x. P x × Q x) xs
All-both P Q [] h k = tt
All-both P Q (x ∷ xs) h k = ((h.0, k.0), All-both P Q xs h.1 k.1)

is_waiting :
    (q : Queue) (t : Table) (r : Row)
    → IsFound t r × (has_status q.account_id pending r ≡ true)
    → IsWaiting q t r
is_waiting q t r (found, h) =
    let mine : r.account_id ≡ q.account_id = ground (arith, eq_iff r.account_id q.account_id) in
    (subst (λ a. select_row a r.event_id t ≡ some r) mine found, mine, ground arith)

window-IsWaiting :
    (q : Queue) (by_event_id : Bool) (limit : Option Limit) (t : Table)
    → IsKeyed t
    → All (IsWaiting q t) (pending_window q by_event_id limit t)
unfolding pending_window
window-IsWaiting q by_event_id limit t k =
    let p = has_status q.account_id pending in
    All-take (IsWaiting q t) (positive_limit limit) _ (
      All-sort (order_test by_event_id) (IsWaiting q t) (select_where p t) (
        All-mono (is_waiting q t) (select_where p t) (
          All-both (IsFound t) (λ r. p r ≡ true) (select_where p t)
            (All-select_where (IsFound t) p t (All-IsFound t k)) (select_where_sound p t))))

window-IsOrdered :
    (q : Queue) (limit : Option Limit) (t : Table)
    → IsOrdered (λ r. r.received_at) (pending_window q false limit t)
unfolding pending_window
window-IsOrdered q limit t =
    IsOrdered-take (λ r. r.received_at) (positive_limit limit) _
      (IsOrdered-sort by_received (λ r. r.received_at) (λ x y h. ground arith)
        (λ x y h. ground arith) (select_where (has_status q.account_id pending) t))

-- What the transaction of `claimNext` may return.
pub data Takes (json : Json) (q : Queue) (o : ClaimOptions json) (token : String) (at : ℕ)
    (t : Table) (result : Option (QueueClaim json) × Table) : Type 0 where
  nothing :
      All (λ r. claimable json q o r ≡ false) (pending_window q o.order_by_id o.scan_limit t)
      → result ≡ (none, t)
      → Takes json q o token at t result
  one :
      (r : Row)
      → IsWaiting q t r
      → claimable json q o r ≡ true
      → (o.order_by_id ≡ false
          → All
              (λ s. claimable json q o s ≡ true → r.received_at ≤ s.received_at)
              (pending_window q o.order_by_id o.scan_limit t))
      → (let next =
            set_claimed_in_lane token
              (or_text o.owner_id q.pid)
              at
              (resolve_claim_lane_key json o (base_record json q r))
              r in
          (result.0 ≡ some (claim_record json q next))
          × Stored q.account_id r.event_id next result.1)
      → Takes json q o token at t result

module _ (json : Json) (q : Queue) (o : ClaimOptions json) (token : String) (at : ℕ)
    (t : Table) where
  take_selected_lem :
      (r : Row)
      → IsWaiting q t r
      → (let next =
            set_claimed_in_lane token
              (or_text o.owner_id q.pid)
              at
              (resolve_claim_lane_key json o (base_record json q r))
              r in
          let result = take_selected json q o token at t (some r) in
          (result.0 ≡ some (claim_record json q next))
          × Stored q.account_id r.event_id next result.1)
  take_selected_lem r (found, mine, free) =
      let f =
        set_claimed_in_lane token (or_text o.owner_id q.pid) at
          (resolve_claim_lane_key json o (base_record json q r)) in
      let (hit, stored) =
        run_update_hit (takes q r.event_id) f q.account_id r.event_id (λ a i s. refl)
          (λ s h. ground arith) t r found
          (ground (arith, eq_iff r.account_id q.account_id, eq_refl r.event_id)) in
      (rw (hit, stored) refl, stored)

  first_in_window :
      (b : Bool) (r : Row)
      → find (claimable json q o) (pending_window q b o.scan_limit t) ≡ some r
      → b ≡ false
      → All
          (λ s. claimable json q o s ≡ true → r.received_at ≤ s.received_at)
          (pending_window q b o.scan_limit t)
  first_in_window true r e h = absurd (cc)
  first_in_window false r e h =
      find-le (λ s. s.received_at) (claimable json q o) (pending_window q false o.scan_limit t) r
        (window-IsOrdered q o.scan_limit t) e

  -- Either no pending event of the window may be claimed, and nothing changes; or the claim is of a
  -- stored pending event that passes the tests of candidates and blocked lanes, the earliest
  -- received of those in the window unless the order is by id, and its row becomes the claimed one.
  pub claim_first_lem : IsKeyed t → Takes json q o token at t (claim_first json q o token at t)
  unfolding claim_first
  claim_first_lem k =
      let window = pending_window q o.order_by_id o.scan_limit t in
      let waiting = window-IsWaiting q o.order_by_id o.scan_limit t k in
      elim (Option-cases (find (claimable json q o) window)) [
        | inl e ↦ nothing (find-none (claimable json q o) window e) (rw e refl)
        | inr (r, e) ↦
            let here = All_of_find (IsWaiting q t) (claimable json q o) window r waiting e in
            one r here (find_sound (claimable json q o) window r e)
              (first_in_window o.order_by_id r e) (rw e (take_selected_lem r here))
      ]

  reconciled_ne_none :
      (derive : Option (QueueRecord json → Option String))
      (agree : Option (QueueRecord json → String → String → Bool)) (r : QueueRecord json)
      (stored : String)
      → is_some (reconciled_lane json derive agree r stored) ≡ true
  reconciled_ne_none none agree r stored = refl
  reconciled_ne_none (some derive) none r stored = refl
  reconciled_ne_none (some derive) (some agree) r stored = agreed (derive r)
    where
      agreed : (d : Option String) → is_some (derived_or_stored json agree r stored d) ≡ true
      agreed none = refl
      agreed (some lane) = ground arith

  -- No lane results only where the stored lane does not count.
  resolve_none :
      (r : QueueRecord json) → resolve_claim_lane_key json o r ≡ none → truthy r.lane_key ≡ false
  unfolding resolve_claim_lane_key
  resolve_none r e = elim (Bool-cases (truthy r.lane_key)) [
    | inl stored ↦ absurd (
        cc (
          rw stored at e,
          reconciled_ne_none o.derive_lane_key o.reconcile_stored_lane_key r
              (or_else r.lane_key ""),
        ))
    | inr missing ↦ missing
  ]

  lane_free :
      (blocked : List String) (lane held : Option String)
      → (lane ≡ none → truthy held ≡ false)
      → (not (truthy lane) || not (includes json blocked (or_else lane ""))) ≡ true
      → truthy (if is_some lane then lane else held) ≡ true
      → includes json blocked (or_else (if is_some lane then lane else held) "") ≡ false
  lane_free blocked none held h may counts = absurd (cc (h refl))
  lane_free blocked (some lane) held h may counts = ground arith

  and_right : (a b : Bool) → (a && b) ≡ true → b ≡ true
  and_right a b h = ground arith

  -- A claimed event never lies in a blocked lane: the lane of the returned claim, if it has one, is
  -- none of `blockedLaneKeys`.
  pub claim_first-lane :
      (c : QueueClaim json) (t' : Table)
      → IsKeyed t
      → claim_first json q o token at t ≡ (some c, t')
      → truthy c.base.lane_key ≡ true
      → includes json o.blocked_lane_keys (or_else c.base.lane_key "") ≡ false
  claim_first-lane c t' k e lane = blocked_or_not (claim_first_lem k)
    where
      blocked_or_not :
          Takes json q o token at t (claim_first json q o token at t)
          → includes json o.blocked_lane_keys (or_else c.base.lane_key "") ≡ false
      blocked_or_not (nothing _ same) = absurd (cc)
      blocked_or_not (one r _ may _ (same, _)) =
          let derived = resolve_claim_lane_key json o (base_record json q r) in
          let read : c.base.lane_key ≡ (if is_some derived then derived else r.lane_key) =
            unfold claim_record base_record in
            ap (λ x. elim x [ none ↦ none | some d ↦ d.base.lane_key ])
              (sym (ap (λ m. m.0) e) ∙ same) in
          rw read (
            lane_free o.blocked_lane_keys derived r.lane_key
              (unfold base_record in resolve_none (base_record json q r)) (and_right _ _ may)
              (rw read at lane))
