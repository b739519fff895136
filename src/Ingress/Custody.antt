-- ===== src/Ingress/Custody.antt =====
-- src/mattermost/ingress-queue.ts: which calls can change a stored row at all, and so what stays
-- with the holder of a claim, what stays settled, and what stays with another account.
use openclaw_mattermost_cust.Base.{
  ℕ, ◌≡◌, refl, Bool, false, not, ◌&&◌, ◌||◌, String, ◌==◌, Option, none, some, List, [], ◌∷◌, inl,
  inr, arith, or_else, is_some, Bool-cases,
}
use openclaw_mattermost_cust.Base.Sorting.{sort}
use openclaw_mattermost_cust.Base.Table.{update_where, select_where}
use openclaw_mattermost_cust.Base.Text.{or_text}
use openclaw_mattermost_cust.Ingress.Row.{
  Status, pending, claimed, completed, failed, same_status, Row, Table, has_key, has_status,
  column_is, token_matches, held_status, settles, select_row, Json, Queue, QueueClaim, base_record,
  claim_record,
}
use openclaw_mattermost_cust.Ingress.Setup.{IdOrClaim, an_id, id_from, token_from}
use openclaw_mattermost_cust.Ingress.Operations.{
  set_completed, set_released, set_failed, set_refreshed, refreshes as refreshed_row, new_row,
  stringify_column, counts_attempt, enqueue, complete, release, fail, delete, refresh_claim,
}
use openclaw_mattermost_cust.Ingress.Claiming.{
  set_claimed, set_claimed_in_lane, set_recovered, takes, recovers as recovered_row, stale_claim,
  resolve_claim_lane_key, ClaimOptions, RecoverOptions, claim, claim_first, claim_next, asked,
  take_selected, recovered_first, recover_one, recover_loop, recover_stale_claims,
}
use openclaw_mattermost_cust.Ingress.Maintenance.{
  PruneOptions, by_updated_desc, removed_rows, names_row, delete_rows, prune_status, prune,
}
use openclaw_mattermost_cust.Ingress.History.{
  Call, enqueues, claims, claims_next, refreshes, completes, releases, fails, deletes, recovers,
  prunes, after_bind, after-enqueue_result, step,
}
use openclaw_mattermost_cust.Ingress.Keys.{
  update_where_spares, delete_where_spares, insert_or_ignore_spares,
}

abbrev pub is_claimed : Row → Bool
is_claimed r = same_status r.status claimed

abbrev pub is_pending : Row → Bool
is_pending r = same_status r.status pending

-- The row that a settlement with this token may change, whatever its id.
abbrev pub settles_some : Option String → Row → Bool
settles_some token r = same_status r.status (held_status token) && token_matches token r

-- The rows of its own account that a call can change.
abbrev pub may_change : (json : Json) → Call json → Row → Bool
may_change json (enqueues id payload o now now') r = false
may_change json (claims ref owner token now) r = is_pending r
may_change json (claims_next o token now at) r =
    is_pending r || (is_some o.stale_ms && is_claimed r)
may_change json (refreshes id token at now now') r = is_claimed r && column_is r.claim_token token
may_change json (completes ref o now) r = settles_some (token_from ref) r
may_change json (releases ref o now) r = settles_some (token_from ref) r
may_change json (fails ref o now) r = settles_some (token_from ref) r
may_change json (deletes ref) r = settles_some (token_from ref) r
may_change json (recovers stale answer now) r = is_claimed r
may_change json (prunes o now) r = not (is_claimed r)

-- A call of this queue can change the row.
abbrev pub may_touch : (json : Json) → Queue → Call json → Row → Bool
may_touch json q c r = (r.account_id == q.account_id) && may_change json c r

-- That the row of a key is still stored, unchanged.
abbrev pub Stored : String → String → Row → Table → Type 0
Stored account id r t = select_row account id t ≡ some r

module _ (q : Queue) (account id : String) (r : Row) where
  delete_rows_spares :
      (status : Status) (rs : List Row) (n : ℕ) (t : Table)
      → (r.account_id == q.account_id) && same_status r.status status ≡ false
      → Stored account id r t
      → Stored account id r (delete_rows q status rs n t).1
  unfolding delete_rows
  delete_rows_spares status [] n t h e = e
  delete_rows_spares status (s ∷ rs) n t h e =
      delete_rows_spares status rs _ _ h
        (delete_where_spares (names_row q status s) account id t r e (ground arith))

  prune_status_spares :
      (current : ℕ) (ids : List String) (status : Status) (ttl most : Option ℕ) (so_far : ℕ × Table)
      → (r.account_id == q.account_id) && same_status r.status status ≡ false
      → Stored account id r so_far.1
      → Stored account id r (prune_status q current ids status ttl most so_far).1
  unfolding prune_status
  prune_status_spares current ids status ttl most so_far h e =
      delete_rows_spares status
        (removed_rows current ids ttl most 0
          (sort by_updated_desc (select_where (has_status q.account_id status) so_far.1)))
        so_far.0 so_far.1 h e

  prune_spares :
      (o : PruneOptions) (now : ℕ) (t : Table)
      → (r.account_id == q.account_id) && not (is_claimed r) ≡ false
      → Stored account id r t
      → Stored account id r (prune q o now t).1
  unfolding prune
  prune_spares o now t h e = prune_status_spares _ o.protect_ids failed _ _ _ (ground arith) (
      prune_status_spares _ o.protect_ids completed _ _ _ (ground arith)
        (prune_status_spares _ o.protect_ids pending _ _ (0, t) (ground arith) e))

  module _ (json : Json) where
    recover_one_spares :
        (current stale : ℕ) (ask : Option (QueueClaim json → Table → Bool × Table)) (s : Row)
        (t : Table)
        → (r.account_id == q.account_id) && is_claimed r ≡ false
        → ((c : QueueClaim json) → Stored account id r (asked json ask c t).1)
        → Stored account id r (recover_one json q current stale ask s t).1
    unfolding recover_one
    recover_one_spares current stale ask s t h keeps =
        let e = keeps (claim_record json q s) in
        elim (Bool-cases (asked json ask (claim_record json q s) t).0) [
          | inl agreed ↦ rw agreed (
              update_where_spares
                (recovered_row q current stale s.event_id (or_else s.claim_token ""))
                (set_recovered current) (λ a i u. refl) account id _ r e (ground arith))
          | inr refused ↦ rw refused e
        ]

    recover_loop_spares :
        (current stale : ℕ) (ask : Option (QueueClaim json → Table → Bool × Table)) (rs : List Row)
        (n : ℕ) (t : Table)
        → (r.account_id == q.account_id) && is_claimed r ≡ false
        → ((c : QueueClaim json) (u : Table)
            → Stored account id r u
            → Stored account id r (asked json ask c u).1)
        → Stored account id r t
        → Stored account id r (recover_loop json q current stale ask rs n t).1
    unfolding recover_loop
    recover_loop_spares current stale ask [] n t h keeps e = e
    recover_loop_spares current stale ask (s ∷ rs) n t h keeps e =
        recover_loop_spares current stale ask rs _ _ h keeps
          (recover_one_spares current stale ask s t h (λ c. keeps c t e))

    recover_spares :
        (o : RecoverOptions json) (now : ℕ) (t : Table)
        → (r.account_id == q.account_id) && is_claimed r ≡ false
        → ((c : QueueClaim json) (u : Table)
            → Stored account id r u
            → Stored account id r (asked json o.should_recover c u).1)
        → Stored account id r t
        → Stored account id r (recover_stale_claims json q o now t).1
    unfolding recover_stale_claims
    recover_spares o now t h keeps e =
        let current = or_else o.now now in
        let stale = or_else o.stale_ms 0 in
        recover_loop_spares current stale o.should_recover
          (select_where (stale_claim q current stale) t) 0 t h keeps e

    recovered_first_spares :
        (stale : Option ℕ) (now : ℕ) (t : Table)
        → (r.account_id == q.account_id) && (is_some stale && is_claimed r) ≡ false
        → Stored account id r t
        → Stored account id r (recovered_first json q stale now t)
    recovered_first_spares none now t h e = e
    recovered_first_spares (some stale) now t h e = recover_spares _ now t h (λ c u k. k) e

    take_selected_spares :
        (o : ClaimOptions json) (token : String) (at : ℕ) (t : Table) (s : Option Row)
        → (r.account_id == q.account_id) && is_pending r ≡ false
        → Stored account id r t
        → Stored account id r (take_selected json q o token at t s).1
    take_selected_spares o token at t none h e = e
    take_selected_spares o token at t (some s) h e =
        update_where_spares (takes q s.event_id)
          (set_claimed_in_lane token (or_text o.owner_id q.pid) at
            (resolve_claim_lane_key json o (base_record json q s)))
          (λ a i u. refl) account id t r e (ground arith)

    settled_spares :
        (f : Row → Row) (ref : IdOrClaim) (i : String) (t : Table)
        → ((a j : String) (u : Row) → has_key a j (f u) ≡ has_key a j u)
        → (r.account_id == q.account_id) && settles_some (token_from ref) r ≡ false
        → Stored account id r t
        → Stored account id r (update_where (settles q.account_id i (token_from ref)) f t)
    settled_spares f ref i t same h e =
        update_where_spares (settles q.account_id i (token_from ref)) f same account id t r e
          (ground arith)

    -- A call leaves every row alone that it may not touch.
    pub step_spares :
        (c : Call json) (t : Table)
        → may_touch json q c r ≡ false
        → Stored account id r t
        → Stored account id r (step json q c t)
    unfolding step
    step_spares (enqueues i payload o now now') t h e =
        unfold enqueue in
        after_bind (Stored account id r) t (id_from (an_id i)) _ e λ j.
          after-enqueue_result json (Stored account id r) q _ t _ _ e (
            insert_or_ignore_spares (new_row json q j payload o (or_else o.received_at now) now')
              account id t r e)
    step_spares (claims ref owner token now) t h e =
        unfold claim in
        after_bind (Stored account id r) t (id_from ref) _ e λ i.
          update_where_spares (takes q i) (set_claimed token (or_text owner q.pid) now)
            (λ a j u. refl) account id t r e (ground arith)
    step_spares (claims_next o token now at) t h e =
        unfold claim_next claim_first in
        take_selected_spares o token at _ _ (ground arith)
          (recovered_first_spares o.stale_ms now t (ground arith) e)
    step_spares (refreshes i token at now now') t h e =
        unfold refresh_claim in
        update_where_spares (refreshed_row q i token)
          (set_refreshed (or_else at now) (or_else at now')) (λ a j u. refl) account id t r e
          (ground arith)
    step_spares (completes ref o now) t h e =
        unfold complete in
        after_bind (Stored account id r) t (id_from ref) _ e λ i.
          settled_spares
            (set_completed (or_else o.completed_at now) (stringify_column json o.metadata)) ref i t
            (λ a j u. refl) h e
    step_spares (releases ref o now) t h e =
        unfold release in
        after_bind (Stored account id r) t (id_from ref) _ e λ i.
          settled_spares (set_released (counts_attempt o) (or_else o.released_at now) o.last_error)
            ref i t (λ a j u. refl) h e
    step_spares (fails ref o now) t h e =
        unfold fail in
        after_bind (Stored account id r) t (id_from ref) _ e λ i.
          settled_spares (set_failed (or_else o.failed_at now) o.reason o.message) ref i t
            (λ a j u. refl) h e
    step_spares (deletes ref) t h e =
        unfold delete in
        after_bind (Stored account id r) t (id_from ref) _ e λ i.
          delete_where_spares (settles q.account_id i (token_from ref)) account id t r e
            (ground arith)
    step_spares (recovers stale answer now) t h e = recover_spares _ now t h (λ c u k. k) e
    step_spares (prunes o now) t h e = prune_spares o now t h e
