-- ===== src/Ingress/Invariant.antt =====
-- src/mattermost/ingress-queue.ts: the claim columns agree with the status, the settlement columns
-- too, and the key is unique, whatever calls reach the database.
use openclaw_mattermost_cust.Base.{
  ℕ, refl, Bool, String, Option, none, some, List, [], ◌∷◌, inl, inr, Bool-cases, or_else,
}
use openclaw_mattermost_cust.Base.Table.{select_where}
use openclaw_mattermost_cust.Base.Text.{or_text}
use openclaw_mattermost_cust.Ingress.Row.{
  Row, Table, Json, Queue, QueueClaim, base_record, claim_record,
}
use openclaw_mattermost_cust.Ingress.Setup.{IdOrClaim, an_id, id_from}
use openclaw_mattermost_cust.Ingress.Operations.{
  enqueue, complete, release, fail, delete, refresh_claim, EnqueueOptions, counts_attempt,
}
use openclaw_mattermost_cust.Ingress.Claiming.{
  takes, claim, stale_claim, resolve_claim_lane_key, claim_first, claim_next, recover_loop,
  recover_stale_claims, ClaimOptions, RecoverOptions, asked, recover_one, take_selected,
  recovered_first,
}
use openclaw_mattermost_cust.Ingress.History.{
  Call, enqueues, claims, claims_next, refreshes, completes, releases, fails, deletes, recovers,
  prunes, after, after_bind, after-enqueue_result, step, run,
}
use openclaw_mattermost_cust.Ingress.Consistency.{
  IsValid, delete_where-IsValid, insert_or_ignore-IsValid, set_released-IsValid, recovered-IsValid,
  refreshed-IsValid, claimed-IsValid, claimed_in_lane-IsValid, completed-IsValid, failed-IsValid,
  prune-IsValid,
}

module _ (json : Json) where
  open json use {Value}

  enqueue-IsValid :
      (q : Queue) (id : String) (payload : Value) (o : EnqueueOptions json) (now now' : ℕ)
      (t : Table)
      → IsValid t
      → IsValid (after t (enqueue json q id payload o now now' t))
  unfolding enqueue
  enqueue-IsValid q id payload o now now' t v = after_bind IsValid t (id_from (an_id id)) _ v λ i.
      after-enqueue_result json IsValid q _ t _ _ v
        (insert_or_ignore-IsValid _ t (refl, refl, refl) v)

  recover_one-IsValid :
      (q : Queue) (current stale : ℕ) (ask : Option (QueueClaim json → Table → Bool × Table))
      (r : Row) (t : Table)
      → ((c : QueueClaim json) → IsValid (asked json ask c t).1)
      → IsValid (recover_one json q current stale ask r t).1
  unfolding recover_one
  recover_one-IsValid q current stale ask r t keeps =
      let v = keeps (claim_record json q r) in
      elim (Bool-cases (asked json ask (claim_record json q r) t).0) [
        | inl agreed ↦ rw agreed (recovered-IsValid _ current _ v)
        | inr refused ↦ rw refused v
      ]

  recover_loop-IsValid :
      (q : Queue) (current stale : ℕ) (ask : Option (QueueClaim json → Table → Bool × Table))
      (rs : List Row) (n : ℕ) (t : Table)
      → ((c : QueueClaim json) (u : Table) → IsValid u → IsValid (asked json ask c u).1)
      → IsValid t
      → IsValid (recover_loop json q current stale ask rs n t).1
  unfolding recover_loop
  recover_loop-IsValid q current stale ask [] n t keeps v = v
  recover_loop-IsValid q current stale ask (r ∷ rs) n t keeps v =
      recover_loop-IsValid q current stale ask rs _ _ keeps
        (recover_one-IsValid q current stale ask r t (λ c. keeps c t v))

  take_selected-IsValid :
      (q : Queue) (o : ClaimOptions json) (token : String) (at : ℕ) (t : Table) (r : Option Row)
      → IsValid t
      → IsValid (take_selected json q o token at t r).1
  take_selected-IsValid q o token at t none v = v
  take_selected-IsValid q o token at t (some r) v =
      claimed_in_lane-IsValid (takes q r.event_id) token (or_text o.owner_id q.pid) at
        (resolve_claim_lane_key json o (base_record json q r)) t v

  -- Whatever the other operations do while `shouldRecover` is awaited, if they keep the table
  -- valid then so does the recovery.
  pub recover_stale_claims-IsValid :
      (q : Queue) (o : RecoverOptions json) (now : ℕ) (t : Table)
      → ((c : QueueClaim json) (u : Table)
          → IsValid u
          → IsValid (asked json o.should_recover c u).1)
      → IsValid t
      → IsValid (recover_stale_claims json q o now t).1
  unfolding recover_stale_claims
  recover_stale_claims-IsValid q o now t keeps v =
      let current = or_else o.now now in
      let stale = or_else o.stale_ms 0 in
      recover_loop-IsValid q current stale o.should_recover
        (select_where (stale_claim q current stale) t) 0 t keeps v

  recovered_first-IsValid :
      (q : Queue) (stale : Option ℕ) (now : ℕ) (t : Table)
      → IsValid t
      → IsValid (recovered_first json q stale now t)
  recovered_first-IsValid q none now t v = v
  recovered_first-IsValid q (some stale) now t v =
      recover_stale_claims-IsValid q _ now t (λ c u w. w) v

  pub claim-IsValid :
      (q : Queue) (ref : IdOrClaim) (owner : Option String) (token : String) (now : ℕ) (t : Table)
      → IsValid t
      → IsValid (after t (claim json q ref owner token now t))
  unfolding claim
  claim-IsValid q ref owner token now t v =
      after_bind IsValid t (id_from ref) _ v
        λ i. claimed-IsValid (takes q i) token (or_text owner q.pid) now t v

  -- Every call keeps the table valid.
  step-IsValid : (q : Queue) (c : Call json) (t : Table) → IsValid t → IsValid (step json q c t)
  unfolding step
  step-IsValid q (enqueues id payload o now now') t v = enqueue-IsValid q id payload o now now' t v
  step-IsValid q (claims ref owner token now) t v = claim-IsValid q ref owner token now t v
  step-IsValid q (claims_next o token now at) t v =
      unfold claim_next claim_first in
      take_selected-IsValid q o token at _ _ (recovered_first-IsValid q o.stale_ms now t v)
  step-IsValid q (refreshes id token at now now') t v =
      unfold refresh_claim in refreshed-IsValid q id token _ _ t v
  step-IsValid q (completes ref o now) t v =
      unfold complete in after_bind IsValid t (id_from ref) _ v λ i. completed-IsValid _ _ _ t v
  step-IsValid q (releases ref o now) t v =
      unfold release in
      after_bind IsValid t (id_from ref) _ v
        λ i. set_released-IsValid _ (counts_attempt o) _ o.last_error t v
  step-IsValid q (fails ref o now) t v =
      unfold fail in
      after_bind IsValid t (id_from ref) _ v λ i. failed-IsValid _ _ o.reason o.message t v
  step-IsValid q (deletes ref) t v =
      unfold delete in after_bind IsValid t (id_from ref) _ v λ i. delete_where-IsValid _ t v
  step-IsValid q (recovers stale answer now) t v =
      recover_stale_claims-IsValid q _ now t (λ c u w. w) v
  step-IsValid q (prunes o now) t v = prune-IsValid q o now t v

  -- From a valid table every history of calls, of any accounts, leads to valid tables: the claim
  -- columns are set exactly on claimed rows, completed rows have lost their payload, settled rows
  -- carry their time, and no key occurs twice.
  pub run-IsValid :
      (cs : List (Queue × Call json)) (t : Table) → IsValid t → IsValid (run json cs t)
  unfolding run
  run-IsValid [] t v = v
  run-IsValid ((q, c) ∷ cs) t v = run-IsValid cs (step json q c t) (step-IsValid q c t v)
