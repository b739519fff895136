-- ===== src/Ingress/Refinement.antt =====
-- src/mattermost/ingress-queue.ts: each call makes the moves that its label allows, on every event.
use openclaw_mattermost_cust.Base.{refl, String, List, arith, or_else}
use openclaw_mattermost_cust.Base.Text.{or_text}
use openclaw_mattermost_cust.Ingress.Row.{Table, settles, Json, Queue}
use openclaw_mattermost_cust.Ingress.Setup.{an_id, id_from, token_from}
use openclaw_mattermost_cust.Ingress.Operations.{
  set_completed, set_released, set_failed, set_refreshed, refreshes as refreshed_row, new_row,
  stringify_column, counts_attempt, enqueue, complete, release, fail, delete, refresh_claim,
}
use openclaw_mattermost_cust.Ingress.Claiming.{set_claimed, takes, claim, claim_first, claim_next}
use openclaw_mattermost_cust.Ingress.History.{
  Call, enqueues, claims, claims_next, refreshes, completes, releases, fails, deletes, recovers,
  prunes, after_bind, after-enqueue_result, step, run,
}
use openclaw_mattermost_cust.Ingress.Keys.{IsKeyed}
use openclaw_mattermost_cust.Ingress.Consistency.{IsValid}
use openclaw_mattermost_cust.Ingress.Invariant.{run-IsValid}
use openclaw_mattermost_cust.Ingress.Phases.{
  Phase, Label, enqueuing, refreshing, recovering, pruning, taking, completing, releasing, failing,
  deleting, Move, stays, is_taken, is_completed, is_released, is_failed, is_deleted, settles-owns,
  at, update-Move, delete-Move, insert-Move,
}
use openclaw_mattermost_cust.Ingress.Moves.{
  waiting_of, prune-Move, recover-Move, recovered_first-Move, take_selected-Move, settled-Move,
}

-- One move after another.
pub data Two (k l : Label) : Phase → Phase → Type 0 where
  then_moves : {p m q : Phase} → Move k p m → Move l m q → Two k l p q

-- What a call may do to an event. Only claimNext may do two things: take a stale claim back, and then
-- claim the event.
abbrev pub Does : (json : Json) → Call json → Phase → Phase → Type 0
Does json (enqueues id payload o now now') = Move enqueuing
Does json (claims ref owner token now) = Move (taking token)
Does json (claims_next o token now time) = Two recovering (taking token)
Does json (refreshes id token time now now') = Move refreshing
Does json (completes ref o now) = Move (completing (token_from ref))
Does json (releases ref o now) = Move (releasing (token_from ref))
Does json (fails ref o now) = Move (failing (token_from ref))
Does json (deletes ref) = Move (deleting (token_from ref))
Does json (recovers stale answer now) = Move recovering
Does json (prunes o now) = Move pruning

module _ (q : Queue) (account id : String) (json : Json) where
  -- A call of a queue does to every event of a keyed table what its label allows.
  step_keyed-Does :
      (c : Call json) (t : Table)
      → IsKeyed t
      → Does json c (at account id t) (at account id (step json q c t))
  unfolding step
  step_keyed-Does (enqueues i payload o now now') t k =
      unfold enqueue in
      after_bind (λ u. Move enqueuing (at account id t) (at account id u)) t (id_from (an_id i)) _
        stays
        λ j.
          after-enqueue_result json (λ u. Move enqueuing (at account id t) (at account id u)) q _ t
            _ _ stays
            (insert-Move account id (new_row json q j payload o (or_else o.received_at now) now') t
              refl)
  step_keyed-Does (claims ref owner token now) t k =
      unfold claim in
      after_bind (λ u. Move (taking token) (at account id t) (at account id u)) t (id_from ref) _
        stays
        λ i.
          update-Move account id (taking token) (takes q i)
            (set_claimed token (or_text owner q.pid) now) (λ a j u. refl)
            (λ r e. rw (waiting_of r (ground arith)) (is_taken token)) t
  step_keyed-Does (claims_next o token now time) t k =
      unfold claim_next claim_first in
      then_moves (recovered_first-Move q account id json o.stale_ms now t)
        (take_selected-Move q account id json o token time _ _)
  step_keyed-Does (refreshes i token time now now') t k =
      unfold refresh_claim in
      update-Move account id refreshing (refreshed_row q i token)
        (set_refreshed (or_else time now) (or_else time now')) (λ a j u. refl) (λ r e. stays) t
  step_keyed-Does (completes ref o now) t k =
      unfold complete in
      after_bind (λ u. Move (completing (token_from ref)) (at account id t) (at account id u)) t
        (id_from ref) _ stays
        λ i.
          settled-Move q account id json (completing (token_from ref))
            (set_completed (or_else o.completed_at now) (stringify_column json o.metadata)) ref i t
            (λ a j u. refl) (λ r h. is_completed h)
  step_keyed-Does (releases ref o now) t k =
      unfold release in
      after_bind (λ u. Move (releasing (token_from ref)) (at account id t) (at account id u)) t
        (id_from ref) _ stays
        λ i.
          settled-Move q account id json (releasing (token_from ref))
            (set_released (counts_attempt o) (or_else o.released_at now) o.last_error) ref i t
            (λ a j u. refl) (λ r h. is_released h)
  step_keyed-Does (fails ref o now) t k =
      unfold fail in
      after_bind (λ u. Move (failing (token_from ref)) (at account id t) (at account id u)) t
        (id_from ref) _ stays
        λ i.
          settled-Move q account id json (failing (token_from ref))
            (set_failed (or_else o.failed_at now) o.reason o.message) ref i t (λ a j u. refl)
            (λ r h. is_failed h)
  step_keyed-Does (deletes ref) t k =
      unfold delete in
      after_bind (λ u. Move (deleting (token_from ref)) (at account id t) (at account id u)) t
        (id_from ref) _ stays
        λ i.
          delete-Move account id (deleting (token_from ref))
            (settles q.account_id i (token_from ref))
            (λ r e. is_deleted (settles-owns q.account_id i (token_from ref) r e)) t k
  step_keyed-Does (recovers stale answer now) t k =
      recover-Move q account id json _ now t (λ c u. stays)
  step_keyed-Does (prunes o now) t k = prune-Move q account id o now t k

-- The queue refines the abstract life of an event: after every history of calls from a valid table,
-- each further call moves each event as its label allows. An event enters waiting; only a claim
-- takes it, and only when it waits; a settlement ends it only without a token when it waits, or with the
-- token under which it is held; only the recovery returns a held event without its token; and a settled
-- event is never moved but by the pruning.
pub step-Does :
    (json : Json) (cs : List (Queue × Call json)) (t : Table) (q : Queue) (c : Call json)
    (account id : String)
    → IsValid t
    → Does json c (at account id (run json cs t)) (at account id (step json q c (run json cs t)))
step-Does json cs t q c account id v =
    step_keyed-Does q account id json c (run json cs t) (run-IsValid json cs t v).keyed
