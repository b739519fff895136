-- ===== src/Ingress/History.antt =====
-- src/mattermost/ingress-queue.ts: a history of calls on the queues of one database. A call that
-- throws leaves the table as it was.
use openclaw_mattermost_cust.Base.{
  ℕ, Bool, String, Option, none, some, List, [], ◌∷◌, Result, ok, err, ◌>>=◌,
}
use openclaw_mattermost_cust.Ingress.Row.{Row, Table, Json, Queue, QueueClaim}
use openclaw_mattermost_cust.Ingress.Setup.{Error, IdOrClaim}
use openclaw_mattermost_cust.Ingress.Operations.{
  enqueue_result, EnqueueOptions, CompleteOptions, ReleaseOptions, FailOptions, enqueue, complete,
  release, fail, delete, refresh_claim,
}
use openclaw_mattermost_cust.Ingress.Claiming.{
  ClaimOptions, claim, claim_next, recover_stale_claims,
}
use openclaw_mattermost_cust.Ingress.Maintenance.{PruneOptions, prune}

-- The table that a call leaves.
abbrev pub after {ℓ} : {A : Type ℓ} → Table → Result Error (A × Table) → Table
after t (ok r) = r.1
after t (err e) = t

-- What holds of the table before a call that reads an id, and of the table that the rest of the
-- call leaves, holds after the call.
pub after_bind {ℓ κ} :
    {A : Type ℓ} (P : Table → Type κ) (t : Table) (id : Result Error String)
    (g : String → Result Error (A × Table))
    → P t
    → ((i : String) → P (after t (g i)))
    → P (after t (id >>= g))
after_bind P t (ok i) g h k = k i
after_bind P t (err e) g h k = h

module _ (json : Json) where
  open json use {Value}

  -- A call with its arguments and the readings of the clock and of the token generator. In
  -- `recovers` the answers of `shouldRecover` come at once.
  pub data Call : Type 0 where
    enqueues : String → Value → EnqueueOptions json → ℕ → ℕ → Call
    claims : IdOrClaim → Option String → String → ℕ → Call
    claims_next : ClaimOptions json → String → ℕ → ℕ → Call
    refreshes : String → String → Option ℕ → ℕ → ℕ → Call
    completes : IdOrClaim → CompleteOptions json → ℕ → Call
    releases : IdOrClaim → ReleaseOptions → ℕ → Call
    fails : IdOrClaim → FailOptions → ℕ → Call
    deletes : IdOrClaim → Call
    recovers : Option ℕ → (QueueClaim json → Bool) → ℕ → Call
    prunes : PruneOptions → ℕ → Call

  abbrev at_once : (QueueClaim json → Bool) → QueueClaim json → Table → Bool × Table
  at_once answer c t = (answer c, t)

  unfoldable pub step : Queue → Call → Table → Table
  step q (enqueues id payload o now now') t = after t (enqueue json q id payload o now now' t)
  step q (claims ref owner token now) t = after t (claim json q ref owner token now t)
  step q (claims_next o token now at) t = (claim_next json q o token now at t).1
  step q (refreshes id token at now now') t = (refresh_claim q id token at now now' t).1
  step q (completes ref o now) t = after t (complete json q ref o now t)
  step q (releases ref o now) t = after t (release q ref o now t)
  step q (fails ref o now) t = after t (fail q ref o now t)
  step q (deletes ref) t = after t (delete q ref t)
  step q (recovers stale answer now) t =
      (recover_stale_claims json q
        (record { now = none; stale_ms = stale; should_recover = some (at_once answer) }) now t).1
  step q (prunes o now) t = (prune q o now t).1

  pub after-enqueue_result {κ} :
      (P : Table → Type κ) (q : Queue) (inserted : Bool) (t t' : Table) (r : Option Row)
      → P t
      → P t'
      → P (after t (enqueue_result json q inserted t' r))
  after-enqueue_result P q inserted t t' none h k = h
  after-enqueue_result P q inserted t t' (some r) h k = k

  -- Calls of several queues, in the order in which they reach the database.
  unfoldable pub run : List (Queue × Call) → Table → Table
  run [] t = t
  run ((q, c) ∷ cs) t = run cs (step q c t)
