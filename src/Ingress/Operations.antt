-- ===== src/Ingress/Operations.antt =====
-- src/mattermost/ingress-queue.ts: enqueue, the lists, and the statements that settle one event.
-- An operation takes the readings of the clock that it makes and returns its result with the new
-- table; a thrown error leaves the table as it was, since the transaction is rolled back.
use openclaw_mattermost_cust.Base.{
  ℕ, suc, ◌+◌, Bool, true, false, ◌&&◌, ◌||◌, String, Option, none, some, List, [], ◌∷◌, ◌++◌, map,
  ltb, eqb, if◌then◌else◌, or_else, is_some, take, Result, ok, err, ◌>>=◌,
}
use openclaw_mattermost_cust.Base.Table.{update_where, select_where, delete_where, count_where}
use openclaw_mattermost_cust.Base.Sorting.{sort}
use openclaw_mattermost_cust.Base.Text.{text_le}
use openclaw_mattermost_cust.Ingress.Row.{
  pending, claimed, completed, failed, same_status, Row, Table, has_key, has_status, column_is,
  settles, select_row, Json, Queue, QueueRecord, QueueClaim, FailedRecord, Enqueued, accepted,
  base_record, claim_record, failed_record, duplicate_result,
}
use openclaw_mattermost_cust.Ingress.Setup.{
  Error, not_persisted, Limit, positive_limit, IdOrClaim, an_id, id_from, token_from,
}

-- `ORDER BY received_at, event_id` and `ORDER BY event_id`.
abbrev pub by_received : Row → Row → Bool
by_received r s =
    ltb r.received_at s.received_at
    || (eqb r.received_at s.received_at && text_le r.event_id s.event_id)

abbrev pub by_id : Row → Row → Bool
by_id r s = text_le r.event_id s.event_id

-- NULL comes first.
abbrev pub null_first : Option ℕ → ℕ
null_first none = 0
null_first (some n) = suc n

abbrev pub by_claimed : Row → Row → Bool
by_claimed r s =
    ltb (null_first r.claimed_at) (null_first s.claimed_at)
    || (eqb (null_first r.claimed_at) (null_first s.claimed_at) && by_received r s)

abbrev pub by_failed : Row → Row → Bool
by_failed r s =
    ltb (null_first r.failed_at) (null_first s.failed_at)
    || (eqb (null_first r.failed_at) (null_first s.failed_at) && by_id r s)

abbrev pub order_test : Bool → Row → Row → Bool
order_test true = by_id
order_test false = by_received

-- `INSERT OR IGNORE` under `PRIMARY KEY (account_id, event_id)`.
abbrev pub insert_or_ignore : Row → Table → Table
insert_or_ignore r t = if is_some (select_row r.account_id r.event_id t) then t else t ++ r ∷ []

-- The pending rows of the account, in order and within the limit.
unfoldable pub pending_window : Queue → Bool → Option Limit → Table → List Row
pending_window q by_event_id limit t =
    take (positive_limit limit)
      (sort (order_test by_event_id) (select_where (has_status q.account_id pending) t))

abbrev pub set_completed : ℕ → Option String → Row → Row
set_completed at metadata r = record r {
  status = completed;
  completed_at = some at;
  completed_metadata_json = metadata;
  payload_json = "null";
  metadata_json = none;
  claim_token = none;
  claim_owner = none;
  claimed_at = none;
  last_attempt_at = none;
  last_error = none;
  updated_at = at;
}

-- `CASE WHEN ? = 1 THEN ? ELSE last_attempt_at END` and `COALESCE(?, last_error)`.
abbrev pub set_released : Bool → ℕ → Option String → Row → Row
set_released counts at error r = record r {
  status = pending;
  claim_token = none;
  claim_owner = none;
  claimed_at = none;
  attempts = r.attempts + (if counts then 1 else 0);
  last_attempt_at = if counts then some at else r.last_attempt_at;
  last_error = if is_some error then error else r.last_error;
  updated_at = at;
}

abbrev pub set_failed : ℕ → String → Option String → Row → Row
set_failed at reason message r = record r {
  status = failed;
  failed_at = some at;
  failed_reason = some reason;
  last_error = message;
  claim_token = none;
  claim_owner = none;
  claimed_at = none;
  updated_at = at;
}

abbrev pub set_refreshed : ℕ → ℕ → Row → Row
set_refreshed at at' r = record r { claimed_at = some at; updated_at = at' }

-- `changed(statement.run(…))` of an UPDATE, with the table that it leaves.
abbrev pub run_update : (Row → Bool) → (Row → Row) → Table → Bool × Table
run_update p f t = (ltb 0 (count_where p t), update_where p f t)

pub record ReleaseOptions : Type 0 where
  pub record_attempt : Option Bool
  pub released_at : Option ℕ
  pub last_error : Option String

pub record FailOptions : Type 0 where
  pub failed_at : Option ℕ
  pub reason : String
  pub message : Option String

-- `recordAttempt === false` is false; anything else is true.
abbrev pub counts_attempt : ReleaseOptions → Bool
counts_attempt o = or_else o.record_attempt true

-- The row that `refreshClaim` updates.
abbrev pub refreshes : Queue → String → String → Row → Bool
refreshes q id token r =
    has_key q.account_id id r && same_status r.status claimed && column_is r.claim_token token

-- It takes the claim's id as it is, and reads the clock once for each column.
unfoldable pub refresh_claim : Queue → String → String → Option ℕ → ℕ → ℕ → Table → Bool × Table
refresh_claim q id token refreshed_at now now' t =
    run_update (refreshes q id token)
      (set_refreshed (or_else refreshed_at now) (or_else refreshed_at now')) t

unfoldable pub release :
    Queue → IdOrClaim → ReleaseOptions → ℕ → Table → Result Error (Bool × Table)
release q ref options now t = do
  id ← id_from ref
  let at = or_else options.released_at now
  ok (
      run_update (settles q.account_id id (token_from ref))
        (set_released (counts_attempt options) at options.last_error) t)

unfoldable pub fail : Queue → IdOrClaim → FailOptions → ℕ → Table → Result Error (Bool × Table)
fail q ref options now t = do
  id ← id_from ref
  let at = or_else options.failed_at now
  ok (
      run_update (settles q.account_id id (token_from ref))
        (set_failed at options.reason options.message) t)

unfoldable pub delete : Queue → IdOrClaim → Table → Result Error (Bool × Table)
delete q ref t = do
  id ← id_from ref
  let p = settles q.account_id id (token_from ref)
  ok (ltb 0 (count_where p t), delete_where p t)

module _ (json : Json) where
  open json use {Value, stringify}

  pub record EnqueueOptions : Type 0 where
    pub received_at : Option ℕ
    pub lane_key : Option String
    pub metadata : Option Value

  pub record CompleteOptions : Type 0 where
    pub completed_at : Option ℕ
    pub metadata : Option Value

  abbrev pub stringify_column : Option Value → Option String
  stringify_column none = none
  stringify_column (some v) = some (stringify v)

  -- The values of the INSERT.
  abbrev pub new_row : Queue → String → Value → EnqueueOptions → ℕ → ℕ → Row
  new_row q id payload options received now = record {
    account_id = q.account_id;
    event_id = id;
    status = pending;
    lane_key = options.lane_key;
    payload_json = stringify payload;
    metadata_json = stringify_column options.metadata;
    received_at = received;
    updated_at = now;
    attempts = 0;
    last_attempt_at = none;
    last_error = none;
    claim_token = none;
    claim_owner = none;
    claimed_at = none;
    completed_at = none;
    completed_metadata_json = none;
    failed_at = none;
    failed_reason = none;
  }

  abbrev pub enqueue_result :
      Queue → Bool → Table → Option Row → Result Error (Enqueued json × Table)
  enqueue_result q inserted t none = err not_persisted
  enqueue_result q inserted t (some r) =
      ok ((if inserted then accepted (base_record json q r) else duplicate_result json q r), t)

  -- The clock is read for `receivedAt`, where no option gives it, and again for `updated_at`.
  unfoldable pub enqueue :
      Queue → String → Value → EnqueueOptions → ℕ → ℕ → Table → Result Error (Enqueued json × Table)
  enqueue q id payload options now now' t = do
    event_id ← id_from (an_id id)
    let fresh = new_row q event_id payload options (or_else options.received_at now) now'
    let t' = insert_or_ignore fresh t
    enqueue_result q (if is_some (select_row q.account_id event_id t) then false else true) t'
        (select_row q.account_id event_id t')

  unfoldable pub complete :
      Queue → IdOrClaim → CompleteOptions → ℕ → Table → Result Error (Bool × Table)
  complete q ref options now t = do
    id ← id_from ref
    let at = or_else options.completed_at now
    ok (
        run_update (settles q.account_id id (token_from ref))
          (set_completed at (stringify_column options.metadata)) t)

  unfoldable pub list_pending : Queue → Bool → Option Limit → Table → List (QueueRecord json)
  list_pending q by_event_id limit t =
      map (base_record json q) (pending_window q by_event_id limit t)

  unfoldable pub list_claims : Queue → Table → List (QueueClaim json)
  list_claims q t =
      map (claim_record json q) (sort by_claimed (select_where (has_status q.account_id claimed) t))

  -- A base record extended by the failure.
  pub record FailedEntry : Type 0 where
    pub base : QueueRecord json
    pub failure : FailedRecord json

  unfoldable pub list_failed : Queue → Option Limit → Table → List FailedEntry
  list_failed q limit t =
      map (λ r. record { base = base_record json q r; failure = failed_record json q r })
        (take (positive_limit limit)
          (sort by_failed (select_where (has_status q.account_id failed) t)))
