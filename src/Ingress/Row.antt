-- ===== src/Ingress/Row.antt =====
-- src/mattermost/ingress-queue.ts: the stored row with the columns of `ingress_events`, the records
-- that the queue hands out, and the tests of the WHERE clauses. Times are milliseconds as ℕ.
use openclaw_mattermost_cust.Base.{
  ℕ, ◌≡◌, Bool, true, false, ◌&&◌, String, ◌==◌, Option, none, some, List, or_else, find,
}

pub data Status : Type 0 where
  pending claimed completed failed : Status

abbrev pub same_status : Status → Status → Bool
same_status pending pending = true
same_status claimed claimed = true
same_status completed completed = true
same_status failed failed = true
same_status _ _ = false

pub record Row : Type 0 where
  pub account_id : String
  pub event_id : String
  pub status : Status
  pub lane_key : Option String
  pub payload_json : String
  pub metadata_json : Option String
  pub received_at : ℕ
  pub updated_at : ℕ
  pub attempts : ℕ
  pub last_attempt_at : Option ℕ
  pub last_error : Option String
  pub claim_token : Option String
  pub claim_owner : Option String
  pub claimed_at : Option ℕ
  pub completed_at : Option ℕ
  pub completed_metadata_json : Option String
  pub failed_at : Option ℕ
  pub failed_reason : Option String

abbrev pub Table : Type 0
Table = List Row

-- `WHERE account_id = ? AND event_id = ?`.
abbrev pub has_key : String → String → Row → Bool
has_key account id r = (r.account_id == account) && (r.event_id == id)

-- `WHERE account_id = ? AND status = ?`.
abbrev pub has_status : String → Status → Row → Bool
has_status account status r = (r.account_id == account) && same_status r.status status

-- `column = ?` over a column that may be NULL: a comparison with NULL is not true.
abbrev pub column_is : Option String → String → Bool
column_is none token = false
column_is (some held) token = held == token

-- `(? IS NULL OR claim_token = ?)`.
abbrev pub token_matches : Option String → Row → Bool
token_matches none r = true
token_matches (some token) r = column_is r.claim_token token

-- The status that `token === null ? "pending" : "claimed"` names.
abbrev pub held_status : Option String → Status
held_status none = pending
held_status (some token) = claimed

-- The WHERE clause that complete, release, fail and delete share.
abbrev pub settles : String → String → Option String → Row → Bool
settles account id token r =
    has_key account id r && same_status r.status (held_status token) && token_matches token r

unfoldable pub select_row : String → String → Table → Option Row
select_row account id t = find (has_key account id) t

-- JSON of the runtime over the values that payloads and metadata hold.
pub record Json : Type 1 where
  pub Value : Type 0
  pub stringify : Value → String
  pub parse : String → Value
  pub parse-stringify : (v : Value) → parse (stringify v) ≡ v

-- What a queue is made from: the account that it serves, its name, and the process that runs it.
pub record Queue : Type 0 where
  pub account_id : String
  pub queue_name : List String
  pub pid : String

abbrev pub channel_id : String
channel_id = "mattermost"

module _ (json : Json) where
  open json use {Value, parse}

  pub record QueueRecord : Type 0 where
    pub id : String
    pub channel_id : String
    pub account_id : String
    pub queue_name : List String
    pub payload : Value
    pub metadata : Option Value
    pub received_at : ℕ
    pub updated_at : ℕ
    pub lane_key : Option String
    pub attempts : ℕ
    pub last_attempt_at : Option ℕ
    pub last_error : Option String

  pub record QueueClaim : Type 0 where
    pub base : QueueRecord
    pub token : String
    pub owner_id : String
    pub claimed_at : ℕ

  pub record CompletedRecord : Type 0 where
    pub id : String
    pub channel_id : String
    pub account_id : String
    pub queue_name : List String
    pub completed_at : ℕ
    pub metadata : Option Value

  pub record FailedRecord : Type 0 where
    pub id : String
    pub channel_id : String
    pub account_id : String
    pub queue_name : List String
    pub failed_at : ℕ
    pub reason : String
    pub message : Option String

  -- What `enqueue` reports of the row that it stored or found.
  pub data Enqueued : Type 0 where
    accepted is_pending : QueueRecord → Enqueued
    is_claimed : QueueClaim → Enqueued
    is_completed : CompletedRecord → Enqueued
    is_failed : FailedRecord → Enqueued

  abbrev pub parse_column : Option String → Option Value
  parse_column none = none
  parse_column (some text) = some (parse text)

  unfoldable pub base_record : Queue → Row → QueueRecord
  base_record q r = record {
    id = r.event_id;
    channel_id = channel_id;
    account_id = q.account_id;
    queue_name = q.queue_name;
    payload = parse r.payload_json;
    metadata = parse_column r.metadata_json;
    received_at = r.received_at;
    updated_at = r.updated_at;
    lane_key = r.lane_key;
    attempts = r.attempts;
    last_attempt_at = r.last_attempt_at;
    last_error = r.last_error;
  }

  unfoldable pub claim_record : Queue → Row → QueueClaim
  claim_record q r = record {
    base = base_record q r;
    token = or_else r.claim_token "";
    owner_id = or_else r.claim_owner "";
    claimed_at = or_else r.claimed_at 0;
  }

  unfoldable pub completed_record : Queue → Row → CompletedRecord
  completed_record q r = record {
    id = r.event_id;
    channel_id = channel_id;
    account_id = q.account_id;
    queue_name = q.queue_name;
    completed_at = or_else r.completed_at r.updated_at;
    metadata = parse_column r.completed_metadata_json;
  }

  unfoldable pub failed_record : Queue → Row → FailedRecord
  failed_record q r = record {
    id = r.event_id;
    channel_id = channel_id;
    account_id = q.account_id;
    queue_name = q.queue_name;
    failed_at = or_else r.failed_at r.updated_at;
    reason = or_else r.failed_reason "failed";
    message = r.last_error;
  }

  abbrev duplicate_of : Status → Queue → Row → Enqueued
  duplicate_of pending q r = is_pending (base_record q r)
  duplicate_of claimed q r = is_claimed (claim_record q r)
  duplicate_of completed q r = is_completed (completed_record q r)
  duplicate_of failed q r = is_failed (failed_record q r)

  unfoldable pub duplicate_result : Queue → Row → Enqueued
  duplicate_result q r = duplicate_of r.status q r
