-- ===== src/Card/State.antt =====
-- src/mattermost/task-progress-card.ts: the state of a card, and what depends on it.
use openclaw_mattermost_cust.Base.{
  ℕ, suc, Bool, true, false, not, ◌&&◌, ◌||◌, String, Option, none, some, List, [], ◌∷◌, ◌++◌, any,
  leb, is_some, if◌then◌else◌,
}
use openclaw_mattermost_cust.Card.Lines.{Step, pending, in_work, done}
use openclaw_mattermost_cust.Card.Render.{
  Terminal, incomplete, failed, cancelled, CardStatus, in_progress, ended, SessionStatus,
  session_failed, session_cancelled, Sessions, Snapshot, is_active,
}

pub data Lifecycle : Type 0 where
  yielded : Lifecycle
  terminal : Terminal → Lifecycle

pub record NativeCard : Type 0 where
  pub tool_call_id : String
  pub markdown : Option String

-- A request to the server, with the revision of the snapshot that it writes.
pub data Request : Type 0 where
  creates : ℕ → String → Request
  updates : String → ℕ → String → Request
  claims : Request

-- What follows the publication: nothing, `settle`, or `settle` if no subtask is active then.
pub data After : Type 0 where
  nothing settles settles_if_idle : After

pub record Plan : Type 0 where
  pub title : Option String
  pub explanation : Option String
  pub markdown : Option String
  pub steps : List Step
  pub source : Option String

-- What waits for the writes before it: the publication of the latest snapshot, with a test whether
-- it is still current if the flag says so, or the end of an operation that awaits them.
pub data Write : Type 0 where
  publishes : Bool → After → Write
  marks_result settles_at_last : Write
  continues : String → Write
  continues_plan : String → Plan → Write

-- The write that waits for the server, with its snapshot and message.
pub data Doing : Type 0 where
  idle : Doing
  claiming creating updating : Snapshot → String → After → Doing

-- `posts` are the revisions and messages that the server has stored, in order; `settle_calls`
-- counts the calls of `onSettled`, `writes` is the chain that `writeTail` ends.
pub record Card : Type 0 where
  pub active_run : Option String
  pub create_attempts : ℕ
  pub create_disabled : Bool
  pub diagnostic_logs : ℕ
  pub parent_finished : Bool
  pub parent_terminal : Option Terminal
  pub settled : Bool
  pub latest : Option Snapshot
  pub last_markdown : Option String
  pub lifecycle : Option Lifecycle
  pub next_revision : ℕ
  pub pending_cards : List NativeCard
  pub published_message : Option String
  pub published_revision : ℕ
  pub result_started : Bool
  pub post_id : Option String
  pub sessions : Sessions
  pub writes : List Write
  pub doing : Doing
  pub sent : List Request
  pub posts : List (ℕ × String)
  pub settle_calls : ℕ

abbrev pub new_card : Card
new_card = record {
  active_run = none;
  create_attempts = 0;
  create_disabled = false;
  diagnostic_logs = 0;
  parent_finished = false;
  parent_terminal = none;
  settled = false;
  latest = none;
  last_markdown = none;
  lifecycle = none;
  next_revision = 0;
  pending_cards = [];
  published_message = none;
  published_revision = 0;
  result_started = false;
  post_id = none;
  sessions = [];
  writes = [];
  doing = idle;
  sent = [];
  posts = [];
  settle_calls = 0;
}

abbrev pub max_logs : ℕ
max_logs = 3

abbrev pub log_failure : Card → Card
log_failure s =
    if leb max_logs s.diagnostic_logs
    then s
    else record s { diagnostic_logs = suc s.diagnostic_logs }

abbrev pub settle : Card → Card
settle s = if s.settled then s else record s { settled = true; settle_calls = suc s.settle_calls }

abbrev pub has_active : Sessions → Bool
has_active ss = any (λ e. is_active e.1.status) ss

abbrev pub is_failed_status : SessionStatus → Bool
is_failed_status session_failed = true
is_failed_status _ = false

abbrev pub is_cancelled_status : SessionStatus → Bool
is_cancelled_status session_cancelled = true
is_cancelled_status _ = false

-- Failed or cancelled.
abbrev pub is_final : Option Terminal → Bool
is_final (some failed) = true
is_final (some cancelled) = true
is_final _ = false

abbrev pub resolve_terminal : Option Terminal → Sessions → Option Terminal
resolve_terminal parent ss =
    if is_final parent
    then parent
    else if has_active ss
    then none
    else if any (λ e. is_failed_status e.1.status) ss
    then some failed
    else if any (λ e. is_cancelled_status e.1.status) ss
    then some incomplete
    else parent

abbrev pub status_of : Option Terminal → CardStatus
status_of none = in_progress
status_of (some t) = ended t

abbrev pub push_write : Write → Card → Card
push_write w s = record s { writes = s.writes ++ w ∷ [] }

-- A new snapshot with the next revision, and its publication.
abbrev pub write_snapshot : Snapshot → Write → Card → Card
write_snapshot snapshot w s = push_write w (record s {
  next_revision = suc s.next_revision;
  latest = some (record snapshot { revision = suc s.next_revision });
})

abbrev pub change_status : Option Terminal → Write → Snapshot → Card → Card
change_status t w snapshot s =
    write_snapshot (record snapshot { status = status_of t; work_sessions = s.sessions }) w s

-- `publishWorkSessionChange`.
abbrev pub publish_change_of : Option Snapshot → Card → Card
publish_change_of none s = if s.parent_finished && not (has_active s.sessions) then settle s else s
publish_change_of (some snapshot) s =
    change_status
      (if s.parent_finished then resolve_terminal s.parent_terminal s.sessions else none)
      (publishes false
        (if s.parent_finished && not (has_active s.sessions) then settles else nothing))
      snapshot s

unfoldable pub publish_change : Card → Card
publish_change s = publish_change_of s.latest s

abbrev pub is_open_step : Step → Bool
is_open_step t = elim t.status [ done ↦ false | in_work ↦ true | pending ↦ true ]

abbrev pub is_final_status : CardStatus → Bool
is_final_status (ended failed) = true
is_final_status (ended cancelled) = true
is_final_status _ = false

abbrev pub is_yielded : Option Lifecycle → Bool
is_yielded (some yielded) = true
is_yielded _ = false

abbrev pub may_reopen_snapshot : Option Lifecycle → Option Snapshot → Bool
may_reopen_snapshot l none = false
may_reopen_snapshot l (some snapshot) =
    not (is_final_status snapshot.status)
    && (is_yielded l || any (λ t. is_open_step t) snapshot.steps)

unfoldable pub can_continue : Card → Bool
can_continue s =
    is_some s.post_id
    && not (is_final s.parent_terminal)
    && may_reopen_snapshot s.lifecycle s.latest
