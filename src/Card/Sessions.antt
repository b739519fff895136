-- ===== src/Card/Sessions.antt =====
-- src/mattermost/task-progress-card.ts: the subtasks of a card, by the events of their runs and by
-- what the host lists.
use openclaw_mattermost_cust.Base.{
  ℕ, Bool, true, false, not, ◌&&◌, ◌||◌, String, ◌==◌, Option, none, some, List, [], ◌∷◌, or_else,
  is_some, if◌then◌else◌,
}
use openclaw_mattermost_cust.Base.Text.{truthy}
use openclaw_mattermost_cust.Base.Keyed.{value_at, put_at}
use openclaw_mattermost_cust.Stream.Value.{
  Js, undefined, null, boolean, Fields, get_field, as_record, as_text, is_text,
}
use openclaw_mattermost_cust.Card.Lines.{Tools, bounded_line, normalize_title}
use openclaw_mattermost_cust.Card.Render.{
  completed, incomplete, failed, cancelled, SessionStatus, running, session_completed,
  session_failed, session_cancelled, Session,
}
use openclaw_mattermost_cust.Card.State.{Lifecycle, yielded, terminal, Card, publish_change}

-- `items` are the entries of `data.steps`, if that is an array.
pub record AgentEvent : Type 0 where
  pub run_id : Option String
  pub session_key : Option String
  pub stream : String
  pub fields : Fields
  pub items : List Js

abbrev pub is_true : Js → Bool
is_true (boolean b) = b
is_true _ = false

abbrev pub is_nullish : Js → Bool
is_nullish undefined = true
is_nullish null = true
is_nullish _ = false

abbrev pub is_yielded_waiting : Fields → Bool
is_yielded_waiting f =
    is_text (get_field "phase" f) "end"
    && is_true (get_field "yielded" f)
    && is_text (get_field "livenessState" f) "paused"
    && is_text (get_field "stopReason" f) "end_turn"
    && not (is_true (get_field "aborted" f))
    && not (is_text (get_field "status" f) "cancelled")
    && not (is_text (get_field "status" f) "timed_out")
    && is_nullish (get_field "timeoutPhase" f)
    && is_nullish (get_field "error" f)

abbrev pub is_end : Fields → Bool
is_end f = is_text (get_field "phase" f) "end" || is_text (get_field "phase" f) "error"

-- The classification of an `end` or `error` event.
unfoldable pub end_of : Fields → Lifecycle
unfolding get_field
end_of f =
    if is_true (get_field "aborted" f)
    then terminal cancelled
    else if is_text (get_field "phase" f) "error"
        || not (is_nullish (get_field "error" f))
        || is_text (get_field "status" f) "timed_out"
        || not (is_nullish (get_field "timeoutPhase" f))
    then terminal failed
    else if is_text (get_field "status" f) "cancelled"
    then terminal cancelled
    else if is_yielded_waiting f
    then yielded
    else terminal completed

abbrev pub session_end : Lifecycle → SessionStatus
session_end yielded = running
session_end (terminal completed) = session_completed
session_end (terminal incomplete) = session_completed
session_end (terminal failed) = session_failed
session_end (terminal cancelled) = session_cancelled

abbrev pub or_option : Option String → Option String → Option String
or_option none b = b
or_option (some a) b = some a

abbrev pub field_at : String → Option Fields → Js
field_at name none = undefined
field_at name (some f) = get_field name f

-- The first entry that is an object with a status.
unfoldable pub find_item : String → List Js → Option Fields
unfolding get_field
find_item status [] = none
find_item status (x ∷ xs) =
    let rest = find_item status xs in
    elim (as_record x) [
      | none ↦ rest
      | some f ↦ if is_text (get_field "status" f) status then some f else rest
    ]

abbrev pub max_progress_chars : ℕ
max_progress_chars = 240

abbrev pub max_label_chars : ℕ
max_label_chars = 120

module _ (tools : Tools) where
  abbrev pub line_at : String → Fields → Option String
  unfolding bounded_line
  line_at name f = bounded_line tools (get_field name f) max_progress_chars

  abbrev pub plan_progress : AgentEvent → Option String
  unfolding bounded_line find_item normalize_title
  plan_progress e =
      or_option
        (bounded_line tools (field_at "step" (find_item "in_progress" e.items)) max_progress_chars)
        (or_option
          (bounded_line tools (field_at "step" (find_item "pending" e.items)) max_progress_chars)
          (or_option (line_at "explanation" e.fields)
            (normalize_title (line_at "title" e.fields) (as_text (get_field "source" e.fields)))))

  abbrev pub item_progress : Fields → Option String
  item_progress f =
      if is_true (get_field "hideFromChannelProgress" f)
        || is_true (get_field "suppressChannelProgress" f)
      then none
      else or_option (line_at "progressText" f)
          (or_option (line_at "summary" f) (or_option (line_at "title" f) (line_at "name" f)))

  unfoldable pub read_progress : AgentEvent → Option String
  unfolding bounded_line find_item normalize_title get_field
  read_progress e =
      if e.stream == "plan"
      then plan_progress e
      else if e.stream == "item"
      then item_progress e.fields
      else if e.stream == "tool"
      then or_option (line_at "progressText" e.fields)
          (or_option (line_at "meta" e.fields) (line_at "name" e.fields))
      else none

  -- What an event makes of its session, or nothing.
  unfoldable pub session_after : AgentEvent → Session → Option Session
  unfolding end_of read_progress get_field
  session_after e w =
      if e.stream == "lifecycle"
      then if is_text (get_field "phase" e.fields) "start"
        then some (record w { status = running; progress = none })
        else if is_end e.fields
        then some (record w { status = session_end (end_of e.fields); progress = none })
        else none
      else elim (read_progress e) [
        | none ↦ none
        | some p ↦ some (record w { status = running; progress = some p })
      ]

  -- A run that is not the session's own, unless it starts.
  unfoldable pub is_other_run : AgentEvent → Session → Bool
  unfolding get_field
  is_other_run e w =
      truthy w.run_id
      && truthy e.run_id
      && not (or_else e.run_id "" == or_else w.run_id "")
      && not (e.stream == "lifecycle" && is_text (get_field "phase" e.fields) "start")

  abbrev pub with_run : AgentEvent → Session → Session
  with_run e w = if truthy e.run_id then record w { run_id = e.run_id } else w

  unfoldable pub put_session : String → Session → Option Session → Card → Card
  unfolding publish_change
  put_session key w none s = record s { sessions = put_at key w s.sessions }
  put_session key w (some changed) s =
      publish_change (record s { sessions = put_at key changed s.sessions })

  unfoldable pub note_session : AgentEvent → String → Option Session → Card → Card
  unfolding session_after is_other_run put_session
  note_session e key none s = s
  note_session e key (some w) s =
      if is_other_run e w
      then s
      else put_session key (with_run e w) (session_after e (with_run e w)) s

  -- A terminal end is kept.
  abbrev pub keeps_end : Option Lifecycle → Bool
  keeps_end (some (terminal failed)) = true
  keeps_end (some (terminal cancelled)) = true
  keeps_end _ = false

  unfoldable pub note_lifecycle : AgentEvent → Card → Card
  unfolding end_of get_field
  note_lifecycle e s =
      if truthy s.active_run
        && is_some e.run_id
        && or_else e.run_id "" == or_else s.active_run ""
        && e.stream == "lifecycle"
        && is_end e.fields
        && not (keeps_end s.lifecycle)
      then record s { lifecycle = some (end_of e.fields) }
      else s

  unfoldable pub note_agent_event : AgentEvent → Card → Card
  unfolding note_lifecycle note_session
  note_agent_event e s =
      let noted = note_lifecycle e s in
      if s.settled || not (truthy e.session_key)
      then noted
      else note_session e (or_else e.session_key "")
          (value_at (or_else e.session_key "") s.sessions) noted
