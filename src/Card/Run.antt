-- ===== src/Card/Run.antt =====
-- src/mattermost/task-progress-card.ts: the histories of a card: calls of its operations, writes that
-- start, and answers of the server, in any order in which one write follows another.
use openclaw_mattermost_cust.Base.{Bool, not, ◌&&◌, String, Option, List, [], ◌∷◌, if◌then◌else◌}
use openclaw_mattermost_cust.Card.Lines.{Tools}
use openclaw_mattermost_cust.Card.Render.{Terminal}
use openclaw_mattermost_cust.Card.State.{
  Plan, Write, publishes, marks_result, settles_at_last, continues, continues_plan, Doing, idle,
  Card, settle, push_write,
}
use openclaw_mattermost_cust.Card.Sessions.{AgentEvent, note_agent_event}
use openclaw_mattermost_cust.Card.Visible.{VisibleSession, note_visible_sessions}
use openclaw_mattermost_cust.Card.Writes.{
  Claim, Created, after_claim, after_create, after_update, finish_write, publish_snapshot,
}
use openclaw_mattermost_cust.Card.Calls.{
  suspend_continuation, reopened, note_run_start, note_tool_start, note_tool_end,
  settle_before_result, mark_result, finish, update_plan, continued_plan,
}

pub data Call : Type 0 where
  suspends : Call
  begins_continuation : String → Call
  plans_continuation : String → Plan → Call
  starts_tool : Option String → Option String → Option String → Option String → Call
  ends_tool : Option String → Call
  starts_run : String → Call
  notes_event : AgentEvent → Call
  notes_sessions : List VisibleSession → Call
  plans : Plan → Call
  settles_before_result : Bool → Call
  finishes : Option Terminal → Bool → Option Bool → Call

-- `starts` lets the next write start, with the answer of its `isCurrent`.
pub data Event : Type 0 where
  calls : Call → Event
  starts : Bool → Event
  claim_answered : Claim → Event
  create_answered : Created → Event
  update_answered : Bool → Event

module _ (tools : Tools) (has_claim : Bool) where
  unfoldable pub call : Call → Card → Card
  unfolding note_tool_start note_agent_event note_visible_sessions update_plan finish
  call suspends s = suspend_continuation s
  call (begins_continuation run) s = push_write (continues run) s
  call (plans_continuation run plan) s = push_write (continues_plan run plan) s
  call (starts_tool id name phase markdown) s = note_tool_start id name phase markdown s
  call (ends_tool id) s = note_tool_end id s
  call (starts_run run) s = note_run_start run s
  call (notes_event e) s = note_agent_event tools e s
  call (notes_sessions vs) s = note_visible_sessions tools vs s
  call (plans plan) s = update_plan tools plan s
  call (settles_before_result identity) s = settle_before_result identity s
  call (finishes outcome delivery_failed current) s = finish outcome delivery_failed current s

  unfoldable pub start_write : Write → Bool → Card → Card
  unfolding publish_snapshot continued_plan
  start_write (publishes guarded after) is_current s =
      if guarded && not is_current
      then finish_write after s
      else publish_snapshot tools has_claim after s.latest s
  start_write marks_result is_current s = mark_result s
  start_write settles_at_last is_current s = settle s
  start_write (continues run) is_current s = reopened run is_current s
  start_write (continues_plan run plan) is_current s = continued_plan tools run plan is_current s

  abbrev pub start_next : List Write → Bool → Card → Card
  start_next [] is_current s = s
  start_next (w ∷ ws) is_current s = start_write w is_current (record s { writes = ws })

  -- A write starts only when none waits for the server.
  abbrev pub start_if_idle : Doing → Bool → Card → Card
  start_if_idle idle is_current s = start_next s.writes is_current s
  start_if_idle _ is_current s = s

  unfoldable pub step : Event → Card → Card
  unfolding call start_write
  step (calls c) s = call c s
  step (starts is_current) s = start_if_idle s.doing is_current s
  step (claim_answered a) s = after_claim a s.doing s
  step (create_answered a) s = after_create a s.doing s
  step (update_answered ok) s = after_update ok s.doing s

  unfoldable pub run : List Event → Card → Card
  unfolding step
  run [] s = s
  run (e ∷ es) s = run es (step e s)
