-- ===== src/Card/Ending.antt =====
-- src/mattermost/task-progress-card.ts: a card that ended as failed or cancelled stays so.
use openclaw_mattermost_cust.Base.{
  ◌≡◌, Bool, true, false, not, String, Option, none, some, List, [], ◌∷◌, is_some, any, or_else,
  if◌then◌else◌, ◌||◌, ◌&&◌, arith,
}
use openclaw_mattermost_cust.Base.Text.{truthy}
use openclaw_mattermost_cust.Base.Keyed.{put_at, value_at}
use openclaw_mattermost_cust.Card.Lines.{Tools}
use openclaw_mattermost_cust.Card.Render.{Terminal, Session, Sessions}
use openclaw_mattermost_cust.Card.State.{
  settles, Write, publishes, marks_result, settles_at_last, continues, continues_plan, Doing, idle,
  claiming, creating, updating, Card, settle, is_final,
}
use openclaw_mattermost_cust.Card.Sessions.{
  AgentEvent, put_session, note_session, note_lifecycle, note_agent_event, session_after,
  is_other_run, with_run,
}
use openclaw_mattermost_cust.Card.Visible.{
  VisibleSession, changed_sessions, note_all_visible, note_visible_sessions,
}
use openclaw_mattermost_cust.Card.Writes.{
  after_claim, after_create, after_update, finish_write, publish_snapshot,
}
use openclaw_mattermost_cust.Card.Calls.{settle_before_result, note_tool_start, note_tool_end}
use openclaw_mattermost_cust.Card.Run.{
  Call, suspends, begins_continuation, plans_continuation, starts_tool, ends_tool, starts_run,
  notes_event, notes_sessions, plans, settles_before_result, finishes, call, Event, calls, starts,
  claim_answered, create_answered, update_answered, start_write, start_next, start_if_idle, step,
  run,
}
use openclaw_mattermost_cust.Card.Endings.{
  HasEnded, is_finish, same-HasEnded, publish_change-HasEnded, suspend-HasEnded, reopened-HasEnded,
  update_plan-HasEnded, continued_plan-HasEnded, note_lifecycle-SameEnd, settle_before-SameEnd,
  note_tool_end-SameEnd, note_tool_start-SameEnd, do_after-SameEnd, finish_write-SameEnd,
  publish_snapshot-SameEnd, after_claim-SameEnd, after_create-SameEnd, after_update-SameEnd,
}

module _ (tools : Tools) (has_claim : Bool) (end : Terminal)
    (final : is_final (some end) ≡ true) where
  -- Either branch keeps it.
  either :
      {t u : Card} (b : Bool) → HasEnded end t → HasEnded end u → HasEnded end (if b then t else u)
  either true k l = k
  either false k l = l

  put_session-HasEnded :
      (key : String) (w : Session) (after : Option Session) (s : Card)
      → HasEnded end s
      → HasEnded end (put_session tools key w after s)
  unfolding put_session
  put_session-HasEnded key w none s h = record {
    finished = h.finished;
    parent = h.parent;
    status = h.status;
  }
  put_session-HasEnded key w (some changed) s h =
      publish_change-HasEnded tools has_claim end final
        (record s { sessions = put_at key changed s.sessions })
        (record { finished = h.finished; parent = h.parent; status = h.status })

  note_session-HasEnded :
      (e : AgentEvent) (key : String) (w : Option Session) (s : Card)
      → HasEnded end s
      → HasEnded end (note_session tools e key w s)
  unfolding note_session
  note_session-HasEnded e key none s h = h
  note_session-HasEnded e key (some w) s h =
      let own = with_run tools e w in
      either (is_other_run tools e w) h
        (put_session-HasEnded key own (session_after tools e own) s h)

  note_agent_event-HasEnded :
      (e : AgentEvent) (s : Card) → HasEnded end s → HasEnded end (note_agent_event tools e s)
  unfolding note_agent_event
  note_agent_event-HasEnded e s h =
      let noted = note_lifecycle tools e s in
      let k =
        same-HasEnded tools has_claim end final s noted
          (note_lifecycle-SameEnd tools has_claim end final e s) h in
      let key = or_else e.session_key "" in
      either (s.settled || not (truthy e.session_key)) k
        (note_session-HasEnded e key (value_at key s.sessions) noted k)

  changed_sessions-HasEnded :
      (r : Bool × Sessions) (s : Card) → HasEnded end s → HasEnded end (changed_sessions tools r s)
  unfolding changed_sessions
  changed_sessions-HasEnded (changed, ss) s h =
      let next = record s { sessions = ss } in
      let k : HasEnded end next = record {
        finished = h.finished;
        parent = h.parent;
        status = h.status;
      } in
      either (not changed || not (is_some s.latest)) k
        (publish_change-HasEnded tools has_claim end final next k)

  note_visible_sessions-HasEnded :
      (vs : List VisibleSession) (s : Card)
      → HasEnded end s
      → HasEnded end (note_visible_sessions tools vs s)
  unfolding note_visible_sessions
  note_visible_sessions-HasEnded vs s h =
      either s.settled h
        (changed_sessions-HasEnded (note_all_visible tools vs false s.sessions) s h)

  call-HasEnded :
      (c : Call) (s : Card)
      → is_finish (calls c) ≡ false
      → HasEnded end s
      → HasEnded end (call tools has_claim c s)
  unfolding call
  call-HasEnded suspends s other h = suspend-HasEnded tools has_claim end final s h
  call-HasEnded (begins_continuation name) s other h = record {
    finished = h.finished;
    parent = h.parent;
    status = h.status;
  }
  call-HasEnded (plans_continuation name plan) s other h = record {
    finished = h.finished;
    parent = h.parent;
    status = h.status;
  }
  call-HasEnded (starts_tool id name phase markdown) s other h =
      same-HasEnded tools has_claim end final s (note_tool_start id name phase markdown s)
        (note_tool_start-SameEnd tools has_claim end final id name phase markdown s) h
  call-HasEnded (ends_tool id) s other h =
      same-HasEnded tools has_claim end final s (note_tool_end id s)
        (note_tool_end-SameEnd tools has_claim end final id s) h
  call-HasEnded (starts_run name) s other h = record {
    finished = h.finished;
    parent = h.parent;
    status = h.status;
  }
  call-HasEnded (notes_event e) s other h = note_agent_event-HasEnded e s h
  call-HasEnded (notes_sessions vs) s other h = note_visible_sessions-HasEnded vs s h
  call-HasEnded (plans plan) s other h = update_plan-HasEnded tools has_claim end final plan s h
  call-HasEnded (settles_before_result identity) s other h =
      same-HasEnded tools has_claim end final s (settle_before_result identity s)
        (settle_before-SameEnd tools has_claim end final identity s) h
  call-HasEnded (finishes outcome delivery_failed current) s other h = absurd (cc)

  start_write-HasEnded :
      (w : Write) (is_current : Bool) (s : Card)
      → HasEnded end s
      → HasEnded end (start_write tools has_claim w is_current s)
  unfolding start_write
  start_write-HasEnded (publishes guarded after) is_current s h =
      either (guarded && not is_current)
        (same-HasEnded tools has_claim end final s (finish_write after s)
          (finish_write-SameEnd tools has_claim end final after s) h)
        (same-HasEnded tools has_claim end final s
          (publish_snapshot tools has_claim after s.latest s)
          (publish_snapshot-SameEnd tools has_claim end final after s.latest s) h)
  start_write-HasEnded marks_result is_current s h = record {
    finished = h.finished;
    parent = h.parent;
    status = h.status;
  }
  start_write-HasEnded settles_at_last is_current s h =
      same-HasEnded tools has_claim end final s (settle s)
        (do_after-SameEnd tools has_claim end final settles s) h
  start_write-HasEnded (continues name) is_current s h =
      reopened-HasEnded tools has_claim end final name is_current s h
  start_write-HasEnded (continues_plan name plan) is_current s h =
      continued_plan-HasEnded tools has_claim end final name plan is_current s h

  start_if_idle-HasEnded :
      (doing : Doing) (is_current : Bool) (s : Card)
      → HasEnded end s
      → HasEnded end (start_if_idle tools has_claim doing is_current s)
  start_if_idle-HasEnded idle is_current s h = next s.writes
    where
      next : (ws : List Write) → HasEnded end (start_next tools has_claim ws is_current s)
      next [] = h
      next (w ∷ ws) =
          start_write-HasEnded w is_current (record s { writes = ws })
            (record { finished = h.finished; parent = h.parent; status = h.status })
  start_if_idle-HasEnded (claiming snapshot message after) is_current s h = h
  start_if_idle-HasEnded (creating snapshot message after) is_current s h = h
  start_if_idle-HasEnded (updating snapshot message after) is_current s h = h

  step-HasEnded :
      (e : Event) (s : Card)
      → is_finish e ≡ false
      → HasEnded end s
      → HasEnded end (step tools has_claim e s)
  unfolding step
  step-HasEnded (calls c) s other h = call-HasEnded c s other h
  step-HasEnded (starts is_current) s other h = start_if_idle-HasEnded s.doing is_current s h
  step-HasEnded (claim_answered a) s other h =
      same-HasEnded tools has_claim end final s (after_claim a s.doing s)
        (after_claim-SameEnd tools has_claim end final a s.doing s) h
  step-HasEnded (create_answered a) s other h =
      same-HasEnded tools has_claim end final s (after_create a s.doing s)
        (after_create-SameEnd tools has_claim end final a s.doing s) h
  step-HasEnded (update_answered ok) s other h =
      same-HasEnded tools has_claim end final s (after_update ok s.doing s)
        (after_update-SameEnd tools has_claim end final ok s.doing s) h

  -- A card whose parent failed or was cancelled, and whose latest snapshot says so, keeps that status
  -- in every history in which `finish` is not called again: no continuation reopens it, and no
  -- event of a subtask, plan or answer changes it.
  pub run-HasEnded :
      (es : List Event) (s : Card)
      → any is_finish es ≡ false
      → HasEnded end s
      → HasEnded end (run tools has_claim es s)
  unfolding run
  run-HasEnded [] s other h = h
  run-HasEnded (e ∷ es) s other h =
      run-HasEnded es (step tools has_claim e s) (ground arith) (step-HasEnded e s (ground arith) h)
