-- ===== src/Card/Frame.antt =====
-- src/mattermost/task-progress-card.ts: what a call of a card leaves as it is: the post, the requests
-- and the write that waits for the server.
use openclaw_mattermost_cust.Base.{
  ℕ, ◌≡◌, refl, Bool, Bool-cases, inl, inr, true, false, not, String, Option, none, some,
  if◌then◌else◌, List, [], ◌∷◌, is_some, or_else, ◌||◌, ◌∙◌, arith,
}
use openclaw_mattermost_cust.Base.Text.{truthy}
use openclaw_mattermost_cust.Base.Keyed.{put_at, value_at}
use openclaw_mattermost_cust.Card.Lines.{Tools, is_from}
use openclaw_mattermost_cust.Card.Render.{Terminal, Session, Sessions}
use openclaw_mattermost_cust.Card.State.{
  Request, Doing, Plan, NativeCard, Card, settle, publish_change,
}
use openclaw_mattermost_cust.Card.Sessions.{
  AgentEvent, put_session, note_session, note_lifecycle, note_agent_event, session_after,
  is_other_run, with_run,
}
use openclaw_mattermost_cust.Card.Visible.{
  VisibleSession, changed_sessions, note_all_visible, note_visible_sessions,
}
use openclaw_mattermost_cust.Card.Calls.{
  suspend_continuation, reopened, settle_before_result, finish, take_native, with_plan, update_plan,
  continue_plan, continued_plan, note_tool_start, note_tool_end,
}
use openclaw_mattermost_cust.Card.Run.{
  Call, suspends, begins_continuation, plans_continuation, starts_tool, ends_tool, starts_run,
  notes_event, notes_sessions, plans, settles_before_result, finishes, call,
}

-- The part of a card that its writes change, and the mark that a result was started.
pub record Core : Type 0 where
  pub create_attempts : ℕ
  pub create_disabled : Bool
  pub post_id : Option String
  pub published_message : Option String
  pub published_revision : ℕ
  pub doing : Doing
  pub sent : List Request
  pub posts : List (ℕ × String)

abbrev pub core : Card → Core
core s = record {
  create_attempts = s.create_attempts;
  create_disabled = s.create_disabled;
  post_id = s.post_id;
  published_message = s.published_message;
  published_revision = s.published_revision;
  doing = s.doing;
  sent = s.sent;
  posts = s.posts;
}

-- The part is kept, and a result that was started stays so.
pub record KeepsCore (s t : Card) : Type 0 where
  pub same : core t ≡ core s
  pub started : s.result_started ≡ true → t.result_started ≡ true

kept : (s : Card) → KeepsCore s s
kept s = record { same = refl; started = λ h. h }

settle-KeepsCore : (s : Card) → KeepsCore s (settle s)
settle-KeepsCore s = elim (Bool-cases s.settled) [
  | inl done ↦ rw done (record { same = refl; started = λ h. h })
  | inr open_ ↦ rw open_ (record { same = refl; started = λ h. h })
]

publish_change-KeepsCore : (s : Card) → KeepsCore s (publish_change s)
unfolding publish_change
publish_change-KeepsCore s = ground (arith, settle-KeepsCore s)

-- Each call's own frame, by the operations that it is made of.
take_native-KeepsCore : (cs : List NativeCard) (s : Card) → KeepsCore s (take_native cs s)
take_native-KeepsCore [] s = kept s
take_native-KeepsCore (c ∷ cs) s = record { same = refl; started = λ h. h }

suspend-KeepsCore : (s : Card) → KeepsCore s (suspend_continuation s)
suspend-KeepsCore s = ground arith

settle_before-KeepsCore :
    (identity : Bool) (s : Card) → KeepsCore s (settle_before_result identity s)
settle_before-KeepsCore identity s = ground arith

finish-KeepsCore :
    (outcome : Option Terminal) (delivery_failed : Bool) (current : Option Bool) (s : Card)
    → KeepsCore s (finish outcome delivery_failed current s)
unfolding finish
finish-KeepsCore outcome delivery_failed current s = ground arith

note_tool_end-KeepsCore : (id : Option String) (s : Card) → KeepsCore s (note_tool_end id s)
note_tool_end-KeepsCore id s = ground arith

note_tool_start-KeepsCore :
    (id name phase markdown : Option String) (s : Card)
    → KeepsCore s (note_tool_start id name phase markdown s)
unfolding note_tool_start
note_tool_start-KeepsCore id name phase markdown s = ground arith

pub reopened-KeepsCore :
    (run : String) (is_current : Bool) (s : Card) → KeepsCore s (reopened run is_current s)
reopened-KeepsCore run is_current s = ground arith

both : {s t u : Card} → KeepsCore s t → KeepsCore t u → KeepsCore s u
both a b = record { same = b.same ∙ a.same; started = λ h. b.started (a.started h) }

-- Either branch keeps it.
either :
    {s t u : Card} (b : Bool) → KeepsCore s t → KeepsCore s u → KeepsCore s (if b then t else u)
either true k l = k
either false k l = l

module _ (tools : Tools) (has_claim : Bool) where
  put_session-KeepsCore :
      (key : String) (w : Session) (after : Option Session) (s : Card)
      → KeepsCore s (put_session tools key w after s)
  unfolding put_session
  put_session-KeepsCore key w none s = record { same = refl; started = λ h. h }
  put_session-KeepsCore key w (some changed) s =
      let k = publish_change-KeepsCore (record s { sessions = put_at key changed s.sessions }) in
      record { same = k.same; started = k.started }

  note_session-KeepsCore :
      (e : AgentEvent) (key : String) (w : Option Session) (s : Card)
      → KeepsCore s (note_session tools e key w s)
  unfolding note_session
  note_session-KeepsCore e key none s = kept s
  note_session-KeepsCore e key (some w) s = either (is_other_run tools e w) (kept s) (
      put_session-KeepsCore key (with_run tools e w) (session_after tools e (with_run tools e w)) s)

  note_lifecycle-KeepsCore : (e : AgentEvent) (s : Card) → KeepsCore s (note_lifecycle tools e s)
  unfolding note_lifecycle
  note_lifecycle-KeepsCore e s = ground arith

  note_agent_event-KeepsCore :
      (e : AgentEvent) (s : Card) → KeepsCore s (note_agent_event tools e s)
  unfolding note_agent_event
  note_agent_event-KeepsCore e s =
      let noted = note_lifecycle tools e s in
      let k = note_lifecycle-KeepsCore e s in
      let key = or_else e.session_key "" in
      either (s.settled || not (truthy e.session_key)) k
        (both k (note_session-KeepsCore e key (value_at key s.sessions) noted))

  changed_sessions-KeepsCore :
      (r : Bool × Sessions) (s : Card) → KeepsCore s (changed_sessions tools r s)
  unfolding changed_sessions
  changed_sessions-KeepsCore (changed, ss) s =
      let next = record s { sessions = ss } in
      let k : KeepsCore s next = record { same = refl; started = λ h. h } in
      either (not changed || not (is_some s.latest)) k (both k (publish_change-KeepsCore next))

  note_visible_sessions-KeepsCore :
      (vs : List VisibleSession) (s : Card) → KeepsCore s (note_visible_sessions tools vs s)
  unfolding note_visible_sessions
  note_visible_sessions-KeepsCore vs s =
      ground (arith, changed_sessions-KeepsCore (note_all_visible tools vs false s.sessions) s)

  with_plan-KeepsCore : (plan : Plan) (s : Card) → KeepsCore s (with_plan tools plan s)
  unfolding with_plan
  with_plan-KeepsCore plan s = ground arith

  update_plan-KeepsCore : (plan : Plan) (s : Card) → KeepsCore s (update_plan tools plan s)
  unfolding update_plan
  update_plan-KeepsCore plan s =
      let is_ours = is_from "openclaw" plan.source in
      let t = if is_ours then take_native s.pending_cards s else s in
      let k : KeepsCore s t = either is_ours (take_native-KeepsCore s.pending_cards s) (kept s) in
      either s.parent_finished (kept s) (both k (with_plan-KeepsCore plan t))

  pub continued_plan-KeepsCore :
      (run : String) (plan : Plan) (is_current : Bool) (s : Card)
      → KeepsCore s (continued_plan tools run plan is_current s)
  unfolding continued_plan continue_plan
  continued_plan-KeepsCore run plan is_current s = ground arith

  pub call-KeepsCore : (c : Call) (s : Card) → KeepsCore s (call tools has_claim c s)
  unfolding call
  call-KeepsCore suspends s = suspend-KeepsCore s
  call-KeepsCore (begins_continuation run) s = record { same = refl; started = λ h. h }
  call-KeepsCore (plans_continuation run plan) s = record { same = refl; started = λ h. h }
  call-KeepsCore (starts_tool id name phase markdown) s =
      note_tool_start-KeepsCore id name phase markdown s
  call-KeepsCore (ends_tool id) s = note_tool_end-KeepsCore id s
  call-KeepsCore (starts_run run) s = record { same = refl; started = λ h. h }
  call-KeepsCore (notes_event e) s = note_agent_event-KeepsCore e s
  call-KeepsCore (notes_sessions vs) s = note_visible_sessions-KeepsCore vs s
  call-KeepsCore (plans plan) s = update_plan-KeepsCore plan s
  call-KeepsCore (settles_before_result identity) s = settle_before-KeepsCore identity s
  call-KeepsCore (finishes outcome delivery_failed current) s =
      finish-KeepsCore outcome delivery_failed current s
