-- ===== src/Card/Calls.antt =====
-- src/mattermost/task-progress-card.ts: the other operations of a card, each up to where it awaits the
-- writes.
use openclaw_mattermost_cust.Base.{
  Bool, true, false, not, ◌&&◌, ◌||◌, String, ◌==◌, Option, none, some, List, [], ◌∷◌, ◌++◌, any,
  is_some, or_else, if◌then◌else◌,
}
use openclaw_mattermost_cust.Base.Text.{truthy}
use openclaw_mattermost_cust.Card.Lines.{
  Tools, Step, normalize_title, normalize_explanation, normalize_plan_explanation, normalize_steps,
  is_from,
}
use openclaw_mattermost_cust.Card.Native.{render_native}
use openclaw_mattermost_cust.Card.Render.{
  Terminal, completed, incomplete, failed, cancelled, in_progress, Snapshot,
}
use openclaw_mattermost_cust.Card.State.{
  Lifecycle, yielded, terminal, NativeCard, nothing, settles_if_idle, Plan, publishes, marks_result,
  settles_at_last, Card, is_final, resolve_terminal, push_write, write_snapshot, change_status,
  is_open_step, is_yielded, may_reopen_snapshot,
}
use openclaw_mattermost_cust.Card.Sessions.{or_option}

abbrev pub suspend_continuation : Card → Card
suspend_continuation s = if is_final s.parent_terminal then s else record s {
  active_run = none;
  parent_finished = true;
  lifecycle = some yielded;
  parent_terminal = none;
}

-- `beginContinuation`, after the writes.
abbrev pub may_reopen : Card → Bool
may_reopen s =
    is_some s.post_id
    && s.parent_finished
    && not (is_final s.parent_terminal)
    && may_reopen_snapshot s.lifecycle s.latest

abbrev pub reopened : String → Bool → Card → Card
reopened run is_current s =
    if is_current && may_reopen s
    then record s {
      active_run = some run;
      lifecycle = none;
      parent_finished = false;
      parent_terminal = none;
      settled = false;
    }
    else s

abbrev pub note_run_start : String → Card → Card
note_run_start run s = record s { active_run = some run; lifecycle = none }

unfoldable pub note_tool_start :
    Option String → Option String → Option String → Option String → Card → Card
unfolding render_native
note_tool_start id name phase markdown s =
    if not (is_from "start" phase) || not (is_from "progress_card" name) || not (truthy id)
    then s
    else record s {
      pending_cards =
          s.pending_cards
          ++ (record { tool_call_id = or_else id ""; markdown = render_native markdown }) ∷ [];
    }

abbrev pub remove_card : String → List NativeCard → List NativeCard
remove_card id [] = []
remove_card id (c ∷ cs) = if c.tool_call_id == id then cs else c ∷ remove_card id cs

abbrev pub note_tool_end : Option String → Card → Card
note_tool_end id s =
    if truthy id
    then record s { pending_cards = remove_card (or_else id "") s.pending_cards }
    else s

-- The first pending native card, which a plan from OpenClaw takes.
abbrev pub take_native : List NativeCard → Card → Card
take_native [] s = s
take_native (c ∷ cs) s = record s { pending_cards = cs; last_markdown = c.markdown }

abbrev pub has_content : Option String → Option String → List Step → Bool
has_content title explanation [] = truthy title || truthy explanation
has_content title explanation (t ∷ ts) = true

abbrev pub settle_before_result : Bool → Card → Card
settle_before_result identity s = if identity && s.result_started then s else elim s.latest [
  | none ↦ if identity then record s { result_started = true } else s
  | some snapshot ↦ push_write marks_result s
]

-- The mark, when the writes before it are done.
abbrev pub mark_result : Card → Card
mark_result s = record s {
  result_started = true;
  create_disabled = s.create_disabled || not (is_some s.post_id);
}

abbrev pub is_outcome : Terminal → Option Terminal → Bool
is_outcome cancelled (some cancelled) = true
is_outcome failed (some failed) = true
is_outcome completed (some completed) = true
is_outcome _ _ = false

abbrev pub is_ended : Terminal → Option Lifecycle → Bool
is_ended t (some (terminal u)) = is_outcome t (some u)
is_ended t _ = false

-- The terminal status of the parent; an outcome is completed, failed or cancelled.
abbrev pub parent_result : Option Terminal → Bool → Option Lifecycle → List Step → Option Terminal
parent_result outcome delivery_failed lifecycle steps =
    if is_ended cancelled lifecycle || is_outcome cancelled outcome
    then some cancelled
    else if delivery_failed || is_outcome failed outcome || is_ended failed lifecycle
    then some failed
    else if is_yielded lifecycle
    then none
    else if is_outcome completed outcome || is_ended completed lifecycle
    then (if any (λ t. is_open_step t) steps then some incomplete else some completed)
    else none

abbrev pub finish_snapshot : Option Snapshot → Option Terminal → Bool → Bool → Card → Card
finish_snapshot none outcome delivery_failed guarded s = push_write settles_at_last s
finish_snapshot (some snapshot) outcome delivery_failed guarded s =
    let parent = parent_result outcome delivery_failed s.lifecycle snapshot.steps in
    change_status (resolve_terminal parent s.sessions) (publishes guarded settles_if_idle) snapshot
      (record s { parent_terminal = parent })

-- `current` is what `isCurrent` says at the call, if there is one.
unfoldable pub finish : Option Terminal → Bool → Option Bool → Card → Card
finish outcome delivery_failed current s =
    if or_else current true
    then finish_snapshot s.latest outcome delivery_failed (is_some current)
        (record s { parent_finished = true })
    else s

module _ (tools : Tools) where
  abbrev pub planned : Option String → Option String → List Step → Bool → Card → Card
  planned title explanation steps guarded s =
      write_snapshot
        (record {
          revision = 0;
          title = title;
          explanation = explanation;
          steps = steps;
          work_sessions = s.sessions;
          status = in_progress;
        })
        (publishes guarded nothing) s

  unfoldable pub with_plan : Plan → Card → Card
  unfolding normalize_title normalize_explanation normalize_plan_explanation normalize_steps
  with_plan plan s =
      let title = normalize_title plan.title plan.source in
      let explanation =
        or_option
          (if is_from "openclaw" plan.source then normalize_explanation s.last_markdown else none)
          (normalize_plan_explanation plan.explanation plan.source) in
      let steps = normalize_steps tools plan.steps in
      if has_content title explanation steps then planned title explanation steps false s else s

  unfoldable pub update_plan : Plan → Card → Card
  unfolding with_plan
  update_plan plan s =
      if s.parent_finished
      then s
      else with_plan plan
          (if is_from "openclaw" plan.source then take_native s.pending_cards s else s)

  -- `updateContinuationPlan`, after the writes.
  abbrev pub may_plan : String → Card → Bool
  may_plan run s =
      not s.parent_finished && is_from run s.active_run && is_some s.post_id && is_some s.latest

  unfoldable pub continue_plan : String → Plan → Card → Card
  unfolding normalize_title normalize_explanation normalize_plan_explanation normalize_steps
      render_native
  continue_plan run plan s =
      let title = normalize_title plan.title plan.source in
      let markdown = render_native plan.markdown in
      let explanation =
        or_option (normalize_explanation markdown)
          (normalize_plan_explanation plan.explanation plan.source) in
      let steps = normalize_steps tools plan.steps in
      if has_content title explanation steps
      then planned title explanation steps true (record s { last_markdown = markdown })
      else s

  unfoldable pub continued_plan : String → Plan → Bool → Card → Card
  unfolding continue_plan
  continued_plan run plan is_current s =
      if is_current && may_plan run s then continue_plan run plan s else s
