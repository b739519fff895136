-- ===== src/Card/Endings.antt =====
-- src/mattermost/task-progress-card.ts: what each operation of a card leaves of its end.
use openclaw_mattermost_cust.Base.{
  ◌≡◌, ap, Bool, true, false, String, Option, none, some, ◌∙◌, arith,
}
use openclaw_mattermost_cust.Card.Lines.{Tools}
use openclaw_mattermost_cust.Card.Render.{Terminal, CardStatus, ended, Snapshot}
use openclaw_mattermost_cust.Card.State.{After, Plan, Doing, Card, publish_change, is_final}
use openclaw_mattermost_cust.Card.Sessions.{AgentEvent, note_lifecycle}
use openclaw_mattermost_cust.Card.Writes.{
  Claim, Created, after_claim, after_create, after_update, do_after, finish_write, publish_to,
  publish_snapshot,
}
use openclaw_mattermost_cust.Card.Calls.{
  suspend_continuation, reopened, settle_before_result, update_plan, continued_plan,
  note_tool_start, note_tool_end,
}
use openclaw_mattermost_cust.Card.Run.{finishes, Event, calls}

abbrev pub status_shown : Option Snapshot → Option CardStatus
status_shown none = none
status_shown (some snapshot) = some snapshot.status

-- The parent ended with the terminal status, and the latest snapshot says so.
pub record HasEnded (t : Terminal) (s : Card) : Type 0 where
  pub finished : s.parent_finished ≡ true
  pub parent : s.parent_terminal ≡ some t
  pub status : status_shown s.latest ≡ some (ended t)

abbrev pub is_finish : Event → Bool
is_finish (calls (finishes outcome delivery_failed current)) = true
is_finish _ = false

-- The parts of a card on which that rests are the same.
pub record SameEnd (s t : Card) : Type 0 where
  pub finished : t.parent_finished ≡ s.parent_finished
  pub parent : t.parent_terminal ≡ s.parent_terminal
  pub latest : t.latest ≡ s.latest

module _ (tools : Tools) (has_claim : Bool) (end : Terminal)
    (final : is_final (some end) ≡ true) where
  pub same-HasEnded : (s t : Card) → SameEnd s t → HasEnded end s → HasEnded end t
  same-HasEnded s t k h = record {
    finished = k.finished ∙ h.finished;
    parent = k.parent ∙ h.parent;
    status = ap status_shown k.latest ∙ h.status;
  }

  pub publish_change-HasEnded : (s : Card) → HasEnded end s → HasEnded end (publish_change s)
  unfolding publish_change
  publish_change-HasEnded s h = ground (arith, final)

  pub suspend-HasEnded : (s : Card) → HasEnded end s → HasEnded end (suspend_continuation s)
  suspend-HasEnded s h = ground (arith, final)

  pub reopened-HasEnded :
      (name : String) (is_current : Bool) (s : Card)
      → HasEnded end s
      → HasEnded end (reopened name is_current s)
  reopened-HasEnded name is_current s h = ground (arith, final)

  pub update_plan-HasEnded :
      (plan : Plan) (s : Card) → HasEnded end s → HasEnded end (update_plan tools plan s)
  unfolding update_plan
  update_plan-HasEnded plan s h = ground arith

  pub continued_plan-HasEnded :
      (name : String) (plan : Plan) (is_current : Bool) (s : Card)
      → HasEnded end s
      → HasEnded end (continued_plan tools name plan is_current s)
  unfolding continued_plan
  continued_plan-HasEnded name plan is_current s h = ground arith

  pub note_lifecycle-SameEnd : (e : AgentEvent) (s : Card) → SameEnd s (note_lifecycle tools e s)
  unfolding note_lifecycle
  note_lifecycle-SameEnd e s = ground arith

  pub settle_before-SameEnd :
      (identity : Bool) (s : Card) → SameEnd s (settle_before_result identity s)
  settle_before-SameEnd identity s = ground arith

  pub note_tool_end-SameEnd : (id : Option String) (s : Card) → SameEnd s (note_tool_end id s)
  note_tool_end-SameEnd id s = ground arith

  pub note_tool_start-SameEnd :
      (id name phase markdown : Option String) (s : Card)
      → SameEnd s (note_tool_start id name phase markdown s)
  unfolding note_tool_start
  note_tool_start-SameEnd id name phase markdown s = ground arith

  pub do_after-SameEnd : (after : After) (s : Card) → SameEnd s (do_after after s)
  do_after-SameEnd after s = ground arith

  pub finish_write-SameEnd : (after : After) (s : Card) → SameEnd s (finish_write after s)
  finish_write-SameEnd after s = ground arith

  pub publish_to-SameEnd :
      (id : Option String) (snapshot : Snapshot) (message : String) (after : After) (s : Card)
      → SameEnd s (publish_to has_claim id snapshot message after s)
  publish_to-SameEnd id snapshot message after s = ground arith

  pub publish_snapshot-SameEnd :
      (after : After) (latest : Option Snapshot) (s : Card)
      → SameEnd s (publish_snapshot tools has_claim after latest s)
  unfolding publish_snapshot
  publish_snapshot-SameEnd after latest s = ground arith

  pub after_claim-SameEnd :
      (a : Claim) (doing : Doing) (s : Card) → SameEnd s (after_claim a doing s)
  after_claim-SameEnd a doing s = ground arith

  pub after_create-SameEnd :
      (a : Created) (doing : Doing) (s : Card) → SameEnd s (after_create a doing s)
  after_create-SameEnd a doing s = ground arith

  pub after_update-SameEnd :
      (ok : Bool) (doing : Doing) (s : Card) → SameEnd s (after_update ok doing s)
  after_update-SameEnd ok doing s = ground arith
