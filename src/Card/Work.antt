-- ===== src/Card/Work.antt =====
-- src/mattermost/task-progress-card.ts: the work that is left in a card's writes, and what each step takes
-- off it.
use openclaw_mattermost_cust.Base.{
  ℕ, suc, ◌+◌, ◌-◌, ◌≤◌, ◌≡◌, ap, Bool, true, false, String, Option, none, some, List, [], ◌∷◌,
  ◌++◌, ◌∙◌, arith,
}
use openclaw_mattermost_cust.Card.Lines.{Tools, nonempty}
use openclaw_mattermost_cust.Card.Render.{Snapshot, render_card}
use openclaw_mattermost_cust.Card.State.{
  After, nothing, Plan, Write, publishes, marks_result, settles_at_last, continues, continues_plan,
  Doing, idle, claiming, creating, updating, Card, log_failure,
}
use openclaw_mattermost_cust.Card.Writes.{
  Claim, claimed, claim_threw, Created, created, create_failed, after_claim, claimed_as,
  after_create, after_update, do_after, finish_write, publish_to, publish_snapshot, stored,
}
use openclaw_mattermost_cust.Card.Calls.{continued_plan, continue_plan}
use openclaw_mattermost_cust.Card.Run.{start_write, start_next}

-- How many steps a write takes at most: a publication may claim the result's post and update it, and
-- a plan of a continuation ends in a publication.
abbrev pub steps_of : Write → ℕ
steps_of (publishes guarded after) = 3
steps_of marks_result = 1
steps_of settles_at_last = 1
steps_of (continues name) = 1
steps_of (continues_plan name plan) = 4

abbrev pub steps_left : Doing → ℕ
steps_left idle = 0
steps_left (claiming snapshot message after) = 2
steps_left (creating snapshot message after) = 1
steps_left (updating snapshot message after) = 1

unfoldable pub all_steps : List Write → ℕ
all_steps [] = 0
all_steps (w ∷ ws) = steps_of w + all_steps ws

abbrev pub work : Card → ℕ
work s = steps_left s.doing + all_steps s.writes

all_steps-publishes :
    (ws : List Write) (guarded : Bool) (after : After)
    → all_steps (ws ++ publishes guarded after ∷ []) ≡ all_steps ws + 3
unfolding all_steps
all_steps-publishes [] guarded after = omega arith
all_steps-publishes (w ∷ ws) guarded after = omega (arith, all_steps-publishes ws guarded after)

work-do_after : (after : After) (s : Card) → work (do_after after s) ≡ work s
work-do_after after s = ground arith

work-finish : (after : After) (s : Card) → work (finish_write after s) ≡ all_steps s.writes
work-finish after s = work-do_after after (record s { doing = idle }) ∙ omega arith

log_failure_writes : (s : Card) → (log_failure s).writes ≡ s.writes
log_failure_writes s = ground arith

work-publish_to :
    (has_claim : Bool) (id : Option String) (snapshot : Snapshot) (message : String) (after : After)
    (s : Card)
    → work (publish_to has_claim id snapshot message after s) ≤ all_steps s.writes + 2
work-publish_to has_claim (some id) snapshot message after s = ground (arith, work-finish after s)
work-publish_to has_claim none snapshot message after s = ground (arith, work-finish after s)

module _ (tools : Tools) (has_claim : Bool) where
  work-publish_snapshot :
      (after : After) (latest : Option Snapshot) (s : Card)
      → work (publish_snapshot tools has_claim after latest s) ≤ all_steps s.writes + 2
  unfolding publish_snapshot
  work-publish_snapshot after none s = omega (arith, work-finish after s)
  work-publish_snapshot after (some snapshot) s = ground (
    arith,
    work-finish after s,
    work-publish_to has_claim s.post_id snapshot (render_card tools snapshot) after s,
  )

  work-continued_plan :
      (name : String) (plan : Plan) (is_current : Bool) (s : Card)
      → work (continued_plan tools name plan is_current s) ≤ work s + 3
  unfolding continued_plan continue_plan
  work-continued_plan name plan is_current s =
      ground (arith, all_steps-publishes s.writes true nothing)

  work-start_write :
      (w : Write) (is_current : Bool) (s : Card)
      → s.doing ≡ idle
      → suc (work (start_write tools has_claim w is_current s)) ≤ steps_of w + all_steps s.writes
  unfolding start_write
  work-start_write (publishes guarded after) is_current s free =
      ground (arith, work-finish after s, work-publish_snapshot after s.latest s)
  work-start_write marks_result is_current s free = ground arith
  work-start_write settles_at_last is_current s free = ground arith
  work-start_write (continues name) is_current s free = ground arith
  work-start_write (continues_plan name plan) is_current s free =
      ground (arith, work-continued_plan name plan is_current s)

  pub work-start_next :
      (ws : List Write) (is_current : Bool) (s : Card)
      → s.writes ≡ ws
      → s.doing ≡ idle
      → work (start_next tools has_claim ws is_current s) ≤ all_steps ws - 1
  unfolding all_steps
  work-start_next [] is_current s here free = ground arith
  work-start_next (w ∷ ws) is_current s here free =
      omega (arith, work-start_write w is_current (record s { writes = ws }) free)

  work-claimed_as :
      (id : Option String) (snapshot : Snapshot) (message : String) (after : After) (s : Card)
      → work (claimed_as id snapshot message after s) ≤ all_steps s.writes + 1
  work-claimed_as none snapshot message after s = omega (arith, work-finish after s)
  work-claimed_as (some id) snapshot message after s = omega arith

  pub work-after_claim :
      (a : Claim) (snapshot : Snapshot) (message : String) (after : After) (s : Card)
      → work (after_claim a (claiming snapshot message after) s) ≤ all_steps s.writes + 1
  work-after_claim (claimed id) snapshot message after s =
      work-claimed_as (elim id [ none ↦ none | some i ↦ nonempty i ]) snapshot message after s
  work-after_claim claim_threw snapshot message after s =
      omega (arith, work-finish after (log_failure s), ap all_steps (log_failure_writes s))

  pub work-after_create :
      (a : Created) (snapshot : Snapshot) (message : String) (after : After) (s : Card)
      → work (after_create a (creating snapshot message after) s) ≡ all_steps s.writes
  work-after_create (created id) snapshot message after s =
      work-finish after (stored snapshot message (record s { post_id = nonempty id }))
  work-after_create (create_failed true) snapshot message after s =
      let disabled = record s { create_disabled = true } in
      work-finish after (log_failure disabled) ∙ ap all_steps (log_failure_writes disabled)
  work-after_create (create_failed false) snapshot message after s =
      work-finish after (log_failure s) ∙ ap all_steps (log_failure_writes s)

  pub work-after_update :
      (ok : Bool) (snapshot : Snapshot) (message : String) (after : After) (s : Card)
      → work (after_update ok (updating snapshot message after) s) ≡ all_steps s.writes
  work-after_update true snapshot message after s = work-finish after (stored snapshot message s)
  work-after_update false snapshot message after s =
      work-finish after (log_failure s) ∙ ap all_steps (log_failure_writes s)
