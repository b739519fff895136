-- ===== src/Card/Promises.antt =====
-- src/mattermost/task-progress-card.ts: what each step leaves of a settlement that is due.
use openclaw_mattermost_cust.Base.{
  ◌≡◌, ap, subst, Bool, true, false, ◌||◌, String, Option, none, some, List, [], ◌∷◌, ◌++◌, any,
  arith,
}
use openclaw_mattermost_cust.Card.Lines.{Tools, nonempty}
use openclaw_mattermost_cust.Card.Render.{Snapshot, render_card}
use openclaw_mattermost_cust.Card.State.{
  After, nothing, settles, settles_if_idle, Plan, Write, publishes, marks_result, settles_at_last,
  continues, continues_plan, Doing, idle, claiming, creating, updating, Card, has_active,
}
use openclaw_mattermost_cust.Card.Writes.{
  Claim, claimed, claim_threw, Created, after_claim, claimed_as, after_create, after_update,
  finish_write, publish_to, publish_snapshot,
}
use openclaw_mattermost_cust.Card.Calls.{continued_plan, continue_plan}
use openclaw_mattermost_cust.Card.Run.{start_write, start_next}

abbrev pub is_settling : After → Bool
is_settling nothing = false
is_settling settles = true
is_settling settles_if_idle = true

abbrev pub is_settling_write : Write → Bool
is_settling_write (publishes guarded after) = is_settling after
is_settling_write marks_result = false
is_settling_write settles_at_last = true
is_settling_write (continues name) = false
is_settling_write (continues_plan name plan) = false

abbrev pub is_settling_doing : Doing → Bool
is_settling_doing idle = false
is_settling_doing (claiming snapshot message after) = is_settling after
is_settling_doing (creating snapshot message after) = is_settling after
is_settling_doing (updating snapshot message after) = is_settling after

abbrev pub is_continuing : Write → Bool
is_continuing (continues name) = true
is_continuing _ = false

-- The card has settled, or a write that settles it waits or is in the chain, while no subtask is active
-- and no continuation is to begin.
pub record WillSettle (s : Card) : Type 0 where
  pub due : s.settled || is_settling_doing s.doing || any is_settling_write s.writes ≡ true
  pub quiet : has_active s.sessions ≡ false
  pub final : any is_continuing s.writes ≡ false

pub any_append_one :
    (p : Write → Bool) (ws : List Write) (w : Write) → any p (ws ++ w ∷ []) ≡ any p ws || p w
any_append_one p [] w = ground arith
any_append_one p (v ∷ ws) w = ground (arith, any_append_one p ws w)

-- The end of a write that the card, or the write, or a later one settles.
finish_write-WillSettle :
    (after : After) (s : Card)
    → s.settled || is_settling after || any is_settling_write s.writes ≡ true
    → has_active s.sessions ≡ false
    → any is_continuing s.writes ≡ false
    → WillSettle (finish_write after s)
finish_write-WillSettle after s due quiet final = ground arith

publish_to-WillSettle :
    (has_claim : Bool) (id : Option String) (snapshot : Snapshot) (message : String) (after : After)
    (s : Card)
    → s.settled || is_settling after || any is_settling_write s.writes ≡ true
    → has_active s.sessions ≡ false
    → any is_continuing s.writes ≡ false
    → WillSettle (publish_to has_claim id snapshot message after s)
publish_to-WillSettle has_claim id snapshot message after s due quiet final = ground arith

module _ (tools : Tools) (has_claim : Bool) where
  publish_snapshot-WillSettle :
      (after : After) (latest : Option Snapshot) (s : Card)
      → s.settled || is_settling after || any is_settling_write s.writes ≡ true
      → has_active s.sessions ≡ false
      → any is_continuing s.writes ≡ false
      → WillSettle (publish_snapshot tools has_claim after latest s)
  unfolding publish_snapshot
  publish_snapshot-WillSettle after none s due quiet final =
      finish_write-WillSettle after s due quiet final
  publish_snapshot-WillSettle after (some snapshot) s due quiet final = ground (
    arith,
    finish_write-WillSettle after s due quiet final,
    publish_to-WillSettle has_claim s.post_id snapshot (render_card tools snapshot) after s due
        quiet final,
  )

  planned-WillSettle :
      (name : String) (plan : Plan) (is_current : Bool) (s : Card)
      → s.settled || any is_settling_write s.writes ≡ true
      → has_active s.sessions ≡ false
      → any is_continuing s.writes ≡ false
      → is_settling_doing s.doing ≡ false
      → WillSettle (continued_plan tools name plan is_current s)
  unfolding continued_plan continue_plan
  planned-WillSettle name plan is_current s due quiet final free = ground (
    arith,
    any_append_one is_settling_write s.writes (publishes true nothing),
    any_append_one is_continuing s.writes (publishes true nothing),
  )

  -- The start of the first write of the chain.
  start_write-WillSettle :
      (w : Write) (is_current : Bool) (s : Card)
      → s.doing ≡ idle
      → s.settled || is_settling_write w || any is_settling_write s.writes ≡ true
      → has_active s.sessions ≡ false
      → is_continuing w || any is_continuing s.writes ≡ false
      → WillSettle (start_write tools has_claim w is_current s)
  unfolding start_write
  start_write-WillSettle (publishes guarded after) is_current s free due quiet final = ground (
    arith,
    finish_write-WillSettle after s due quiet final,
    publish_snapshot-WillSettle after s.latest s due quiet final,
  )
  start_write-WillSettle marks_result is_current s free due quiet final = ground arith
  start_write-WillSettle settles_at_last is_current s free due quiet final = ground arith
  start_write-WillSettle (continues name) is_current s free due quiet final = absurd (cc)
  start_write-WillSettle (continues_plan name plan) is_current s free due quiet final =
      planned-WillSettle name plan is_current s (ground arith) quiet final
        (ap (λ d. is_settling_doing d) free)

  pub start_next-WillSettle :
      (ws : List Write) (is_current : Bool) (s : Card)
      → s.writes ≡ ws
      → s.doing ≡ idle
      → WillSettle s
      → WillSettle (start_next tools has_claim ws is_current s)
  start_next-WillSettle [] is_current s here free v = v
  start_next-WillSettle (w ∷ ws) is_current s here free v =
      start_write-WillSettle w is_current (record s { writes = ws }) free (next_due v) v.quiet
        (subst (λ l. any is_continuing l ≡ false) here v.final)
    where
      next_due : WillSettle s → s.settled || is_settling_write w || any is_settling_write ws ≡ true
      next_due v =
          let idle_due =
            subst (λ d. s.settled || is_settling_doing d || any is_settling_write s.writes ≡ true)
              free v.due in
          let chain_due =
            subst (λ l. s.settled || is_settling_doing idle || any is_settling_write l ≡ true) here
              idle_due in
          ground arith

  pub after_claim-WillSettle :
      (a : Claim) (snapshot : Snapshot) (message : String) (after : After) (s : Card)
      → s.settled || is_settling after || any is_settling_write s.writes ≡ true
      → has_active s.sessions ≡ false
      → any is_continuing s.writes ≡ false
      → WillSettle (after_claim a (claiming snapshot message after) s)
  after_claim-WillSettle (claimed id) snapshot message after s due quiet final =
      by_id (elim id [ none ↦ none | some i ↦ nonempty i ])
    where
      by_id : (i : Option String) → WillSettle (claimed_as i snapshot message after s)
      by_id i = ground arith
  after_claim-WillSettle claim_threw snapshot message after s due quiet final = ground arith

  pub after_create-WillSettle :
      (a : Created) (snapshot : Snapshot) (message : String) (after : After) (s : Card)
      → s.settled || is_settling after || any is_settling_write s.writes ≡ true
      → has_active s.sessions ≡ false
      → any is_continuing s.writes ≡ false
      → WillSettle (after_create a (creating snapshot message after) s)
  after_create-WillSettle a snapshot message after s due quiet final = ground arith

  pub after_update-WillSettle :
      (ok : Bool) (snapshot : Snapshot) (message : String) (after : After) (s : Card)
      → s.settled || is_settling after || any is_settling_write s.writes ≡ true
      → has_active s.sessions ≡ false
      → any is_continuing s.writes ≡ false
      → WillSettle (after_update ok (updating snapshot message after) s)
  after_update-WillSettle ok snapshot message after s due quiet final = ground arith
