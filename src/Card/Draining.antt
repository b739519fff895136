-- ===== src/Card/Draining.antt =====
-- src/mattermost/task-progress-card.ts: the chain of writes of a card is worked off.
use openclaw_mattermost_cust.Base.{◌-◌, ◌≤◌, ◌≡◌, refl, ap, Bool, List, [], ◌∷◌, length, arith}
use openclaw_mattermost_cust.Card.Lines.{Tools}
use openclaw_mattermost_cust.Card.State.{
  Write, publishes, marks_result, settles_at_last, continues, continues_plan, Doing, idle, claiming,
  creating, updating, Card,
}
use openclaw_mattermost_cust.Card.Writes.{Claim, Created, after_claim, after_create, after_update}
use openclaw_mattermost_cust.Card.Run.{
  Event, starts, claim_answered, create_answered, update_answered, start_if_idle, step,
}
use openclaw_mattermost_cust.Card.Work.{
  steps_left, all_steps, work, work-start_next, work-after_claim, work-after_create,
  work-after_update,
}

-- What the host and the server say when they are asked next.
pub record Answer : Type 0 where
  pub is_current : Bool
  pub claim : Claim
  pub creation : Created
  pub update : Bool

-- The next thing that happens to the writes: the answer to the one that waits, or the next start.
abbrev pub next_event : Answer → Doing → Event
next_event a idle = starts a.is_current
next_event a (claiming snapshot message after) = claim_answered a.claim
next_event a (creating snapshot message after) = create_answered a.creation
next_event a (updating snapshot message after) = update_answered a.update

module _ (tools : Tools) (has_claim : Bool) where
  abbrev pub serve : Answer → Card → Card
  unfolding step
  serve a s = step tools has_claim (next_event a s.doing) s

  unfoldable pub serve_all : List Answer → Card → Card
  unfolding step
  serve_all [] s = s
  serve_all (a ∷ answers) s = serve_all answers (serve a s)

  work-serve :
      (a : Answer) (doing : Doing) (s : Card)
      → s.doing ≡ doing
      → work (step tools has_claim (next_event a doing) s) ≤ work s - 1
  unfolding step
  work-serve a idle s at =
      let called = ap (λ d. work (start_if_idle tools has_claim d a.is_current s)) at in
      let left = ap steps_left at in
      omega (arith, called, left, work-start_next tools has_claim s.writes a.is_current s refl at)
  work-serve a (claiming snapshot message after) s at =
      let called = ap (λ d. work (after_claim a.claim d s)) at in
      let left = ap steps_left at in
      omega (arith, called, left, work-after_claim tools has_claim a.claim snapshot message after s)
  work-serve a (creating snapshot message after) s at =
      let called = ap (λ d. work (after_create a.creation d s)) at in
      let left = ap steps_left at in
      omega
        (arith, called, left, work-after_create tools has_claim a.creation snapshot message after s)
  work-serve a (updating snapshot message after) s at =
      let called = ap (λ d. work (after_update a.update d s)) at in
      let left = ap steps_left at in
      omega
        (arith, called, left, work-after_update tools has_claim a.update snapshot message after s)

  work-serve_all :
      (answers : List Answer) (s : Card) → work (serve_all answers s) ≤ work s - length answers
  unfolding serve_all
  work-serve_all [] s = omega arith
  work-serve_all (a ∷ answers) s =
      omega (arith, work-serve_all answers (serve a s), work-serve a s.doing s refl)

  none_left : (ws : List Write) → all_steps ws ≡ 0 → ws ≡ []
  unfolding all_steps
  none_left [] h = refl
  none_left (publishes guarded after ∷ ws) h = absurd (omega arith)
  none_left (marks_result ∷ ws) h = absurd (omega arith)
  none_left (settles_at_last ∷ ws) h = absurd (omega arith)
  none_left (continues name ∷ ws) h = absurd (omega arith)
  none_left (continues_plan name plan ∷ ws) h = absurd (omega arith)

  idle_then : (d : Doing) → steps_left d ≡ 0 → d ≡ idle
  idle_then d h = ground arith

  -- Whatever the host and the server answer, a card on which no more calls are made comes to rest:
  -- after as many answers as its writes can take, no write waits and none is left in the chain.
  pub serve_all-rests :
      (answers : List Answer) (s : Card)
      → work s ≤ length answers
      → ((serve_all answers s).doing ≡ idle) × ((serve_all answers s).writes ≡ [])
  serve_all-rests answers s enough =
      let left = work-serve_all answers s in
      let t = serve_all answers s in
      (
        idle_then t.doing (omega (arith, left, enough)),
        none_left t.writes (omega (arith, left, enough)),
      )
