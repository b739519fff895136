-- ===== src/Card/Revisions.antt =====
-- src/mattermost/task-progress-card.ts: the revisions that a card's post shows, one after another.
use openclaw_mattermost_cust.Base.{◌≤◌, ◌≡◌, refl, Bool, List, [], ◌∷◌, arith}
use openclaw_mattermost_cust.Card.Lines.{Tools}
use openclaw_mattermost_cust.Card.State.{
  Write, Doing, idle, claiming, creating, updating, Card, new_card,
}
use openclaw_mattermost_cust.Card.Writes.{after_claim}
use openclaw_mattermost_cust.Card.Frame.{call-KeepsCore}
use openclaw_mattermost_cust.Card.Board.{board, Advances, IsSound, IsStill}
use openclaw_mattermost_cust.Card.Soundness.{KeepsCore-IsStill, start_write-IsStill}
use openclaw_mattermost_cust.Card.Run.{
  Event, calls, starts, claim_answered, create_answered, update_answered, call, start_next,
  start_if_idle, step, run,
}
use openclaw_mattermost_cust.Card.Creation.{creations}
use openclaw_mattermost_cust.Card.Answers.{
  IsStep, still-IsStep, same-IsStill, after_claim-IsStill, after_create-IsStep, after_update-IsStep,
}

module _ (tools : Tools) (has_claim : Bool) where
  start_if_idle-IsStill :
      (doing : Doing) (is_current : Bool) (s : Card)
      → s.doing ≡ doing
      → IsSound tools s
      → IsStill tools s (start_if_idle tools has_claim doing is_current s)
  start_if_idle-IsStill idle is_current s free v = next s.writes
    where
      next : (ws : List Write) → IsStill tools s (start_next tools has_claim ws is_current s)
      next [] = same-IsStill tools has_claim s s refl v
      next (w ∷ ws) =
          let k =
            start_write-IsStill tools has_claim w is_current (record s { writes = ws }) free
              (record {
                counted = v.counted;
                within = v.within;
                shown = v.shown;
                in_flight = v.in_flight;
              }) in
          record { sound = k.sound; still = k.still }
  start_if_idle-IsStill (claiming snapshot message after) is_current s at v =
      same-IsStill tools has_claim s s refl v
  start_if_idle-IsStill (creating snapshot message after) is_current s at v =
      same-IsStill tools has_claim s s refl v
  start_if_idle-IsStill (updating snapshot message after) is_current s at v =
      same-IsStill tools has_claim s s refl v

  step-IsStep :
      (e : Event) (s : Card) → IsSound tools s → IsStep tools has_claim s (step tools has_claim e s)
  unfolding step
  step-IsStep (calls c) s v =
      still-IsStep tools has_claim s (call tools has_claim c s) (
        KeepsCore-IsStill tools s (call tools has_claim c s) (call-KeepsCore tools has_claim c s) v)
  step-IsStep (starts is_current) s v =
      still-IsStep tools has_claim s (start_if_idle tools has_claim s.doing is_current s)
        (start_if_idle-IsStill s.doing is_current s refl v)
  step-IsStep (claim_answered a) s v =
      still-IsStep tools has_claim s (after_claim a s.doing s)
        (after_claim-IsStill tools has_claim a s.doing s refl v)
  step-IsStep (create_answered a) s v = after_create-IsStep tools has_claim a s.doing s refl v
  step-IsStep (update_answered ok) s v = after_update-IsStep tools has_claim ok s.doing s refl v

  run-IsSound :
      (es : List Event) (s : Card) → IsSound tools s → IsSound tools (run tools has_claim es s)
  unfolding run
  run-IsSound [] s v = v
  run-IsSound (e ∷ es) s v = run-IsSound es (step tools has_claim e s) (step-IsStep e s v).sound

  new-IsSound : IsSound tools new_card
  unfolding creations
  new-IsSound = record { counted = refl; within = omega arith; shown = omega arith; in_flight = tt }

  -- A card asks the server for a post twice at most, in every history: after two attempts that
  -- failed no further one is made.
  pub run-creations_bound : (es : List Event) → creations (run tools has_claim es new_card).sent ≤ 2
  run-creations_bound es =
      let v = run-IsSound es new_card new-IsSound in omega (arith, v.counted, v.within)

  -- A card refines the abstract one: in every history from a new card, each call, start of a write
  -- and answer leaves what the post shows as it is, or replaces it by the text of a snapshot with a
  -- greater revision. No answer, however late, brings an older revision back.
  pub step-Advances :
      (es : List Event) (e : Event)
      → Advances tools
          (board (run tools has_claim es new_card).posts)
          (board (step tools has_claim e (run tools has_claim es new_card)).posts)
  step-Advances es e =
      (step-IsStep e (run tools has_claim es new_card) (run-IsSound es new_card new-IsSound)).moves
