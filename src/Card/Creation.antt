-- ===== src/Card/Creation.antt =====
-- src/mattermost/task-progress-card.ts: how often a card asks the server for a post.
use openclaw_mattermost_cust.Base.{
  ℕ, suc, ◌≡◌, refl, ap, Bool, true, false, not, ◌&&◌, ◌||◌, String, Option, none, some, List, [],
  ◌∷◌, ◌++◌, is_some, ◌∙◌, arith,
}
use openclaw_mattermost_cust.Card.Lines.{Tools, nonempty}
use openclaw_mattermost_cust.Card.Render.{Snapshot, render_card}
use openclaw_mattermost_cust.Card.State.{
  Request, creates, updates, claims, After, Write, publishes, marks_result, settles_at_last,
  continues, continues_plan, Doing, idle, claiming, creating, updating, Card,
}
use openclaw_mattermost_cust.Card.Writes.{
  Claim, claimed, claim_threw, Created, after_claim, claimed_as, after_create, after_update,
  do_after, publish_to, publish_snapshot,
}
use openclaw_mattermost_cust.Card.Frame.{KeepsCore, call-KeepsCore, continued_plan-KeepsCore}
use openclaw_mattermost_cust.Card.Calls.{continued_plan}
use openclaw_mattermost_cust.Card.Run.{
  Event, calls, starts, claim_answered, create_answered, update_answered, call, start_write,
  start_next, start_if_idle, step, run,
}

-- The requests that ask for a new post.
unfoldable pub creations : List Request → ℕ
creations [] = 0
creations (creates revision message ∷ rs) = suc (creations rs)
creations (updates id revision message ∷ rs) = creations rs
creations (claims ∷ rs) = creations rs

abbrev pub is_creating : Doing → Bool
is_creating (creating snapshot message after) = true
is_creating _ = false

-- No post can be asked for any more: there is one, or none is to be, or the result was started.
abbrev pub is_closed : Card → Bool
is_closed s =
    s.create_disabled || s.result_started || (is_some s.post_id && not (is_creating s.doing))

-- A closed card stays so, and asks for no post.
record StaysClosed (s t : Card) : Type 0 where
  closed : is_closed s ≡ true → is_closed t ≡ true
  creations_same : is_closed s ≡ true → creations t.sent ≡ creations s.sent

pub creations-creates :
    (rs : List Request) (revision : ℕ) (message : String)
    → creations (rs ++ creates revision message ∷ []) ≡ suc (creations rs)
unfolding creations
creations-creates [] revision message = refl
creations-creates (creates n m ∷ rs) revision message =
    ap suc (creations-creates rs revision message)
creations-creates (updates i n m ∷ rs) revision message = creations-creates rs revision message
creations-creates (claims ∷ rs) revision message = creations-creates rs revision message

pub creations-updates :
    (rs : List Request) (id : String) (revision : ℕ) (message : String)
    → creations (rs ++ updates id revision message ∷ []) ≡ creations rs
unfolding creations
creations-updates [] id revision message = refl
creations-updates (creates n m ∷ rs) id revision message =
    ap suc (creations-updates rs id revision message)
creations-updates (updates i n m ∷ rs) id revision message =
    creations-updates rs id revision message
creations-updates (claims ∷ rs) id revision message = creations-updates rs id revision message

pub creations-claims : (rs : List Request) → creations (rs ++ claims ∷ []) ≡ creations rs
unfolding creations
creations-claims [] = refl
creations-claims (creates n m ∷ rs) = ap suc (creations-claims rs)
creations-claims (updates i n m ∷ rs) = creations-claims rs
creations-claims (claims ∷ rs) = creations-claims rs

do_after-StaysClosed : (after : After) (s : Card) → StaysClosed s (do_after after s)
do_after-StaysClosed after s = ground arith

-- A publication that starts when no write waits.
publish_to-StaysClosed :
    (has_claim : Bool) (id : Option String) (snapshot : Snapshot) (message : String) (after : After)
    (s : Card)
    → s.post_id ≡ id
    → s.doing ≡ idle
    → StaysClosed s (publish_to has_claim id snapshot message after s)
publish_to-StaysClosed has_claim (some id) snapshot message after s at free =
    ground (arith, creations-updates s.sent id snapshot.revision message)
publish_to-StaysClosed has_claim none snapshot message after s at free =
    ground (arith, creations-claims s.sent)

publish_snapshot-StaysClosed :
    (tools : Tools) (has_claim : Bool) (after : After) (latest : Option Snapshot) (s : Card)
    → s.doing ≡ idle
    → StaysClosed s (publish_snapshot tools has_claim after latest s)
unfolding publish_snapshot
publish_snapshot-StaysClosed tools has_claim after none s free = ground arith
publish_snapshot-StaysClosed tools has_claim after (some snapshot) s free = ground (
  arith,
  publish_to-StaysClosed has_claim s.post_id snapshot (render_card tools snapshot) after s refl
      free,
)

claimed_as-StaysClosed :
    (id : Option String) (snapshot : Snapshot) (message : String) (after : After) (s : Card)
    → is_creating s.doing ≡ false
    → StaysClosed s (claimed_as id snapshot message after s)
claimed_as-StaysClosed none snapshot message after s busy = ground arith
claimed_as-StaysClosed (some id) snapshot message after s busy =
    ground (arith, creations-updates s.sent id snapshot.revision message)

after_claim-StaysClosed :
    (a : Claim) (doing : Doing) (s : Card) → s.doing ≡ doing → StaysClosed s (after_claim a doing s)
after_claim-StaysClosed (claimed id) (claiming snapshot message after) s at =
    claimed_as-StaysClosed (elim id [ none ↦ none | some i ↦ nonempty i ]) snapshot message after s
      (ap (λ d. is_creating d) at)
after_claim-StaysClosed claim_threw (claiming snapshot message after) s at = ground arith
after_claim-StaysClosed a idle s at = ground arith
after_claim-StaysClosed a (creating snapshot message after) s at = ground arith
after_claim-StaysClosed a (updating snapshot message after) s at = ground arith

after_create-StaysClosed :
    (a : Created) (doing : Doing) (s : Card)
    → s.doing ≡ doing
    → StaysClosed s (after_create a doing s)
after_create-StaysClosed a doing s at = ground arith

after_update-StaysClosed :
    (ok : Bool) (doing : Doing) (s : Card)
    → s.doing ≡ doing
    → StaysClosed s (after_update ok doing s)
after_update-StaysClosed ok doing s at = ground arith

-- A change outside the writes' part.
KeepsCore-StaysClosed : (s t : Card) → KeepsCore s t → StaysClosed s t
KeepsCore-StaysClosed s t k =
    let disabled = ap (λ c. c.create_disabled) k.same in
    let post = ap (λ c. c.post_id) k.same in
    let doing = ap (λ c. c.doing) k.same in
    let sent = ap (λ c. c.sent) k.same in ground (arith, k.started)

module _ (tools : Tools) (has_claim : Bool) where
  start_write-StaysClosed :
      (w : Write) (is_current : Bool) (s : Card)
      → s.doing ≡ idle
      → StaysClosed s (start_write tools has_claim w is_current s)
  unfolding start_write
  start_write-StaysClosed (publishes guarded after) is_current s free =
      ground (arith, publish_snapshot-StaysClosed tools has_claim after s.latest s free)
  start_write-StaysClosed marks_result is_current s free = ground arith
  start_write-StaysClosed settles_at_last is_current s free = ground arith
  start_write-StaysClosed (continues name) is_current s free = ground arith
  start_write-StaysClosed (continues_plan name plan) is_current s free =
      KeepsCore-StaysClosed s (continued_plan tools name plan is_current s)
        (continued_plan-KeepsCore tools has_claim name plan is_current s)

  start_if_idle-StaysClosed :
      (doing : Doing) (is_current : Bool) (s : Card)
      → s.doing ≡ doing
      → StaysClosed s (start_if_idle tools has_claim doing is_current s)
  start_if_idle-StaysClosed idle is_current s free = next s.writes
    where
      next : (ws : List Write) → StaysClosed s (start_next tools has_claim ws is_current s)
      next [] = ground arith
      next (w ∷ ws) =
          let k = start_write-StaysClosed w is_current (record s { writes = ws }) free in
          record { closed = k.closed; creations_same = k.creations_same }
  start_if_idle-StaysClosed (claiming snapshot message after) is_current s at = ground arith
  start_if_idle-StaysClosed (creating snapshot message after) is_current s at = ground arith
  start_if_idle-StaysClosed (updating snapshot message after) is_current s at = ground arith

  step-StaysClosed : (e : Event) (s : Card) → StaysClosed s (step tools has_claim e s)
  unfolding step
  step-StaysClosed (calls c) s =
      KeepsCore-StaysClosed s (call tools has_claim c s) (call-KeepsCore tools has_claim c s)
  step-StaysClosed (starts is_current) s = start_if_idle-StaysClosed s.doing is_current s refl
  step-StaysClosed (claim_answered a) s = after_claim-StaysClosed a s.doing s refl
  step-StaysClosed (create_answered a) s = after_create-StaysClosed a s.doing s refl
  step-StaysClosed (update_answered ok) s = after_update-StaysClosed ok s.doing s refl

  -- A card that has a post, or is to have none, or whose result was started, asks for no post,
  -- whatever calls, starts of writes and answers follow.
  pub run-creations_closed :
      (es : List Event) (s : Card)
      → is_closed s ≡ true
      → creations (run tools has_claim es s).sent ≡ creations s.sent
  unfolding run
  run-creations_closed [] s h = refl
  run-creations_closed (e ∷ es) s h =
      let k = step-StaysClosed e s in
      run-creations_closed es (step tools has_claim e s) (k.closed h) ∙ k.creations_same h
