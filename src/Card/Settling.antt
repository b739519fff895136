-- ===== src/Card/Settling.antt =====
-- src/mattermost/task-progress-card.ts: a card that is finished settles.
use openclaw_mattermost_cust.Base.{
  ◌≤◌, ◌≡◌, refl, sym, subst, Bool, true, false, ◌||◌, Option, none, some, List, [], ◌∷◌, length,
  any, arith, or_else, is_some,
}
use openclaw_mattermost_cust.Card.Lines.{Tools}
use openclaw_mattermost_cust.Card.Render.{Terminal, Snapshot}
use openclaw_mattermost_cust.Card.State.{
  settles_if_idle, publishes, settles_at_last, Doing, idle, claiming, creating, updating, Card,
  has_active,
}
use openclaw_mattermost_cust.Card.Writes.{after_claim, after_create, after_update}
use openclaw_mattermost_cust.Card.Calls.{finish, finish_snapshot}
use openclaw_mattermost_cust.Card.Run.{start_if_idle, step}
use openclaw_mattermost_cust.Card.Work.{work}
use openclaw_mattermost_cust.Card.Draining.{Answer, next_event, serve, serve_all, serve_all-rests}
use openclaw_mattermost_cust.Card.Promises.{
  is_settling_write, is_settling_doing, is_continuing, any_append_one, start_next-WillSettle,
  after_claim-WillSettle, after_create-WillSettle, after_update-WillSettle, WillSettle,
}

module _ (tools : Tools) (has_claim : Bool) where
  serve_of-WillSettle :
      (a : Answer) (doing : Doing) (s : Card)
      → s.doing ≡ doing
      → WillSettle s
      → WillSettle (step tools has_claim (next_event a doing) s)
  unfolding step
  serve_of-WillSettle a idle s free v =
      subst (λ d. WillSettle (start_if_idle tools has_claim d a.is_current s)) (sym free)
        (start_next-WillSettle tools has_claim s.writes a.is_current s refl free v)
  serve_of-WillSettle a (claiming snapshot message after) s busy v =
      subst (λ d. WillSettle (after_claim a.claim d s)) (sym busy)
        (after_claim-WillSettle tools has_claim a.claim snapshot message after s
          (subst (λ d. s.settled || is_settling_doing d || any is_settling_write s.writes ≡ true)
            busy v.due)
          v.quiet v.final)
  serve_of-WillSettle a (creating snapshot message after) s busy v =
      subst (λ d. WillSettle (after_create a.creation d s)) (sym busy)
        (after_create-WillSettle tools has_claim a.creation snapshot message after s
          (subst (λ d. s.settled || is_settling_doing d || any is_settling_write s.writes ≡ true)
            busy v.due)
          v.quiet v.final)
  serve_of-WillSettle a (updating snapshot message after) s busy v =
      subst (λ d. WillSettle (after_update a.update d s)) (sym busy)
        (after_update-WillSettle tools has_claim a.update snapshot message after s
          (subst (λ d. s.settled || is_settling_doing d || any is_settling_write s.writes ≡ true)
            busy v.due)
          v.quiet v.final)

  serve_all-WillSettle :
      (answers : List Answer) (s : Card)
      → WillSettle s
      → WillSettle (serve_all tools has_claim answers s)
  unfolding serve_all
  serve_all-WillSettle [] s v = v
  serve_all-WillSettle (a ∷ answers) s v =
      serve_all-WillSettle answers (serve tools has_claim a s)
        (serve_of-WillSettle a s.doing s refl v)

  finish_snapshot-WillSettle :
      (outcome : Option Terminal) (delivery_failed guarded : Bool) (s : Card)
      → has_active s.sessions ≡ false
      → any is_continuing s.writes ≡ false
      → WillSettle (
          finish_snapshot s.latest outcome delivery_failed guarded
            (record s { parent_finished = true }))
  finish_snapshot-WillSettle outcome delivery_failed guarded s quiet final = finished s.latest
    where
      finished :
          (l : Option Snapshot)
          → WillSettle (
              finish_snapshot l outcome delivery_failed guarded
                (record s { parent_finished = true }))
      finished none = ground (
        arith,
        any_append_one is_settling_write s.writes settles_at_last,
        any_append_one is_continuing s.writes settles_at_last,
      )
      finished (some snapshot) = ground (
        arith,
        any_append_one is_settling_write s.writes (publishes guarded settles_if_idle),
        any_append_one is_continuing s.writes (publishes guarded settles_if_idle),
      )

  finish-WillSettle :
      (outcome : Option Terminal) (delivery_failed : Bool) (current : Option Bool) (s : Card)
      → or_else current true ≡ true
      → has_active s.sessions ≡ false
      → any is_continuing s.writes ≡ false
      → WillSettle (finish outcome delivery_failed current s)
  unfolding finish
  finish-WillSettle outcome delivery_failed current s live quiet final =
      rw live (finish_snapshot-WillSettle outcome delivery_failed (is_some current) s quiet final)

  -- When `finish` is called without `isCurrent`, or with one that says true at the call, while no
  -- subtask is active and no continuation waits to begin, and no more calls follow, the card has settled
  -- once its writes have been answered, whatever the host and the server answer and whatever `isCurrent`
  -- says later.
  pub finish-serve_all :
      (answers : List Answer) (outcome : Option Terminal) (delivery_failed : Bool)
      (current : Option Bool) (s : Card)
      → or_else current true ≡ true
      → has_active s.sessions ≡ false
      → any is_continuing s.writes ≡ false
      → work (finish outcome delivery_failed current s) ≤ length answers
      → (serve_all tools has_claim answers (finish outcome delivery_failed current s)).settled
        ≡ true
  finish-serve_all answers outcome delivery_failed current s live quiet final enough =
      let t = finish outcome delivery_failed current s in
      let v =
        serve_all-WillSettle answers t
          (finish-WillSettle outcome delivery_failed current s live quiet final) in
      let rests = serve_all-rests tools has_claim answers t enough in
      let u = serve_all tools has_claim answers t in
      let due : u.settled || is_settling_doing idle || any is_settling_write [] ≡ true =
        subst (λ l. u.settled || is_settling_doing idle || any is_settling_write l ≡ true) rests.1
          (subst (λ d. u.settled || is_settling_doing d || any is_settling_write u.writes ≡ true)
            rests.0 v.due) in
      ground arith
