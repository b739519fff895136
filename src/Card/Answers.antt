-- ===== src/Card/Answers.antt =====
-- src/mattermost/task-progress-card.ts: that an answer to a write of a card keeps what holds
-- of it.
use openclaw_mattermost_cust.Base.{
  ◌<◌, ◌≡◌, refl, sym, subst, Bool, true, false, String, Option, none, some, if◌then◌else◌, ◌∙◌,
  arith,
}
use openclaw_mattermost_cust.Card.Lines.{Tools, nonempty}
use openclaw_mattermost_cust.Card.Render.{Snapshot, render_card}
use openclaw_mattermost_cust.Card.State.{
  After, Doing, idle, claiming, creating, updating, Card, log_failure,
}
use openclaw_mattermost_cust.Card.Writes.{
  Claim, claimed, claim_threw, Created, created, create_failed, after_claim, claimed_as,
  after_create, after_update, finish_write, stored,
}
use openclaw_mattermost_cust.Card.Frame.{KeepsCore}
use openclaw_mattermost_cust.Card.Board.{
  board, board-append, Advances, stays, shows, InFlight, IsSound, IsStill,
}
use openclaw_mattermost_cust.Card.Soundness.{
  do_after-IsStill, finish_write-IsStill, update-IsStill, KeepsCore-IsStill,
}

module _ (tools : Tools) (has_claim : Bool) where
  -- A step that keeps what holds, and after which the post shows the same or something newer.
  pub record IsStep (s t : Card) : Type 0 where
    pub sound : IsSound tools t
    pub moves : Advances tools (board s.posts) (board t.posts)

  pub still-IsStep : (s t : Card) → IsStill tools s t → IsStep s t
  still-IsStep s t k = record { sound = k.sound; moves = rw k.still stays }

  stored-IsStep :
      (snapshot : Snapshot) (message : String) (after : After) (s : Card)
      → s.published_revision < snapshot.revision
      → message ≡ render_card tools snapshot
      → IsSound tools s
      → IsStep s (finish_write after (stored snapshot message s))
  stored-IsStep snapshot message after s newer same v =
      let b = board-append s.posts (snapshot.revision, message) in
      let k =
        do_after-IsStill tools after (record (stored snapshot message s) { doing = idle })
          (record {
            counted = v.counted;
            within = v.within;
            shown = rw b (omega arith);
            in_flight = tt;
          }) in
      record {
        sound = k.sound;
        moves = rw (k.still, b, same) (shows snapshot (omega (arith, v.shown, newer)));
      }

  claimed_as-IsStill :
      (id : Option String) (snapshot : Snapshot) (message : String) (after : After) (s : Card)
      → s.published_revision < snapshot.revision
      → message ≡ render_card tools snapshot
      → IsSound tools s
      → IsStill tools s (claimed_as id snapshot message after s)
  claimed_as-IsStill none snapshot message after s newer same v =
      finish_write-IsStill tools after s v
  claimed_as-IsStill (some id) snapshot message after s newer same v =
      let k =
        update-IsStill tools id snapshot after (record s { post_id = some id }) newer
          (record {
            counted = v.counted;
            within = v.within;
            shown = v.shown;
            in_flight = v.in_flight;
          }) in
      rw same (record { sound = k.sound; still = k.still })

  -- A write that fails is logged, and the card is free for the next one.
  failed-IsStill :
      (after : After) (s : Card)
      → IsSound tools s
      → IsStill tools s (finish_write after (log_failure s))
  failed-IsStill after s v =
      let logged : KeepsCore s (log_failure s) = ground arith in
      let l = KeepsCore-IsStill tools s (log_failure s) logged v in
      let k = finish_write-IsStill tools after (log_failure s) l.sound in
      record { sound = k.sound; still = k.still ∙ l.still }

  pub same-IsStill : (s t : Card) → t ≡ s → IsSound tools s → IsStill tools s t
  same-IsStill s t e v = subst (λ c. IsStill tools s c) (sym e) (record { sound = v; still = refl })

  pub after_claim-IsStill :
      (a : Claim) (doing : Doing) (s : Card)
      → s.doing ≡ doing
      → IsSound tools s
      → IsStill tools s (after_claim a doing s)
  after_claim-IsStill (claimed id) (claiming snapshot message after) s at v =
      let waits = subst (λ d. InFlight tools s.published_revision d) at v.in_flight in
      claimed_as-IsStill (elim id [ none ↦ none | some i ↦ nonempty i ]) snapshot message after s
        waits.0 waits.1 v
  after_claim-IsStill claim_threw (claiming snapshot message after) s at v =
      failed-IsStill after s v
  after_claim-IsStill a idle s at v = same-IsStill s (after_claim a idle s) (ground arith) v
  after_claim-IsStill a (creating snapshot message after) s at v =
      same-IsStill s (after_claim a (creating snapshot message after) s) (ground arith) v
  after_claim-IsStill a (updating snapshot message after) s at v =
      same-IsStill s (after_claim a (updating snapshot message after) s) (ground arith) v

  with_post-IsSound :
      (id : Option String) (s : Card) → IsSound tools s → IsSound tools (record s { post_id = id })
  with_post-IsSound id s v = record {
    counted = v.counted;
    within = v.within;
    shown = v.shown;
    in_flight = v.in_flight;
  }

  -- An answer that no write waits for.
  same-IsStep : (s t : Card) → t ≡ s → IsSound tools s → IsStep s t
  same-IsStep s t e v = still-IsStep s t (same-IsStill s t e v)

  create_failed-IsStep :
      (is_partial : Bool) (after : After) (s : Card)
      → IsSound tools s
      → IsStep s (
          finish_write after
            (log_failure (if is_partial then record s { create_disabled = true } else s)))
  create_failed-IsStep true after s v =
      let disabled = record s { create_disabled = true } in
      let k = failed-IsStill after disabled (record {
        counted = v.counted;
        within = v.within;
        shown = v.shown;
        in_flight = v.in_flight;
      }) in
      still-IsStep s (finish_write after (log_failure disabled))
        (record { sound = k.sound; still = k.still })
  create_failed-IsStep false after s v =
      still-IsStep s (finish_write after (log_failure s)) (failed-IsStill after s v)

  pub after_create-IsStep :
      (a : Created) (doing : Doing) (s : Card)
      → s.doing ≡ doing
      → IsSound tools s
      → IsStep s (after_create a doing s)
  after_create-IsStep (created id) (creating snapshot message after) s at v =
      let waits = subst (λ d. InFlight tools s.published_revision d) at v.in_flight in
      let k =
        stored-IsStep snapshot message after (record s { post_id = nonempty id }) waits.0 waits.1
          (with_post-IsSound (nonempty id) s v) in
      record { sound = k.sound; moves = k.moves }
  after_create-IsStep (create_failed is_partial) (creating snapshot message after) s at v =
      create_failed-IsStep is_partial after s v
  after_create-IsStep a idle s at v = same-IsStep s (after_create a idle s) (ground arith) v
  after_create-IsStep a (claiming snapshot message after) s at v =
      same-IsStep s (after_create a (claiming snapshot message after) s) (ground arith) v
  after_create-IsStep a (updating snapshot message after) s at v =
      same-IsStep s (after_create a (updating snapshot message after) s) (ground arith) v

  pub after_update-IsStep :
      (ok : Bool) (doing : Doing) (s : Card)
      → s.doing ≡ doing
      → IsSound tools s
      → IsStep s (after_update ok doing s)
  after_update-IsStep true (updating snapshot message after) s at v =
      let waits = subst (λ d. InFlight tools s.published_revision d) at v.in_flight in
      stored-IsStep snapshot message after s waits.0 waits.1 v
  after_update-IsStep false (updating snapshot message after) s at v =
      still-IsStep s (finish_write after (log_failure s)) (failed-IsStill after s v)
  after_update-IsStep ok idle s at v = same-IsStep s s refl v
  after_update-IsStep ok (claiming snapshot message after) s at v = same-IsStep s s refl v
  after_update-IsStep ok (creating snapshot message after) s at v = same-IsStep s s refl v
