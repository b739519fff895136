-- ===== src/Card/Soundness.antt =====
-- src/mattermost/task-progress-card.ts: that starting a write keeps what holds of a card.
use openclaw_mattermost_cust.Base.{
  suc, ◌<◌, ◌≡◌, refl, ap, sym, Bool, true, false, not, String, Option, none, some, leb,
  if◌then◌else◌, ◌||◌, ◌&&◌, ◌∙◌, arith,
}
use openclaw_mattermost_cust.Card.Lines.{Tools}
use openclaw_mattermost_cust.Card.Render.{Snapshot, render_card}
use openclaw_mattermost_cust.Card.State.{
  After, settles, Write, publishes, marks_result, settles_at_last, continues, continues_plan, idle,
  Card,
}
use openclaw_mattermost_cust.Card.Writes.{
  do_after, finish_write, publish_to, update_card, claim_result, create_card, max_create_attempts,
  is_published, publish_snapshot,
}
use openclaw_mattermost_cust.Card.Frame.{KeepsCore, continued_plan-KeepsCore, reopened-KeepsCore}
use openclaw_mattermost_cust.Card.Creation.{
  creations, creations-creates, creations-updates, creations-claims,
}
use openclaw_mattermost_cust.Card.Calls.{continued_plan, reopened}
use openclaw_mattermost_cust.Card.Run.{start_write}
use openclaw_mattermost_cust.Card.Board.{IsSound, IsStill}

module _ (tools : Tools) where
  pub do_after-IsStill :
      (after : After) (s : Card) → IsSound tools s → IsStill tools s (do_after after s)
  do_after-IsStill after s v = ground arith

  pub finish_write-IsStill :
      (after : After) (s : Card) → IsSound tools s → IsStill tools s (finish_write after s)
  finish_write-IsStill after s v =
      let k =
        do_after-IsStill after (record s { doing = idle })
          (record { counted = v.counted; within = v.within; shown = v.shown; in_flight = tt }) in
      record { sound = k.sound; still = k.still }

  either :
      {s t u : Card} (b : Bool)
      → (b ≡ true → IsStill tools s t)
      → (b ≡ false → IsStill tools s u)
      → IsStill tools s (if b then t else u)
  either true k l = k refl
  either false k l = l refl

  pub update-IsStill :
      (id : String) (snapshot : Snapshot) (after : After) (s : Card)
      → s.published_revision < snapshot.revision
      → IsSound tools s
      → IsStill tools s (update_card id snapshot (render_card tools snapshot) after s)
  update-IsStill id snapshot after s newer v = record {
    sound = record {
      counted =
          creations-updates s.sent id snapshot.revision (render_card tools snapshot) ∙ v.counted;
      within = v.within;
      shown = v.shown;
      in_flight = (newer, refl);
    };
    still = refl;
  }

  claim-IsStill :
      (has_claim : Bool) (snapshot : Snapshot) (after : After) (s : Card)
      → s.published_revision < snapshot.revision
      → IsSound tools s
      → IsStill tools s (claim_result has_claim snapshot (render_card tools snapshot) after s)
  claim-IsStill true snapshot after s newer v = record {
    sound = record {
      counted = creations-claims s.sent ∙ v.counted;
      within = v.within;
      shown = v.shown;
      in_flight = (newer, refl);
    };
    still = refl;
  }
  claim-IsStill false snapshot after s newer v = finish_write-IsStill after s v

  create-IsStill :
      (snapshot : Snapshot) (after : After) (s : Card)
      → s.published_revision < snapshot.revision
      → IsSound tools s
      → IsStill tools s (create_card snapshot (render_card tools snapshot) after s)
  create-IsStill snapshot after s newer v =
      either (s.create_disabled || leb max_create_attempts s.create_attempts)
        (λ h. finish_write-IsStill after s v)
        (λ h. record {
          sound = record {
            counted =
                creations-creates s.sent snapshot.revision (render_card tools snapshot)
                ∙ ap suc v.counted;
            within = ground arith;
            shown = v.shown;
            in_flight = (newer, refl);
          };
          still = refl;
        })

  -- The message is shown already, under an older revision.
  renumber-IsStill :
      (snapshot : Snapshot) (after : After) (s : Card)
      → s.published_revision < snapshot.revision
      → IsSound tools s
      → IsStill tools s (finish_write after (record s { published_revision = snapshot.revision }))
  renumber-IsStill snapshot after s newer v =
      let k =
        do_after-IsStill after (record s { doing = idle; published_revision = snapshot.revision })
          (record {
            counted = v.counted;
            within = v.within;
            shown = omega (arith, v.shown, newer);
            in_flight = tt;
          }) in
      record { sound = k.sound; still = k.still }

  publish_to-IsStill :
      (has_claim : Bool) (id : Option String) (snapshot : Snapshot) (after : After) (s : Card)
      → s.published_revision < snapshot.revision
      → IsSound tools s
      → IsStill tools s (publish_to has_claim id snapshot (render_card tools snapshot) after s)
  publish_to-IsStill has_claim (some id) snapshot after s newer v =
      either (is_published (some (render_card tools snapshot)) s.published_message)
        (λ h. renumber-IsStill snapshot after s newer v)
        (λ h. update-IsStill id snapshot after s newer v)
  publish_to-IsStill has_claim none snapshot after s newer v =
      either s.create_disabled (λ h. finish_write-IsStill after s v)
        (λ h.
          either s.result_started (λ g. claim-IsStill has_claim snapshot after s newer v)
            (λ g. create-IsStill snapshot after s newer v))

  publish_snapshot-IsStill :
      (has_claim : Bool) (after : After) (latest : Option Snapshot) (s : Card)
      → IsSound tools s
      → IsStill tools s (publish_snapshot tools has_claim after latest s)
  unfolding publish_snapshot
  publish_snapshot-IsStill has_claim after none s v = finish_write-IsStill after s v
  publish_snapshot-IsStill has_claim after (some snapshot) s v =
      either (leb snapshot.revision s.published_revision) (λ h. finish_write-IsStill after s v)
        (λ h. publish_to-IsStill has_claim s.post_id snapshot after s (ground arith) v)

  -- A change outside the writes' part.
  pub KeepsCore-IsStill : (s t : Card) → KeepsCore s t → IsSound tools s → IsStill tools s t
  KeepsCore-IsStill s t k v =
      let sent = ap (λ c. c.sent) k.same in
      let attempts = ap (λ c. c.create_attempts) k.same in
      let posts = ap (λ c. c.posts) k.same in
      let published = ap (λ c. c.published_revision) k.same in
      let doing = ap (λ c. c.doing) k.same in
      record {
        sound = record {
          counted = ap creations sent ∙ (v.counted ∙ sym attempts);
          within = rw attempts v.within;
          shown = rw (posts, published) v.shown;
          in_flight = rw (published, doing) v.in_flight;
        };
        still = posts;
      }

  pub start_write-IsStill :
      (has_claim : Bool) (w : Write) (is_current : Bool) (s : Card)
      → s.doing ≡ idle
      → IsSound tools s
      → IsStill tools s (start_write tools has_claim w is_current s)
  unfolding start_write
  start_write-IsStill has_claim (publishes guarded after) is_current s free v =
      either (guarded && not is_current) (λ h. finish_write-IsStill after s v)
        (λ h. publish_snapshot-IsStill has_claim after s.latest s v)
  start_write-IsStill has_claim marks_result is_current s free v = record {
    sound = record {
      counted = v.counted;
      within = v.within;
      shown = v.shown;
      in_flight = v.in_flight;
    };
    still = refl;
  }
  start_write-IsStill has_claim settles_at_last is_current s free v = do_after-IsStill settles s v
  start_write-IsStill has_claim (continues name) is_current s free v =
      KeepsCore-IsStill s (reopened name is_current s) (reopened-KeepsCore name is_current s) v
  start_write-IsStill has_claim (continues_plan name plan) is_current s free v =
      KeepsCore-IsStill s (continued_plan tools name plan is_current s)
        (continued_plan-KeepsCore tools has_claim name plan is_current s) v
