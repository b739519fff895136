-- ===== src/Card/Board.antt =====
-- src/mattermost/task-progress-card.ts: what a card's post shows, and what holds of a card between two
-- writes.
use openclaw_mattermost_cust.Base.{
  ℕ, ◌≤◌, ◌<◌, ◌≡◌, refl, String, Option, none, some, List, [], ◌∷◌, ◌++◌,
}
use openclaw_mattermost_cust.Card.Lines.{Tools}
use openclaw_mattermost_cust.Card.Render.{Snapshot, render_card}
use openclaw_mattermost_cust.Card.State.{Doing, idle, claiming, creating, updating, Card}
use openclaw_mattermost_cust.Card.Creation.{creations}

-- What the post shows: the last revision and message that the server has stored.
abbrev pub board : List (ℕ × String) → Option (ℕ × String)
board [] = none
board (p ∷ []) = some p
board (p ∷ q ∷ ps) = board (q ∷ ps)

pub board-append : (ps : List (ℕ × String)) (p : ℕ × String) → board (ps ++ p ∷ []) ≡ some p
board-append [] p = refl
board-append (q ∷ []) p = refl
board-append (q ∷ r ∷ ps) p = board-append (r ∷ ps) p

abbrev pub revision_shown : Option (ℕ × String) → ℕ
revision_shown none = 0
revision_shown (some p) = p.0

module _ (tools : Tools) where
  -- The abstract card: it shows nothing, or the text of a snapshot, and only a newer one follows.
  pub data Advances : Option (ℕ × String) → Option (ℕ × String) → Type 0 where
    stays : {b : Option (ℕ × String)} → Advances b b
    shows :
        {b : Option (ℕ × String)} (snapshot : Snapshot)
        → revision_shown b < snapshot.revision
        → Advances b (some (snapshot.revision, render_card tools snapshot))

  -- The write that waits is for a revision above the published one, with the snapshot's text.
  abbrev pub InFlight : ℕ → Doing → Type 0
  InFlight n idle = Unit
  InFlight n (claiming snapshot message after) =
      (n < snapshot.revision) × (message ≡ render_card tools snapshot)
  InFlight n (creating snapshot message after) =
      (n < snapshot.revision) × (message ≡ render_card tools snapshot)
  InFlight n (updating snapshot message after) =
      (n < snapshot.revision) × (message ≡ render_card tools snapshot)

  -- The requests for a post are counted, two at most, and no revision is shown that is not below
  -- the write that waits.
  pub record IsSound (s : Card) : Type 0 where
    pub counted : creations s.sent ≡ s.create_attempts
    pub within : s.create_attempts ≤ 2
    pub shown : revision_shown (board s.posts) ≤ s.published_revision
    pub in_flight : InFlight s.published_revision s.doing

  -- A step that stores nothing.
  pub record IsStill (s t : Card) : Type 0 where
    pub sound : IsSound t
    pub still : t.posts ≡ s.posts
