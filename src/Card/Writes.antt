-- ===== src/Card/Writes.antt =====
-- src/mattermost/task-progress-card.ts: the serialised writes of a card (`publishLatest`, and what is
-- chained to `writeTail`), each up to where it waits for the server, and then from its answer on.
use openclaw_mattermost_cust.Base.{
  ℕ, suc, Bool, true, false, ◌||◌, String, ◌==◌, Option, none, some, [], ◌∷◌, ◌++◌, leb,
  if◌then◌else◌,
}
use openclaw_mattermost_cust.Card.Lines.{Tools, nonempty}
use openclaw_mattermost_cust.Card.Render.{Snapshot, render_card}
use openclaw_mattermost_cust.Card.State.{
  Request, creates, updates, claims, After, nothing, settles, settles_if_idle, Doing, idle,
  claiming, creating, updating, Card, log_failure, settle, has_active,
}

abbrev pub max_create_attempts : ℕ
max_create_attempts = 2

abbrev pub do_after : After → Card → Card
do_after nothing s = s
do_after settles s = settle s
do_after settles_if_idle s = if has_active s.sessions then s else settle s

-- The end of a publication.
abbrev pub finish_write : After → Card → Card
finish_write after s = do_after after (record s { doing = idle })

abbrev pub send : Request → Doing → Card → Card
send r doing s = record s { sent = s.sent ++ r ∷ []; doing = doing }

abbrev pub is_published : Option String → Option String → Bool
is_published message published = elim published [
  | none ↦ false
  | some p ↦ elim message [ none ↦ false | some m ↦ m == p ]
]

abbrev pub create_card : Snapshot → String → After → Card → Card
create_card snapshot message after s =
    if s.create_disabled || leb max_create_attempts s.create_attempts
    then finish_write after s
    else send (creates snapshot.revision message) (creating snapshot message after)
        (record s { create_attempts = suc s.create_attempts })

abbrev pub update_card : String → Snapshot → String → After → Card → Card
update_card id snapshot message after s =
    send (updates id snapshot.revision message) (updating snapshot message after) s

abbrev pub claim_result : Bool → Snapshot → String → After → Card → Card
claim_result has_claim snapshot message after s =
    if has_claim then send claims (claiming snapshot message after) s else finish_write after s

-- `has_claim` says whether the caller gave `claimResultPost`.
abbrev pub publish_to : Bool → Option String → Snapshot → String → After → Card → Card
publish_to has_claim (some id) snapshot message after s =
    if is_published (some message) s.published_message
    then finish_write after (record s { published_revision = snapshot.revision })
    else update_card id snapshot message after s
publish_to has_claim none snapshot message after s =
    if s.create_disabled
    then finish_write after s
    else if s.result_started
    then claim_result has_claim snapshot message after s
    else create_card snapshot message after s

-- The answers: of `claimResultPost`, which may throw, of the creation, which may fail after a part
-- was delivered, and of the update.
pub data Claim : Type 0 where
  claimed : Option String → Claim
  claim_threw : Claim

pub data Created : Type 0 where
  created : String → Created
  create_failed : Bool → Created

abbrev pub stored : Snapshot → String → Card → Card
stored snapshot message s = record s {
  published_message = some message;
  published_revision = snapshot.revision;
  posts = s.posts ++ (snapshot.revision, message) ∷ [];
}

abbrev pub claimed_as : Option String → Snapshot → String → After → Card → Card
claimed_as none snapshot message after s = finish_write after s
claimed_as (some id) snapshot message after s =
    update_card id snapshot message after (record s { post_id = some id })

abbrev pub after_claim : Claim → Doing → Card → Card
after_claim (claimed id) (claiming snapshot message after) s =
    claimed_as (elim id [ none ↦ none | some i ↦ nonempty i ]) snapshot message after s
after_claim claim_threw (claiming snapshot message after) s = finish_write after (log_failure s)
after_claim _ _ s = s

abbrev pub after_create : Created → Doing → Card → Card
after_create (created id) (creating snapshot message after) s =
    finish_write after (stored snapshot message (record s { post_id = nonempty id }))
after_create (create_failed is_partial) (creating snapshot message after) s =
    finish_write after (log_failure (if is_partial then record s { create_disabled = true } else s))
after_create _ _ s = s

abbrev pub after_update : Bool → Doing → Card → Card
after_update ok (updating snapshot message after) s =
    if ok
    then finish_write after (stored snapshot message s)
    else finish_write after (log_failure s)
after_update _ _ s = s

module _ (tools : Tools) where
  unfoldable pub publish_snapshot : Bool → After → Option Snapshot → Card → Card
  unfolding render_card
  publish_snapshot has_claim after none s = finish_write after s
  publish_snapshot has_claim after (some snapshot) s =
      if leb snapshot.revision s.published_revision
      then finish_write after s
      else publish_to has_claim s.post_id snapshot (render_card tools snapshot) after s
