-- ===== src/Stream/Snapshot.antt =====
-- companion/webapp/src/stream-state.ts: parsing a snapshot, and deciding what a post shows.
use openclaw_mattermost_cust.Base.{
  ℕ, Bool, true, false, not, ◌&&◌, ◌||◌, String, ◌==◌, Option, none, some, ltb, if◌then◌else◌,
  or_else,
}
use openclaw_mattermost_cust.Base.Int.{ℤ, pos, ltℤ, leℤ, eqℤ}
use openclaw_mattermost_cust.Base.Text.{utf16_length}
use openclaw_mattermost_cust.Stream.Value.{
  Js, undefined, Fields, get_field, as_record, as_text, as_boolean, as_safe_integer, is_text,
  is_integer,
}

abbrev pub post_type : String
post_type = "custom_openclaw_stream"

abbrev pub protocol_version : ℤ
protocol_version = pos 1

abbrev pub max_text_units : ℕ
max_text_units = 262144

pub record Snapshot : Type 0 where
  pub post_id : String
  pub channel_id : String
  pub root_id : String
  pub generation : String
  pub seq : ℤ
  pub message : String
  pub closed : Bool
  pub updated_at : ℤ
  pub expires_at : ℤ

pub record Post : Type 0 where
  pub id : String
  pub channel_id : String
  pub root_id : Option String
  pub type : String
  pub update_at : Option ℤ
  pub message : Option String
  pub props : Option Fields

infixl 5 ◌>>=◌ ◌>>◌
abbrev pub ◌>>=◌ {ℓ κ} : {A : Type ℓ} {B : Type κ} → Option A → (A → Option B) → Option B
none >>= f = none
some a >>= f = f a

abbrev pub ◌>>◌ {ℓ} : {B : Type ℓ} → Option (Unit {0}) → Option B → Option B
m >> k = m >>= λ _. k

abbrev pub guard : Bool → Option (Unit {0})
guard true = some tt
guard false = none

unfoldable pub parse_snapshot : Js → Option Snapshot
parse_snapshot value = do
  fields ← as_record value
  post_id ← as_text (get_field "post_id" fields)
  channel_id ← as_text (get_field "channel_id" fields)
  root_id ← as_text (get_field "root_id" fields)
  generation ← as_text (get_field "generation" fields)
  seq ← as_safe_integer (get_field "seq" fields)
  guard (ltℤ (pos 0) seq)
  message ← as_text (get_field "message" fields)
  guard (not (ltb max_text_units (utf16_length message)))
  closed ← as_boolean (get_field "closed" fields)
  updated_at ← as_safe_integer (get_field "updated_at" fields)
  expires_at ← as_safe_integer (get_field "expires_at" fields)
  some (record {
    post_id = post_id;
    channel_id = channel_id;
    root_id = root_id;
    generation = generation;
    seq = seq;
    message = message;
    closed = closed;
    updated_at = updated_at;
    expires_at = expires_at;
  })

-- `post.props?.name`.
abbrev pub get_prop : String → Post → Js
get_prop name post = elim post.props [ none ↦ undefined | some fields ↦ get_field name fields ]

abbrev pub update_time : Post → ℤ
update_time post = or_else post.update_at (pos 0)

-- The post and its properties name this snapshot, and the post is not newer.
abbrev pub belongs : Post → Fields → Fields → Snapshot → Bool
belongs post mattermost stream s =
    (post.type == post_type)
    && is_integer (get_field "version" mattermost) protocol_version
    && is_text (get_field "kind" mattermost) "turn_result"
    && is_text (get_field "channelId" mattermost) post.channel_id
    && is_integer (get_field "version" stream) protocol_version
    && (s.post_id == post.id)
    && (s.channel_id == post.channel_id)
    && (s.root_id == or_else post.root_id "")
    && is_text (get_field "generation" stream) s.generation
    && not (ltℤ s.updated_at (update_time post))

unfoldable pub snapshot_for_post : Post → Js → ℤ → Option Snapshot
snapshot_for_post post value now = do
  s ← parse_snapshot value
  guard (not (s.closed || leℤ s.expires_at now))
  mattermost ← as_record (get_prop "openclaw_mattermost" post)
  stream ← as_record (get_prop "openclaw_stream" post)
  guard (belongs post mattermost stream s)
  some s

abbrev pub effective_post : Post → Option Post → Post
effective_post post none = post
effective_post post (some persisted) =
    if (persisted.id == post.id) && leℤ (update_time post) (update_time persisted)
    then persisted
    else post

unfoldable pub message_for_post : Post → Js → Option Post → ℤ → String
message_for_post post value persisted now =
    let effective = effective_post post persisted in
    let persisted_message = or_else effective.message (or_else post.message "") in
    elim (snapshot_for_post effective value now) [ none ↦ persisted_message | some s ↦ s.message ]

abbrev same_flag : Bool → Bool → Bool
same_flag true b = b
same_flag false b = not b

unfoldable pub same_snapshot : Snapshot → Snapshot → Bool
same_snapshot a b =
    (a.post_id == b.post_id)
    && (a.channel_id == b.channel_id)
    && (a.root_id == b.root_id)
    && (a.generation == b.generation)
    && eqℤ a.seq b.seq
    && (a.message == b.message)
    && same_flag a.closed b.closed
    && eqℤ a.updated_at b.updated_at
    && eqℤ a.expires_at b.expires_at
