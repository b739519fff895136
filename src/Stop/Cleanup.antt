-- ===== src/Stop/Cleanup.antt =====
-- src/mattermost/preview-stop.ts: the cleanup of a turn's posts at its end.
use openclaw_mattermost_cust.Base.{
  Bool, false, not, ◌&&◌, ◌||◌, String, ◌==◌, Option, none, some, List, [], ◌∷◌, ◌++◌, any,
  if◌then◌else◌,
}
use openclaw_mattermost_cust.Stream.Value.{Js, text}
use openclaw_mattermost_cust.Stop.Registry.{Turn}

-- An attachment with an array of actions, given by their ids, and whether it has a text; or any other
-- value, which is kept as it is.
pub data Attachment : Type 0 where
  other : Js → Attachment
  acting : List (Option String) → Bool → Attachment

-- `control` is the property that carries the token; no attachments stand for a value that is no array.
pub record Post : Type 0 where
  pub id : String
  pub channel_id : String
  pub user_id : String
  pub deleted : Bool
  pub control : Js
  pub attachments : Option (List Attachment)

abbrev pub stop_action_id : String
stop_action_id = "openclawstop"

abbrev pub is_stop : Option String → Bool
is_stop none = false
is_stop (some id) = id == stop_action_id

abbrev pub has_stop : List Attachment → Bool
has_stop [] = false
has_stop (other value ∷ rest) = has_stop rest
has_stop (acting actions is_text ∷ rest) = any (λ a. is_stop a) actions || has_stop rest

unfoldable pub without_stop : List (Option String) → List (Option String)
without_stop [] = []
without_stop (a ∷ actions) = let rest = without_stop actions in if is_stop a then rest else a ∷ rest

abbrev pub kept_attachment : List (Option String) → Bool → List Attachment
kept_attachment [] false = []
kept_attachment actions has_text = acting actions has_text ∷ []

unfoldable pub without_control : List Attachment → List Attachment
unfolding without_stop
without_control [] = []
without_control (other value ∷ rest) = other value ∷ without_control rest
without_control (acting actions has_text ∷ rest) =
    kept_attachment (without_stop actions) has_text ++ without_control rest

abbrev pub is_token_of : Turn → Js → Bool
is_token_of t (text token) = any (λ x. x == token) t.tokens
is_token_of t _ = false

abbrev pub is_own_post : String → Turn → String → Post → Bool
is_own_post bot t id p =
    p.id == id
    && p.channel_id == t.channel_id
    && p.user_id == bot
    && not p.deleted
    && is_token_of t p.control

-- The attachments that the post is updated with, if it is; the control is removed with them.
unfoldable pub cleaned : String → Turn → String → Post → Option (List Attachment)
unfolding without_control
cleaned bot t id p =
    if is_own_post bot t id p
    then elim p.attachments [ none ↦ none | some found ↦ some (without_control found) ]
    else none

-- The updates of the posts, for what the server gives for each; a request that throws is skipped.
unfoldable pub clean_up :
    String → (String → Option Post) → Turn → List String → List (String × List Attachment)
unfolding cleaned
clean_up bot fetched t [] = []
clean_up bot fetched t (id ∷ ids) =
    let rest = clean_up bot fetched t ids in
    elim (fetched id) [
      | none ↦ rest
      | some p ↦ elim (cleaned bot t id p) [ none ↦ rest | some kept ↦ (id, kept) ∷ rest ]
    ]
