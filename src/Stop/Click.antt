-- ===== src/Stop/Click.antt =====
-- src/mattermost/preview-stop.ts: the handler of a click on Stop (`handleMattermostPreviewStop`), up to
-- its first wait and from the answers on.
use openclaw_mattermost_cust.Base.{
  Bool, true, false, not, ◌&&◌, String, ◌==◌, Option, none, some, List, [], ◌∷◌, any, if◌then◌else◌,
}
use openclaw_mattermost_cust.Stream.Value.{Js, is_text}
use openclaw_mattermost_cust.Stop.Registry.{Entry, Monitor, is_current, set_turn}
use openclaw_mattermost_cust.Stop.Cleanup.{Post, has_stop}

-- The control of the context, if there is one, and the ids of the payload.
pub record Click : Type 0 where
  pub control : Option Js
  pub post_id : String
  pub channel_id : String
  pub user_id : String

pub data Reply : Type 0 where
  not_mine stale unauthorized requested failed : Reply

abbrev pub is_requested : Reply → Bool
is_requested requested = true
is_requested _ = false

-- The click is answered, or the handler waits with an entry.
pub data Begun : Type 0 where
  answered : Reply → Begun
  fetching : Entry → Begun

unfoldable pub find_entry : Js → List (String × Entry) → Option Entry
find_entry token [] = none
find_entry token (e ∷ es) =
    let rest = find_entry token es in if is_text token e.1.token then some e.1 else rest

abbrev pub owns_post : Entry → String → Monitor → Bool
owns_post e post m = any (λ p. p == post) (m.turns e.owner).posts

unfoldable pub admits : Click → Entry → Monitor → Bool
unfolding is_current
admits c e m =
    owns_post e c.post_id m
    && e.channel_id == c.channel_id
    && e.sender_id == c.user_id
    && is_current e m

unfoldable pub begin_found : Click → Option Entry → Monitor → Begun
unfolding admits
begin_found c none m = answered stale
begin_found c (some e) m = if admits c e m then fetching e else answered stale

unfoldable pub begin_control : Click → Option Js → Monitor → Begun
unfolding find_entry begin_found
begin_control c none m = answered not_mine
begin_control c (some token) m = begin_found c (find_entry token m.entries) m

unfoldable pub stop_begin : Click → Monitor → Begun
unfolding begin_control
stop_begin c m = begin_control c c.control m

-- What is read of the account and the configuration, and the decision of the authorization.
pub record Decision : Type 0 where
  pub enabled : Bool
  pub allow_text_commands : Bool
  pub ok : Bool
  pub command_authorized : Bool

-- The fetched post and the decision; one that is missing has thrown.
pub record Answers : Type 0 where
  pub post : Option Post
  pub decision : Option Decision

abbrev pub has_control : String → Click → Entry → Post → Bool
has_control bot c e p =
    p.id == c.post_id
    && p.channel_id == e.channel_id
    && p.user_id == bot
    && not p.deleted
    && is_text p.control e.token
    && elim p.attachments [ none ↦ false | some found ↦ has_stop found ]

abbrev pub may_stop : Decision → Bool
may_stop d = d.allow_text_commands && d.ok && d.command_authorized

-- `abort` of an entry.
abbrev pub abort : Entry → Monitor → Monitor
abort e m = set_turn e.owner (record (m.turns e.owner) { stopped = true }) m

unfoldable pub end_decided : Entry → Option Decision → Monitor → Reply × Monitor
unfolding is_current
end_decided e none m = (failed, m)
end_decided e (some d) m =
    if not d.enabled
    then (stale, m)
    else if not (may_stop d)
    then (unauthorized, m)
    else if not (is_current e m)
    then (stale, m)
    else (requested, abort e m)

unfoldable pub end_fetched :
    String → Click → Entry → Option Post → Option Decision → Monitor → Reply × Monitor
unfolding end_decided
end_fetched bot c e none d m = (failed, m)
end_fetched bot c e (some p) d m = if has_control bot c e p then end_decided e d m else (stale, m)

unfoldable pub stop_end : String → Click → Entry → Answers → Monitor → Reply × Monitor
unfolding end_fetched
stop_end bot c e a m = end_fetched bot c e a.post a.decision m
