-- ===== src/Slash/Commands.antt =====
-- src/mattermost/slash-commands.ts: the payload of a callback, the text of a command, and the settings
-- and the URL of the callbacks. `JSON.parse` and `URLSearchParams` are parameters: a body is read as
-- fields, or the reading throws.
use Prim.Native.Char.{code}
use Prim.Native.String.{[], ◌∷◌}
use openclaw_mattermost_cust.Base.{
  ℕ, zero, suc, Bool, true, false, not, ◌&&◌, ◌||◌, String, ◌==◌, Option, none, some, [], ◌∷◌, eqb,
  or_else, if◌then◌else◌,
}
use openclaw_mattermost_cust.Base.Text.{trim, is_empty, truthy, starts_with, concat}

pub record Payload : Type 0 where
  pub token : String
  pub team_id : String
  pub team_domain : Option String
  pub channel_id : String
  pub channel_name : Option String
  pub user_id : String
  pub user_name : Option String
  pub command : String
  pub text : String
  pub trigger_id : Option String
  pub response_url : Option String
  pub root_id : Option String

-- A body as its fields of type text, by name; none where reading it throws.
abbrev pub Reader : Type 0
Reader = String → Option (String → Option String)

abbrev pub includes : String → String → Bool
includes part [] = is_empty part
includes part (c ∷ s) = starts_with part (c ∷ s) || includes part s

abbrev pub payload_of : (String → Option String) → Option Payload
payload_of get =
    if truthy (get "token")
      && truthy (get "team_id")
      && truthy (get "channel_id")
      && truthy (get "user_id")
      && truthy (get "command")
    then some (record {
      token = or_else (get "token") "";
      team_id = or_else (get "team_id") "";
      team_domain = get "team_domain";
      channel_id = or_else (get "channel_id") "";
      channel_name = get "channel_name";
      user_id = or_else (get "user_id") "";
      user_name = get "user_name";
      command = or_else (get "command") "";
      text = or_else (get "text") "";
      trigger_id = get "trigger_id";
      response_url = get "response_url";
      root_id = get "root_id";
    })
    else none

abbrev pub payload_or_none : Option (String → Option String) → Option Payload
payload_or_none none = none
payload_or_none (some get) = payload_of get

unfoldable pub parse_payload : Reader → Reader → String → Option String → Option Payload
parse_payload json form body content_type =
    if is_empty body
    then none
    else if includes "application/json" (or_else content_type "")
    then payload_or_none (json body)
    else payload_or_none (form body)

abbrev pub drop_chars : ℕ → String → String
drop_chars zero s = s
drop_chars (suc n) [] = []
drop_chars (suc n) (c ∷ s) = drop_chars n s

abbrev pub plain_name : String → String
plain_name trigger = if starts_with "oc_" trigger then drop_chars 3 trigger else trigger

abbrev pub with_args : String → String → String
with_args name args =
    if is_empty args then concat ("/" ∷ name ∷ []) else concat ("/" ∷ name ∷ " " ∷ args ∷ [])

unfoldable pub resolve_command_text : String → String → (String → Option String) → String
unfolding trim
resolve_command_text trigger text trigger_map =
    with_args (or_else (trigger_map trigger) (plain_name trigger)) (trim text)

abbrev pub without_slash : String → String
without_slash [] = []
without_slash (c ∷ s) = if eqb (code c) 47 then s else c ∷ s

unfoldable pub normalize_trigger : String → String
unfolding trim
normalize_trigger command = trim (without_slash command)

-- `boolean | "auto"`.
pub data Setting : Type 0 where
  on off automatic : Setting

pub record Config : Type 0 where
  pub native : Setting
  pub native_skills : Setting
  pub callback_path : String
  pub callback_url : Option String

pub record RawConfig : Type 0 where
  pub native : Option Setting
  pub native_skills : Option Setting
  pub callback_path : Option String
  pub callback_url : Option String

abbrev pub rooted : String → String
rooted path = if starts_with "/" path then path else concat ("/" ∷ path ∷ [])

abbrev pub optional_text : (String → Option String) → Option String → Option String
optional_text optional none = none
optional_text optional (some s) = optional s

-- `optional` is the SDK's `normalizeOptionalString` on texts.
unfoldable pub normalize_callback_path : (String → Option String) → Option String → String
normalize_callback_path optional value =
    rooted (or_else (optional_text optional value) "/mattermost/command")

unfoldable pub resolve_config : (String → Option String) → RawConfig → Config
unfolding normalize_callback_path
resolve_config optional raw = record {
  native = or_else raw.native automatic;
  native_skills = or_else raw.native_skills automatic;
  callback_path = normalize_callback_path optional raw.callback_path;
  callback_url = optional_text optional raw.callback_url;
}

abbrev pub is_on : Setting → Bool
is_on on = true
is_on off = false
is_on automatic = false

abbrev pub is_enabled : Config → Bool
is_enabled config = is_on config.native

abbrev pub ends_with_bracket : String → Bool
ends_with_bracket [] = false
ends_with_bracket (c ∷ []) = eqb (code c) 93
ends_with_bracket (c ∷ d ∷ s) = ends_with_bracket (d ∷ s)

abbrev pub has_colon : String → Bool
has_colon [] = false
has_colon (c ∷ s) = eqb (code c) 58 || has_colon s

abbrev pub bracketed : String → String
bracketed host =
    if has_colon host && not (starts_with "[" host && ends_with_bracket host)
    then concat ("[" ∷ host ∷ "]" ∷ [])
    else host

abbrev pub without_last : String → String
without_last [] = []
without_last (c ∷ []) = []
without_last (c ∷ d ∷ s) = c ∷ without_last (d ∷ s)

abbrev pub without_brackets : String → String
without_brackets s =
    if starts_with "[" s && ends_with_bracket s then without_last (drop_chars 1 s) else s

abbrev pub is_any_address : String → Bool
is_any_address host =
    host == "0.0.0.0" || host == "::" || host == "0:0:0:0:0:0:0:0" || host == "::0"

unfoldable pub is_wildcard_host : String → Bool
unfolding trim
is_wildcard_host raw = not (is_empty (trim raw)) && is_any_address (without_brackets (trim raw))

abbrev pub host_or_local : Option String → String
host_or_local none = "localhost"
host_or_local (some host) =
    if not (is_empty host) && not (is_wildcard_host host) then host else "localhost"

-- With the port as text.
unfoldable pub resolve_callback_url :
    (String → Option String) → Config → String → Option String → String
unfolding is_wildcard_host normalize_callback_path
resolve_callback_url optional config port host =
    if truthy config.callback_url
    then or_else config.callback_url ""
    else concat (
        "http://"
        ∷ bracketed (host_or_local host)
        ∷ ":"
        ∷ port
        ∷ normalize_callback_path optional (some config.callback_path)
        ∷ [])
