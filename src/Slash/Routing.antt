-- ===== src/Slash/Routing.antt =====
-- src/mattermost/slash-state.ts: the accounts with active slash commands, and the HTTP route of the
-- callbacks. A handler is the number of its closure; the map of the accounts is a list in the order of
-- insertion.
use openclaw_mattermost_cust.Base.{
  ℕ, suc, Bool, ◌&&◌, String, ◌==◌, Option, none, some, List, [], ◌∷◌, ◌++◌, map, any, or_else,
  if◌then◌else◌,
}
use openclaw_mattermost_cust.Base.Table.{delete_where}
use openclaw_mattermost_cust.Base.Text.{is_empty, truthy}
use openclaw_mattermost_cust.Slash.Requests.{Registered}
use openclaw_mattermost_cust.Slash.Commands.{
  Payload, Reader, includes, parse_payload, normalize_trigger,
}

pub record Account : Type 0 where
  pub account_id : String
  pub command_tokens : List String
  pub registered_commands : List Registered
  pub handler : Option ℕ

-- `cleared` are the accounts whose validation caches were cleared, in order.
pub record Accounts : Type 0 where
  pub accounts : List Account
  pub next_handler : ℕ
  pub cleared : List String

abbrev pub no_accounts : Accounts
no_accounts = record { accounts = []; next_handler = 0; cleared = [] }

abbrev pub is_account : String → Account → Bool
is_account id a = a.account_id == id

-- `Map.set`: a key that is there keeps its place.
abbrev pub set_account : Account → List Account → List Account
set_account a [] = a ∷ []
set_account a (b ∷ bs) = if is_account a.account_id b then a ∷ bs else b ∷ set_account a bs

unfoldable pub activate : String → List String → List Registered → Accounts → Accounts
activate id tokens commands s = record s {
  accounts =
      set_account
        (record {
          account_id = id;
          command_tokens = tokens;
          registered_commands = commands;
          handler = some s.next_handler;
        })
        s.accounts;
  next_handler = suc s.next_handler;
}

abbrev pub drop_account : String → Accounts → Accounts
drop_account id s =
    if any (is_account id) s.accounts
    then record s {
      accounts = delete_where (is_account id) s.accounts;
      cleared = s.cleared ++ id ∷ [];
    }
    else s

-- Without an account id, or with an empty one, all accounts are deactivated.
unfoldable pub deactivate : Option String → Accounts → Accounts
deactivate id s =
    if truthy id
    then drop_account (or_else id "") s
    else record s { accounts = []; cleared = s.cleared ++ map (λ a. a.account_id) s.accounts }

pub data Source : Type 0 where
  by_token by_command : Source

pub data Match : Type 0 where
  no_match : Match
  single : Source → ℕ → String → Match
  ambiguous : Source → List String → Match

-- The accounts with a handler that pass a test, with their handlers.
abbrev pub handlers_where : (Account → Bool) → List Account → List (String × ℕ)
handlers_where p [] = []
handlers_where p (a ∷ rest) = elim a.handler [
  | none ↦ handlers_where p rest
  | some h ↦ if p a then (a.account_id, h) ∷ handlers_where p rest else handlers_where p rest
]

abbrev pub match_of : Source → List (String × ℕ) → Match
match_of source [] = no_match
match_of source ((id, h) ∷ []) = single source h id
match_of source ((id, h) ∷ m ∷ ms) = ambiguous source (id ∷ map (λ e. e.0) (m ∷ ms))

abbrev pub has_token : String → Account → Bool
has_token token a = any (λ t. t == token) a.command_tokens

abbrev pub has_command : String → String → Account → Bool
has_command team trigger a =
    any (λ c. c.team_id == team && c.trigger == trigger) a.registered_commands

unfoldable pub resolve_for_token : String → Accounts → Match
resolve_for_token token s = match_of by_token (handlers_where (has_token token) s.accounts)

unfoldable pub resolve_for_command : String → String → Accounts → Match
unfolding normalize_trigger
resolve_for_command team command s =
    if is_empty (normalize_trigger command)
    then no_match
    else match_of by_command
        (handlers_where (has_command team (normalize_trigger command)) s.accounts)

-- What reading the body gives, within its limits.
pub data Body : Type 0 where
  full : String → Body
  timed_out too_large : Body

-- The response of the route itself, or the handler that the request goes to, with the body if the
-- route has read it.
pub data Response : Type 0 where
  unavailable request_timeout payload_too_large unauthorized : Response
  conflict : Source → List String → Response
  handled : ℕ → Option String → Response

abbrev pub response_of : Match → String → Response
response_of no_match body = unauthorized
response_of (single source h id) body = handled h (some body)
response_of (ambiguous source ids) body = conflict source ids

abbrev pub command_match : Option Payload → Accounts → Match
command_match none s = no_match
command_match (some p) s = resolve_for_command p.team_id p.command s

abbrev pub first_match : Match → Match → Match
first_match no_match other = other
first_match (single source h id) other = single source h id
first_match (ambiguous source ids) other = ambiguous source ids

abbrev pub field_of : Option (String → Option String) → String → Option String
field_of none name = none
field_of (some get) name = get name

abbrev pub token_match : Option String → Accounts → Match
token_match token s = if truthy token then resolve_for_token (or_else token "") s else no_match

abbrev pub route_body : Reader → Reader → String → String → Accounts → Response
route_body json form content_type body s =
    let fields = if includes "application/json" content_type then json body else form body in
    response_of
      (first_match (token_match (field_of fields "token") s)
        (command_match (parse_payload json form body (some content_type)) s))
      body

abbrev pub route_read : Reader → Reader → String → Body → Accounts → Response
route_read json form content_type timed_out s = request_timeout
route_read json form content_type too_large s = payload_too_large
route_read json form content_type (full body) s = route_body json form content_type body s

abbrev pub only_handler : Option ℕ → Response
only_handler none = unavailable
only_handler (some h) = handled h none

-- No account, one account, or several: only then is the body read here.
abbrev pub route_among : List Account → Reader → Reader → Option String → Body → Accounts → Response
route_among [] json form content_type body s = unavailable
route_among (a ∷ []) json form content_type body s = only_handler a.handler
route_among (a ∷ b ∷ rest) json form content_type body s =
    route_read json form (or_else content_type "") body s

unfoldable pub route : Reader → Reader → Option String → Body → Accounts → Response
unfolding parse_payload resolve_for_token resolve_for_command
route json form content_type body s = route_among s.accounts json form content_type body s

pub data Call : Type 0 where
  activates : String → List String → List Registered → Call
  deactivates : Option String → Call

unfoldable pub step : Call → Accounts → Accounts
step (activates id tokens commands) s = activate id tokens commands s
step (deactivates id) s = deactivate id s

unfoldable pub run : List Call → Accounts → Accounts
run [] s = s
run (call ∷ calls) s = run calls (step call s)
