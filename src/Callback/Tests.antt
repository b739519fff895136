-- ===== src/Callback/Tests.antt =====
-- src/mattermost/slash-http.ts: small cases, and the theorems at one of them.
use mathlib.Core.List.{Memᴰ}
use openclaw_mattermost_cust.Base.{
  ℕ, ◌+◌, ◌≤◌, ◌≡◌, refl, true, false, String, ◌==◌, eq_iff, Option, none, some, List, [], ◌∷◌, leb,
  if◌then◌else◌, arith,
}
use openclaw_mattermost_cust.Slash.Requests.{Registered}
use openclaw_mattermost_cust.Slash.Commands.{Payload, Reader, normalize_trigger}
use openclaw_mattermost_cust.Slash.Routing.{full}
use openclaw_mattermost_cust.Callback.Limits.{Dates, reserve, sweep_limits}
use openclaw_mattermost_cust.Callback.Caches.{
  Caches, no_caches, sweep_refusals, has_refusal, cache_refusal,
}
use openclaw_mattermost_cust.Callback.Lookup.{
  Current, found, missing, answered, invalid, fetch_uncached, begin_validation, end_validation,
}
use openclaw_mattermost_cust.Callback.Handler.{handle_begin, handle_end}
use openclaw_mattermost_cust.Callback.Agreement.{Confirms}
use openclaw_mattermost_cust.Callback.Tokens.{handle_end-Confirms}
use openclaw_mattermost_cust.Callback.Refusing.{
  Use, begins, ends, use_all, begin_validation_refused,
}
use openclaw_mattermost_cust.Callback.Allowance.{Wish}

abbrev last_date : ℕ
last_date = 8640000000000000

timestamp_small : (n : ℕ) → n ≤ last_date → (if leb n last_date then some n else none) ≡ some n
timestamp_small n h = ground (arith, h)

abbrev dates : Dates
dates = record {
  as_timestamp = λ n. if leb n last_date then some n else none;
  expires_after = λ duration now. some (now + duration);
  last = last_date;
  timestamp = timestamp_small;
}

abbrev current : Current
current = record {
  id = "c";
  team_id = "t";
  trigger = "model";
  method = "P";
  url = "u";
  token = "k";
  delete_at = none;
}

abbrev registered_one : Registered
registered_one = record {
  id = "c";
  trigger = "model";
  team_id = "t";
  token = "old";
  url = "u";
  managed = false;
}

abbrev fields : String → Option String
fields name =
    if name == "token"
    then some "k"
    else if name == "team_id"
    then some "t"
    else if name == "channel_id"
    then some "ch"
    else if name == "user_id"
    then some "us"
    else if name == "command"
    then some "/model"
    else none

abbrev form : Reader
form body = some fields

abbrev payload : Payload
payload = record {
  token = "k";
  team_id = "t";
  team_domain = none;
  channel_id = "ch";
  channel_name = none;
  user_id = "us";
  user_name = none;
  command = "/model";
  text = "";
  trigger_id = none;
  response_url = none;
  root_id = none;
}

-- A command that was deleted when it was looked up by its id, and is in the list.
lookup_test :
    fetch_uncached
      (some (record current { delete_at = some 5 }))
      (some (current ∷ []))
      registered_one
    ≡ found current
unfolding fetch_uncached
lookup_test = refl

handle_end-Confirms_example :
    Memᴰ registered_one (registered_one ∷ [])
    × (registered_one.team_id ≡ payload.team_id)
    × (registered_one.trigger ≡ normalize_trigger payload.command)
    × Confirms registered_one "k" (found current)
unfolding handle_begin handle_end begin_validation end_validation has_refusal sweep_refusals reserve
    sweep_limits
handle_end-Confirms_example =
    handle_end-Confirms dates (λ a b. a == b) eq_iff form form "api" "a" (registered_one ∷ [])
      "POST" none (some "body") (full "") 10 11 12 registered_one payload true (found current)
      no_caches no_caches refl refl

-- The caches after a lookup at 10 that found no command, and after a validation of it and one of
-- another command, which is refused, too.
abbrev refusing : Caches
refusing =
    (end_validation dates (λ a b. a == b) "key" "a" 10 registered_one "k" missing no_caches).1

abbrev uses : List Use
uses =
    begins "key" "a" 20 21
    ∷ begins "other" "a" 30 31
    ∷ ends "other" "a" 40 registered_one "k" missing
    ∷ []

abbrev met : Caches
met = use_all dates (λ a b. a == b) uses refusing

begin_validation_refused_example :
    ((begin_validation dates "key" "a" 5009 5020 met).0 ≡ answered invalid)
    × ((begin_validation dates "key" "a" 5009 5020 met).1.inflight ≡ met.inflight)
    × ((begin_validation dates "key" "a" 5009 5020 met).1.limits ≡ met.limits)
unfolding begin_validation end_validation has_refusal cache_refusal sweep_refusals reserve
    sweep_limits
begin_validation_refused_example =
    begin_validation_refused dates (λ a b. a == b) "key" "a" 10 5010 5009 5020 registered_one "k"
      uses no_caches (omega arith) refl (omega arith) tt (omega arith)
      (
        (omega arith, omega arith),
        omega arith,
        (
          (omega arith, omega arith),
          omega arith,
          ((refl, omega arith, omega arith), omega arith, tt),
        ),
      )
      (omega arith) (omega arith)

abbrev wishes : List Wish
wishes =
    record { key = "k"; account_id = "a"; now = 5 }
    ∷ record { key = "k"; account_id = "a"; now = 700 }
    ∷ []
