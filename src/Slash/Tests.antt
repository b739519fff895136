-- ===== src/Slash/Tests.antt =====
-- src/mattermost/slash-commands.ts and slash-state.ts: small cases, and the theorems at one of them.
use mathlib.Core.List.Memᴰ
use openclaw_mattermost_cust.Base.{
  ◌≡◌, List, Result, refl, true, false, none, some, [], ◌∷◌, ok, err, if◌then◌else◌, ◌==◌,
}
use openclaw_mattermost_cust.Base.Text.{trim}
use openclaw_mattermost_cust.Slash.Requests.{
  Command, Spec, Registered, Request, Failure, Server, throws, byte_length, fit,
  truncate_description,
}
use openclaw_mattermost_cust.Slash.Registration.{register_commands}
use openclaw_mattermost_cust.Slash.Ownership.{Respects, register_commands-Respects}
use openclaw_mattermost_cust.Slash.Commands.{Reader, normalize_trigger, parse_payload}
use openclaw_mattermost_cust.Slash.Routing.{
  no_accounts, activate, deactivate, activates, full, route, step, run, resolve_for_token,
  resolve_for_command, conflict, by_token,
}
use openclaw_mattermost_cust.Slash.Handlers.{deactivate-Spares}
use openclaw_mattermost_cust.Slash.Accounts.{Spares}

truncate_test : truncate_description "öö" ≡ "öö"
unfolding truncate_description byte_length fit
truncate_test = refl

fit_test : fit 3 0 "aöö" ≡ "aö"
unfolding fit
fit_test = refl

trigger_test : normalize_trigger "/oc_model " ≡ "oc_model"
unfolding normalize_trigger trim
trigger_test = refl

abbrev offline : Server
offline sent request = err throws

abbrev old_command : Command
old_command = record {
  id = "c1";
  trigger = "oc_new";
  method = "P";
  url = "u";
  token = "t";
  creator_id = some "bot";
}

abbrev new_spec : Spec
new_spec = record {
  trigger = "new";
  fallback_trigger = some "oc_new";
  description = "d";
  auto_complete = true;
  auto_complete_hint = none;
}

-- The creation fails, and the command under the fallback trigger is deleted.
abbrev failing : Result Failure (List Registered) × List Request
failing =
    register_commands offline "team" "bot" "u" (ok (old_command ∷ [])) ((false, new_spec) ∷ []) []

register_commands-Respects_example :
    Respects (trim "bot") (old_command ∷ []) (
      register_commands offline "team" "bot" "u"
        (ok (old_command ∷ []))
        ((false, new_spec) ∷ [])
        [])
register_commands-Respects_example =
    register_commands-Respects offline "team" "bot" "u" (old_command ∷ []) ((false, new_spec) ∷ [])

abbrev token_only : Reader
token_only body = some (λ name. if name == "token" then some body else none)

abbrev no_json : Reader
no_json body = none

conflict_test :
    route no_json token_only none
      (full "t")
      (run (activates "a" ("t" ∷ []) [] ∷ activates "b" ("t" ∷ []) [] ∷ []) no_accounts)
    ≡ conflict by_token ("a" ∷ "b" ∷ [])
unfolding route run step activate resolve_for_token resolve_for_command parse_payload trim
conflict_test = refl

deactivate-Spares_example : Spares 0 (
    route no_json token_only none (full "t") (
      run (activates "c" ("t" ∷ []) [] ∷ []) (
        deactivate
          (some "a")
          (run (activates "a" ("t" ∷ []) [] ∷ activates "b" ("t" ∷ []) [] ∷ []) no_accounts))))
unfolding run step activate
deactivate-Spares_example =
    deactivate-Spares (activates "a" ("t" ∷ []) [] ∷ activates "b" ("t" ∷ []) [] ∷ [])
      (activates "c" ("t" ∷ []) [] ∷ []) "a" 0 no_json token_only none (full "t") refl
