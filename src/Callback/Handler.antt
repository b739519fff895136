-- ===== src/Callback/Handler.antt =====
-- src/mattermost/slash-http.ts: the HTTP handler of an account, up to the validation of the token; it
-- is in two steps, before and after a lookup is awaited.
use openclaw_mattermost_cust.Base.{
  ℕ, Bool, true, false, ◌&&◌, String, ◌==◌, Option, none, some, List, find, or_else, if◌then◌else◌,
}
use openclaw_mattermost_cust.Slash.Requests.{Registered}
use openclaw_mattermost_cust.Slash.Commands.{Payload, Reader, parse_payload, normalize_trigger}
use openclaw_mattermost_cust.Slash.Routing.{Body, full, timed_out, too_large}
use openclaw_mattermost_cust.Callback.Limits.{Dates}
use openclaw_mattermost_cust.Callback.Caches.{Caches}
use openclaw_mattermost_cust.Callback.Lookup.{
  Lookup, Validation, valid, invalid, no_answer, Start, answered, joins, starts, lookup_key,
  begin_validation, end_validation,
}

-- The responses, by their status; `proceeds` goes on to the authorization of the sender.
pub data Answer : Type 0 where
  wrong_method request_timeout payload_too_large bad_payload unauthorized try_again : Answer
  proceeds : Registered → Payload → Answer

-- The flag says that the lookup is a new one.
pub data Progress : Type 0 where
  responds : Answer → Progress
  waits : Registered → Payload → Bool → Progress

unfoldable pub find_registered : List Registered → Payload → Option Registered
unfolding normalize_trigger
find_registered registered p =
    find (λ c. c.team_id == p.team_id && c.trigger == normalize_trigger p.command) registered

abbrev pub answer_to : Registered → Payload → Validation → Answer
answer_to r p valid = proceeds r p
answer_to r p invalid = unauthorized
answer_to r p no_answer = try_again

abbrev pub progress : Registered → Payload → Start × Caches → Progress × Caches
progress r p (answered v, s) = (responds (answer_to r p v), s)
progress r p (joins, s) = (waits r p false, s)
progress r p (starts, s) = (waits r p true, s)

module _ (dates : Dates) where
  -- `api` is the base URL of the account's client.
  unfoldable pub validating :
      String → String → ℕ → ℕ → Option Registered → Payload → Caches → Progress × Caches
  unfolding begin_validation
  validating api account now later none p s = (responds unauthorized, s)
  validating api account now later (some r) p s =
      progress r p (begin_validation dates (lookup_key api r account) account now later s)

  unfoldable pub with_payload :
      String → String → List Registered → ℕ → ℕ → Option Payload → Caches → Progress × Caches
  unfolding find_registered validating
  with_payload api account registered now later none s = (responds bad_payload, s)
  with_payload api account registered now later (some p) s =
      validating api account now later (find_registered registered p) p s

  unfoldable pub with_body :
      Reader
      → Reader
      → String
      → String
      → List Registered
      → Option String
      → ℕ
      → ℕ
      → Body
      → Caches
      → Progress × Caches
  unfolding with_payload parse_payload
  with_body json form api account registered content_type now later timed_out s =
      (responds request_timeout, s)
  with_body json form api account registered content_type now later too_large s =
      (responds payload_too_large, s)
  with_body json form api account registered content_type now later (full body) s =
      with_payload api account registered now later
        (parse_payload json form body (some (or_else content_type ""))) s

  -- The body is the buffered one, or else the one that is read.
  unfoldable pub handle_begin :
      Reader
      → Reader
      → String
      → String
      → List Registered
      → String
      → Option String
      → Option String
      → Body
      → ℕ
      → ℕ
      → Caches
      → Progress × Caches
  unfolding with_body parse_payload
  handle_begin json form api account registered method content_type buffered read now later s =
      if method == "POST"
      then with_body json form api account registered content_type now later
          (elim buffered [ none ↦ read | some b ↦ full b ]) s
      else (responds wrong_method, s)

  unfoldable pub handle_end :
      (String → String → Bool)
      → String
      → String
      → ℕ
      → Registered
      → Payload
      → Lookup
      → Caches
      → Answer × Caches
  unfolding end_validation
  handle_end same api account now r p lookup s =
      let v = end_validation dates same (lookup_key api r account) account now r p.token lookup s in
      (answer_to r p v.0, v.1)
