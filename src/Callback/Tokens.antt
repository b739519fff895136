-- ===== src/Callback/Tokens.antt =====
-- src/mattermost/slash-http.ts: what lets a callback through.
use mathlib.Core.List.{Memᴰ}
use openclaw_mattermost_cust.Base.{
  ap, ℕ, ◌≡◌, refl, ◌↔◌, Bool, true, false, ◌&&◌, String, ◌==◌, eq_iff, Option, none, some, List,
  find_sound, find-Mem, if◌then◌else◌, arith,
}
use openclaw_mattermost_cust.Slash.Requests.{Registered}
use openclaw_mattermost_cust.Slash.Commands.{Payload, Reader, normalize_trigger}
use openclaw_mattermost_cust.Slash.Routing.{Body, full, timed_out, too_large}
use openclaw_mattermost_cust.Callback.Limits.{Dates}
use openclaw_mattermost_cust.Callback.Caches.{Caches}
use openclaw_mattermost_cust.Callback.Lookup.{
  Lookup, Validation, valid, invalid, no_answer, Start, answered, joins, starts, lookup_key,
}
use openclaw_mattermost_cust.Callback.Handler.{
  unauthorized, bad_payload, wrong_method, request_timeout, payload_too_large, proceeds, Progress,
  responds, waits, find_registered, answer_to, progress, validating, with_payload, with_body,
  handle_begin, handle_end,
}
use openclaw_mattermost_cust.Callback.Agreement.{Confirms, end_validation_iff}

proceeds_valid :
    (r q : Registered) (p o : Payload) (v : Validation) → answer_to r p v ≡ proceeds q o → v ≡ valid
proceeds_valid r q p o valid e = refl
proceeds_valid r q p o invalid e = absurd (cc)
proceeds_valid r q p o no_answer e = absurd (cc)

module _ (dates : Dates) where
  progress-waits :
      (q r : Registered) (p o : Payload) (n : Bool) (x : Start × Caches)
      → (progress q p x).0 ≡ waits r o n
      → (q ≡ r) × (p ≡ o)
  progress-waits q r p o n (answered v, s) e = absurd (cc)
  progress-waits q r p o n (joins, s) e = (ground (arith, e), ground (arith, e))
  progress-waits q r p o n (starts, s) e = (ground (arith, e), ground (arith, e))

  validating-waits :
      (api account : String) (now later : ℕ) (q : Option Registered) (r : Registered)
      (p o : Payload) (n : Bool) (s : Caches)
      → (validating dates api account now later q p s).0 ≡ waits r o n
      → (q ≡ some r) × (p ≡ o)
  unfolding validating
  validating-waits api account now later none r p o n s e =
      let f : responds unauthorized ≡ waits r o n = e in absurd (cc)
  validating-waits api account now later (some q) r p o n s e =
      let both = progress-waits q r p o n _ e in (ap some both.0, both.1)

  -- A callback that waits for a lookup does so for one of the registered commands, under the team and
  -- the trigger of its payload.
  with_payload-waits :
      (api account : String) (registered : List Registered) (now later : ℕ) (q : Option Payload)
      (r : Registered) (p : Payload) (n : Bool) (s : Caches)
      → (with_payload dates api account registered now later q s).0 ≡ waits r p n
      → Memᴰ r registered × (r.team_id ≡ p.team_id) × (r.trigger ≡ normalize_trigger p.command)
  unfolding with_payload find_registered
  with_payload-waits api account registered now later none r p n s e =
      let f : responds bad_payload ≡ waits r p n = e in absurd (cc)
  with_payload-waits api account registered now later (some q) r p n s e =
      let both =
        validating-waits api account now later (find_registered registered q) r q p n s e in
      let fits =
        find_sound (λ c. c.team_id == q.team_id && c.trigger == normalize_trigger q.command)
          registered r both.0 in
      rw (← both.1) (
        find-Mem (λ c. c.team_id == q.team_id && c.trigger == normalize_trigger q.command)
            registered r both.0,
        ground (arith, fits, eq_iff r.team_id q.team_id),
        ground (arith, fits, eq_iff r.trigger (normalize_trigger q.command)),
      )

  with_body-waits :
      (json form : Reader) (api account : String) (registered : List Registered)
      (content_type : Option String) (now later : ℕ) (body : Body) (r : Registered) (p : Payload)
      (n : Bool) (s : Caches)
      → (with_body dates json form api account registered content_type now later body s).0
        ≡ waits r p n
      → Memᴰ r registered × (r.team_id ≡ p.team_id) × (r.trigger ≡ normalize_trigger p.command)
  unfolding with_body
  with_body-waits json form api account registered content_type now later timed_out r p n s e =
      let f : responds request_timeout ≡ waits r p n = e in absurd (cc)
  with_body-waits json form api account registered content_type now later too_large r p n s e =
      let f : responds payload_too_large ≡ waits r p n = e in absurd (cc)
  with_body-waits json form api account registered content_type now later (full body) r p n s e =
      with_payload-waits api account registered now later _ r p n s e

  posted-waits :
      (b : Bool) (r : Registered) (p : Payload) (n : Bool) (x : Progress × Caches) (s : Caches)
      → (if b then x else (responds wrong_method, s)).0 ≡ waits r p n
      → x.0 ≡ waits r p n
  posted-waits true r p n x s e = e
  posted-waits false r p n x s e = absurd (cc)

  handle_begin-waits :
      (json form : Reader) (api account : String) (registered : List Registered) (method : String)
      (content_type buffered : Option String) (read : Body) (now later : ℕ) (r : Registered)
      (p : Payload) (n : Bool) (s : Caches)
      → (handle_begin dates json form api account registered method content_type buffered read now
          later s).0
        ≡ waits r p n
      → Memᴰ r registered × (r.team_id ≡ p.team_id) × (r.trigger ≡ normalize_trigger p.command)
  unfolding handle_begin
  handle_begin-waits json form api account registered method content_type buffered read now later r
        p n s e =
      with_body-waits json form api account registered content_type now later
        (elim buffered [ none ↦ read | some b ↦ full b ]) r p n s
        (posted-waits (method == "POST") r p n _ s e)

-- If the handler lets a callback proceed after it has waited for a lookup, whatever happened
-- meanwhile, then the command is one of those registered for the account, under the team and the
-- trigger of the payload, and the lookup found it as it was registered, not deleted, with the payload's token.
pub handle_end-Confirms :
    (dates : Dates) (same : String → String → Bool)
    (equal : (a b : String) → (same a b ≡ true) ↔ (a ≡ b)) (json form : Reader)
    (api account : String) (registered : List Registered) (method : String)
    (content_type buffered : Option String) (read : Body) (now later after : ℕ) (r : Registered)
    (p : Payload) (n : Bool) (lookup : Lookup) (s t : Caches)
    → (handle_begin dates json form api account registered method content_type buffered read now
        later s).0
      ≡ waits r p n
    → (handle_end dates same api account after r p lookup t).0 ≡ proceeds r p
    → Memᴰ r registered
      × (r.team_id ≡ p.team_id)
      × (r.trigger ≡ normalize_trigger p.command)
      × Confirms r p.token lookup
unfolding handle_end
handle_end-Confirms dates same equal json form api account registered method content_type buffered
      read now later after r p n lookup s t begun ended =
    let known =
      handle_begin-waits dates json form api account registered method content_type buffered read
        now later r p n s begun in
    let passed = proceeds_valid r r p p _ ended in
    (
      known.0,
      known.1,
      known.2,
      (end_validation_iff dates same equal (lookup_key api r account) account after r p.token lookup
            t).0
          passed,
    )
