-- ===== src/Callback/Lookup.antt =====
-- src/mattermost/slash-http.ts: the lookup of the current command, and the validation of a token,
-- which is in two steps, before and after the lookup is awaited.
use openclaw_mattermost_cust.Base.{
  ℕ, Bool, true, false, not, ◌&&◌, ◌||◌, String, ◌==◌, Option, none, some, List, [], ◌∷◌, find, ltb,
  if◌then◌else◌,
}
use openclaw_mattermost_cust.Base.Text.{is_empty, concat}
use openclaw_mattermost_cust.Base.Keyed.{has_at, put_at, remove_at}
use openclaw_mattermost_cust.Slash.Requests.{Registered, post_method}
use openclaw_mattermost_cust.Callback.Limits.{Dates, Limits, Reservation, allowed, limited, reserve}
use openclaw_mattermost_cust.Callback.Caches.{Refusals, Caches, has_refusal, cache_refusal}

-- A command as the server has it now; a `delete_at` that is no positive number is 0 or missing.
pub record Current : Type 0 where
  pub id : String
  pub team_id : String
  pub trigger : String
  pub method : String
  pub url : String
  pub token : String
  pub delete_at : Option ℕ

pub data Lookup : Type 0 where
  found : Current → Lookup
  missing unavailable : Lookup

pub data Validation : Type 0 where
  valid invalid no_answer : Validation

abbrev pub lookup_key : String → Registered → String → String
lookup_key api registered account =
    concat (api ∷ ":" ∷ account ∷ ":" ∷ registered.team_id ∷ ":" ∷ registered.id ∷ [])

abbrev pub is_deleted : Current → Bool
is_deleted c = elim c.delete_at [ none ↦ false | some t ↦ ltb 0 t ]

abbrev pub found_or : Option Current → Lookup → Lookup
found_or none other = other
found_or (some c) other = found c

-- The fallback: the team's list, or the deleted command that the first lookup gave.
abbrev pub fall_back : Option Current → Option (List Current) → String → Lookup
fall_back by_id none id = found_or by_id unavailable
fall_back by_id (some listed) id = found_or (find (λ c. c.id == id) listed) (found_or by_id missing)

-- `by_id` and `listed` are what the two requests return, nothing if they throw.
unfoldable pub fetch_uncached : Option Current → Option (List Current) → Registered → Lookup
fetch_uncached none listed registered = fall_back none listed registered.id
fetch_uncached (some c) listed registered =
    if not (is_deleted c) then found c else fall_back (some c) listed registered.id

-- Before the lookup: an answer, or waiting for a lookup that is under way or that is started.
pub data Start : Type 0 where
  answered : Validation → Start
  joins starts : Start

abbrev pub started : String → String → Reservation × Limits → Caches → Start × Caches
started key account (limited b, limits) s = (answered no_answer, record s { limits = limits })
started key account (allowed, limits) s =
    (starts, record s { limits = limits; inflight = put_at key account s.inflight })

abbrev pub matches : Registered → Current → Bool
matches r c =
    c.id == r.id
    && c.team_id == r.team_id
    && c.trigger == r.trigger
    && c.method == post_method
    && c.url == r.url

module _ (dates : Dates) where
  unfoldable pub unrefused : String → String → ℕ → Bool × Refusals → Caches → Start × Caches
  unfolding reserve
  unrefused key account now (true, rs) s = (answered invalid, record s { refusals = rs })
  unrefused key account now (false, rs) s =
      if has_at key s.inflight
      then (joins, record s { refusals = rs })
      else started key account (reserve dates key account now s.limits) (record s { refusals = rs })

  -- With the two readings of the clock.
  unfoldable pub begin_validation : String → String → ℕ → ℕ → Caches → Start × Caches
  unfolding has_refusal unrefused reserve
  begin_validation key account now later s =
      unrefused key account later (has_refusal dates key now s.refusals) s

  -- When the lookup that was started has ended.
  unfoldable pub end_lookup : String → Caches → Caches
  end_lookup key s = record s { inflight = remove_at key s.inflight }

  abbrev pub refuse : String → String → ℕ → Caches → Validation × Caches
  unfolding cache_refusal
  refuse key account now s =
      (invalid, record s { refusals = cache_refusal dates key account now s.refusals })

  -- `same` is the SDK's comparison of secrets.
  unfoldable pub end_validation :
      (String → String → Bool)
      → String
      → String
      → ℕ
      → Registered
      → String
      → Lookup
      → Caches
      → Validation × Caches
  unfolding cache_refusal
  end_validation same key account now registered token unavailable s = (no_answer, s)
  end_validation same key account now registered token missing s = refuse key account now s
  end_validation same key account now registered token (found c) s =
      if is_deleted c || not (matches registered c)
      then refuse key account now s
      else if is_empty c.token || not (same token c.token)
      then (invalid, s)
      else (valid, record s { refusals = remove_at key s.refusals })
