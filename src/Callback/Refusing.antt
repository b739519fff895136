-- ===== src/Callback/Refusing.antt =====
-- src/mattermost/slash-http.ts: a refused command stays refused while other callbacks are validated.
use openclaw_mattermost_cust.Base.{
  ℕ, ◌<◌, ◌≤◌, ◌≡◌, refl, Bool, Bool-cases, inl, inr, true, false, not, ◌||◌, String, ◌==◌, some,
  List, [], ◌∷◌, length, if◌then◌else◌,
}
use openclaw_mattermost_cust.Base.Text.{is_empty}
use openclaw_mattermost_cust.Base.Keyed.{IsUnique, has_at, remove_at}
use openclaw_mattermost_cust.Slash.Requests.{Registered}
use openclaw_mattermost_cust.Callback.Limits.{
  Dates, max_keys, Reservation, limited, allowed, Limits, reserve,
}
use openclaw_mattermost_cust.Callback.Caches.{
  Refusal, Refusals, Caches, failure_ms, has_refusal, cache_refusal,
}
use openclaw_mattermost_cust.Callback.Lookup.{
  Lookup, Validation, valid, unavailable, missing, found, invalid, answered, started, matches,
  is_deleted, unrefused, begin_validation, end_validation,
}
use openclaw_mattermost_cust.Callback.Memory.{
  Holds, has_refusal_found, has_refusal-Holds, cache_refusal-Holds, cache_other-Holds,
  remove_at-Holds, unrefused-true,
}

-- A validation begins under a key, or the lookup of one has ended, with the readings of the clock.
pub data Use : Type 0 where
  begins : String → String → ℕ → ℕ → Use
  ends : String → String → ℕ → Registered → String → Lookup → Use

module _ (dates : Dates) (same : String → String → Bool) where
  abbrev pub use_caches : Use → Caches → Caches
  use_caches (begins key account now later) s = (begin_validation dates key account now later s).1
  use_caches (ends key account now r token lookup) s =
      (end_validation dates same key account now r token lookup s).1

  abbrev pub use_all : List Use → Caches → Caches
  use_all [] s = s
  use_all (u ∷ us) s = use_all us (use_caches u s)

  -- The clock is before `e`, and a lookup that ends is not one of the key.
  abbrev pub IsEarly : String → ℕ → Use → Type 0
  IsEarly key e (begins k account now later) = (now ≤ dates.last) × (now < e)
  IsEarly key e (ends k account now r token lookup) =
      ((k == key) ≡ false) × (now ≤ dates.last) × (now < e)

  -- Every use is early, and leaves not more than 2000 refusals.
  abbrev pub AreEarly : String → ℕ → List Use → Caches → Type 0
  AreEarly key e [] s = Unit
  AreEarly key e (u ∷ us) s =
      IsEarly key e u
      × (length (use_caches u s).refusals ≤ max_keys)
      × AreEarly key e us (use_caches u s)

  started_keeps :
      (key account : String) (x : Reservation × Limits) (s : Caches)
      → (started key account x s).1.refusals ≡ s.refusals
  started_keeps key account (limited b, limits) s = refl
  started_keeps key account (allowed, limits) s = refl

  unrefused_keeps :
      (key account : String) (now : ℕ) (x : Bool × Refusals) (s : Caches)
      → (unrefused dates key account now x s).1.refusals ≡ x.1
  unfolding unrefused
  unrefused_keeps key account now (true, rs) s = refl
  unrefused_keeps key account now (false, rs) s = elim (Bool-cases (has_at key s.inflight)) [
    | inl there ↦ rw there refl
    | inr absent ↦ rw absent (
        started_keeps key account (reserve dates key account now s.limits)
          (record s { refusals = rs }))
  ]

  use_caches-Holds :
      (key : String) (r : Refusal) (u : Use) (s : Caches)
      → r.expires_at ≤ dates.last
      → IsEarly key r.expires_at u
      → length (use_caches u s).refusals ≤ max_keys
      → Holds dates key r s.refusals
      → Holds dates key r (use_caches u s).refusals
  unfolding begin_validation end_validation
  use_caches-Holds key r (begins k account now later) s low early small holds =
      rw (unrefused_keeps k account later (has_refusal dates k now s.refusals) s)
        (has_refusal-Holds dates key k now s.refusals r early.0 low early.1 holds)
  use_caches-Holds key r (ends k account now q token unavailable) s low early small holds = holds
  use_caches-Holds key r (ends k account now q token missing) s low early small holds =
      cache_other-Holds dates key k account now s.refusals r early.0 early.1 low early.2 small holds
  use_caches-Holds key r (ends k account now q token (found c)) s low early small holds =
      settled (is_deleted c || not (matches q c)) (is_empty c.token || not (same token c.token))
        small
    where
      refused : Refusals
      refused = cache_refusal dates k account now s.refusals

      after : Bool → Bool → Validation × Caches
      after differs wrong =
          if differs
          then (invalid, record s { refusals = refused })
          else if wrong
          then (invalid, s)
          else (valid, record s { refusals = remove_at k s.refusals })

      settled :
          (differs wrong : Bool)
          → length (after differs wrong).1.refusals ≤ max_keys
          → Holds dates key r (after differs wrong).1.refusals
      settled true wrong fits =
          cache_other-Holds dates key k account now s.refusals r early.0 early.1 low early.2 fits
            holds
      settled false true fits = holds
      settled false false fits = remove_at-Holds dates key k s.refusals r early.0 holds

  use_all-Holds :
      (key : String) (r : Refusal) (us : List Use) (s : Caches)
      → r.expires_at ≤ dates.last
      → AreEarly key r.expires_at us s
      → Holds dates key r s.refusals
      → Holds dates key r (use_all us s).refusals
  use_all-Holds key r [] s low early holds = holds
  use_all-Holds key r (u ∷ us) s low early holds =
      use_all-Holds key r us (use_caches u s) low early.2
        (use_caches-Holds key r u s low early.0 early.1 holds)

  -- After a lookup that found no command, a validation of the command that is begun before the refusal
  -- expires is answered that the token is invalid, without a lookup and without taking from the limit,
  -- whatever validations of this and of other commands have begun meanwhile and however lookups of other
  -- commands have ended, all of them before the refusal expires by the clock. This holds as long as the
  -- map of refusals had one entry for a key and never holds more than 2000 entries, and neither the
  -- account is cleared nor another lookup of the command ends.
  pub begin_validation_refused :
      (key account : String) (now e t later : ℕ) (r : Registered) (token : String) (us : List Use)
      (s : Caches)
      → now ≤ dates.last
      → dates.expires_after failure_ms now ≡ some e
      → e ≤ dates.last
      → IsUnique s.refusals
      → length (cache_refusal dates key account now s.refusals) ≤ max_keys
      → AreEarly key e us (end_validation dates same key account now r token missing s).1
      → t ≤ dates.last
      → t < e
      → (let met = use_all us (end_validation dates same key account now r token missing s).1 in
          let outcome = begin_validation dates key account t later met in
          (outcome.0 ≡ answered invalid)
          × (outcome.1.inflight ≡ met.inflight)
          × (outcome.1.limits ≡ met.limits))
  unfolding begin_validation end_validation
  begin_validation_refused key account now e t later r token us s n expires low u small early m
        late =
      let next = (end_validation dates same key account now r token missing s).1 in
      let refusal : Refusal = record { account_id = account; expires_at = e } in
      let met = use_all us next in
      let held =
        use_all-Holds key refusal us next low early
          (cache_refusal-Holds dates key account now e s.refusals n expires u small) in
      let hit = has_refusal_found dates key t met.refusals refusal m low late held in
      rw (unrefused-true dates key account later (has_refusal dates key t met.refusals) met hit.0)
        (refl, refl, refl)
