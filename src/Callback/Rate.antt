-- ===== src/Callback/Rate.antt =====
-- src/mattermost/slash-http.ts: how many lookups the rate limit allows.
use openclaw_mattermost_cust.Base.{
  ℕ, ◌+◌, ◌-◌, ◌*◌, ◌/◌, ◌≤◌, ◌≡◌, refl, Bool, true, false, String, ◌==◌, eq_iff, Option, none,
  some, min, ltb, if◌then◌else◌, length, All, Bool-cases, Option-cases, inl, inr, arith,
}
use openclaw_mattermost_cust.Base.Keyed.{
  value_at, put_at, remove_values, drop_oldest, IsUnique, drop_oldest_small, length-remove_values,
  All-remove_values, remove_values-IsUnique, put_at-IsUnique, All-put_at, value_at-put_at,
  value_at-put_other, value_at-remove_values, All-drop_oldest, drop_oldest-IsUnique, All_at,
}
use openclaw_mattermost_cust.Callback.Limits.{
  Dates, Limit, Limits, Reservation, allowed, limited, burst, refill_ms, max_keys, stale_ms,
  new_limit, refilled, spend, reserve_from, sweep_limits, is_stale, reserve,
}

abbrev pub is_allowed : Reservation → Bool
is_allowed allowed = true
is_allowed (limited b) = false

-- The milliseconds that the bucket of a key is worth at a time.
abbrev pub worth : ℕ → Option Limit → ℕ
worth now none = burst * refill_ms
worth now (some l) = min (burst * refill_ms + 499) (l.tokens * refill_ms + (now - l.updated_at))

abbrev pub price : Reservation → ℕ
price r = if is_allowed r then refill_ms else 0

-- Refilling a bucket does not make it worth more.
refilled-worth :
    (now : ℕ) (l : Limit)
    → l.tokens ≤ burst
    → ((refilled now l).tokens ≤ burst)
      × ((refilled now l).tokens * refill_ms + (now - (refilled now l).updated_at)
          ≤ min (burst * refill_ms + 499) (l.tokens * refill_ms + (now - l.updated_at)))
refilled-worth now l full = elim (Bool-cases (ltb 0 ((now - l.updated_at) / refill_ms))) [
  | inl more ↦ rw more (omega (arith, full), omega (arith, full))
  | inr same ↦ rw same (omega (arith, full), ground (arith, full, same))
]

spend-worth :
    (now : ℕ) (l : Limit)
    → l.tokens ≤ burst
    → price (spend now l).0 + worth now (some (spend now l).1)
      ≤ l.tokens * refill_ms + (now - l.updated_at)
spend-worth now l full = ground (arith, full)

pub worth-later : (t now : ℕ) (o : Option Limit) → t ≤ now → worth now o ≤ worth t o + (now - t)
worth-later t now none h = omega arith
worth-later t now (some l) h = omega (arith, h)

pub worth_most : (t : ℕ) (o : Option Limit) → worth t o ≤ burst * refill_ms + 499
worth_most t none = omega arith
worth_most t (some l) = omega arith

kept-worth :
    (now : ℕ) (l : Limit) (stale : Bool)
    → stale ≡ ltb stale_ms (now - l.updated_at)
    → worth now (if stale then none else some l) ≤ worth now (some l)
kept-worth now l stale e = rw e (ground arith)

module _ (dates : Dates) where
  abbrev pub IsFit : Limit → Type 0
  IsFit l = (l.tokens ≤ burst) × (l.updated_at ≤ dates.last)

  abbrev pub AreFit : Limits → Type 0
  AreFit limits = All (λ e. IsFit e.1) limits × IsUnique limits

  sweep-AreFit :
      (now : ℕ) (limits : Limits)
      → AreFit limits
      → AreFit (drop_oldest max_keys (remove_values (is_stale dates now) limits))
  sweep-AreFit now limits f = (
    All-drop_oldest _ max_keys _ (All-remove_values _ (is_stale dates now) limits f.0),
    drop_oldest-IsUnique max_keys _ (remove_values-IsUnique (is_stale dates now) limits f.1),
  )

  refilled-IsFit : (now : ℕ) (l : Limit) → IsFit l → now ≤ dates.last → IsFit (refilled now l)
  refilled-IsFit now l f h = elim (Bool-cases (ltb 0 ((now - l.updated_at) / refill_ms))) [
    | inl more ↦ rw more (omega arith, ground (arith, more, h))
    | inr same ↦ rw same f
  ]

  spend-IsFit : (now : ℕ) (l : Limit) → IsFit l → IsFit (spend now l).1
  spend-IsFit now l f = ground (arith, f.0, f.1)

  put-AreFit :
      (k : String) (l : Limit) (limits : Limits)
      → IsFit l
      → AreFit limits
      → AreFit (put_at k l limits)
  put-AreFit k l limits f g =
      (All-put_at (λ e. IsFit e.1) k l limits (λ j. f) g.0, put_at-IsUnique k l limits g.1)

  pub reserve-AreFit :
      (key account : String) (now : ℕ) (limits : Limits)
      → now ≤ dates.last
      → AreFit limits
      → AreFit (reserve dates key account now limits).1
  unfolding reserve sweep_limits
  reserve-AreFit key account now limits h f =
      let swept = drop_oldest max_keys (remove_values (is_stale dates now) limits) in
      let fit = sweep-AreFit now limits f in
      rw (dates.timestamp now h, dates.timestamp now h)
        (elim (Option-cases (value_at key swept)) [
          | inl new ↦ rw new (put-AreFit key (new_limit account now) swept (omega arith, h) fit)
          | inr (l, old) ↦ rw old (
              put-AreFit key (spend now (refilled now l)).1 swept
                (spend-IsFit now (refilled now l)
                  (refilled-IsFit now l (All_at IsFit key swept l fit.0 old) h))
                fit)
        ])

  -- The bucket of a key after the sweep.
  sweep-worth :
      (k : String) (now : ℕ) (limits : Limits)
      → AreFit limits
      → length limits ≤ max_keys
      → worth now (value_at k (drop_oldest max_keys (remove_values (is_stale dates now) limits)))
        ≤ worth now (value_at k limits)
  sweep-worth k now limits f small =
      let fewer = length-remove_values (is_stale dates now) limits in
      rw
        (
          drop_oldest_small max_keys (remove_values (is_stale dates now) limits)
              (omega (arith, fewer, small)),
          value_at-remove_values k (is_stale dates now) limits f.1,
        )
        (elim (Option-cases (value_at k limits)) [
          | inl new ↦ rw new (omega arith)
          | inr (l, old) ↦ rw old (
              kept-worth now l (is_stale dates now l) (
                rw (is_stale, dates.timestamp l.updated_at (All_at IsFit k limits l f.0 old).1)
                  refl))
        ])

  abbrev pub price_at : String → String → Reservation → ℕ
  price_at k key r = if key == k then price r else 0

  taken-worth :
      (key account : String) (now : ℕ) (rows : Limits)
      → AreFit rows
      → price (reserve_from key account now rows (value_at key rows)).0
          + worth now (value_at key (reserve_from key account now rows (value_at key rows)).1)
        ≤ worth now (value_at key rows)
  taken-worth key account now rows f = elim (Option-cases (value_at key rows)) [
    | inl new ↦ rw new (rw (value_at-put_at key (new_limit account now) rows) (omega arith))
    | inr (l, old) ↦
        let fit = All_at IsFit key rows l f.0 old in
        let r = refilled now l in
        rw old (
          rw (value_at-put_at key (spend now r).1 rows) (
            omega (
              arith,
              refilled-worth now l fit.0,
              spend-worth now r (refilled-worth now l fit.0).0,
            )))
  ]

  other-worth :
      (k key account : String) (now : ℕ) (rows : Limits)
      → (key == k) ≡ false
      → value_at k (reserve_from key account now rows (value_at key rows)).1 ≡ value_at k rows
  other-worth k key account now rows other = elim (Option-cases (value_at key rows)) [
    | inl new ↦ rw new (value_at-put_other k key (new_limit account now) rows other)
    | inr (l, old) ↦ rw old (value_at-put_other k key (spend now (refilled now l)).1 rows other)
  ]

  from-worth :
      (k key account : String) (now : ℕ) (rows : Limits)
      → AreFit rows
      → price_at k key (reserve_from key account now rows (value_at key rows)).0
          + worth now (value_at k (reserve_from key account now rows (value_at key rows)).1)
        ≤ worth now (value_at k rows)
  from-worth k key account now rows f = elim (Bool-cases (key == k)) [
    | inl same ↦
        let e : key ≡ k = ground (arith, eq_iff key k, same) in
        rw (same, ← e) (taken-worth key account now rows f)
    | inr other ↦ rw (other, other-worth k key account now rows other) (omega arith)
  ]

  pub reserve-worth :
      (k key account : String) (now : ℕ) (limits : Limits)
      → now ≤ dates.last
      → AreFit limits
      → length limits ≤ max_keys
      → price_at k key (reserve dates key account now limits).0
          + worth now (value_at k (reserve dates key account now limits).1)
        ≤ worth now (value_at k limits)
  unfolding reserve sweep_limits
  reserve-worth k key account now limits h f small =
      let swept = drop_oldest max_keys (remove_values (is_stale dates now) limits) in
      let fit = sweep-AreFit now limits f in
      let less = sweep-worth k now limits f small in
      rw (dates.timestamp now h, dates.timestamp now h)
        (omega (arith, less, from-worth k key account now swept fit))
