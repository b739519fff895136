-- ===== src/Callback/Memory.antt =====
-- src/mattermost/slash-http.ts: the memory of refused commands.
use openclaw_mattermost_cust.Base.{
  ◌∙◌, ap, ℕ, ◌<◌, ◌≤◌, ◌≡◌, refl, Bool, true, false, String, ◌==◌, eq_iff, Bool-cases, inl, inr,
  Option, none, some, length, arith,
}
use openclaw_mattermost_cust.Base.Keyed.{
  value_at, put_at, remove_values, drop_oldest, IsUnique, drop_oldest_small, length-remove_values,
  remove_values-IsUnique, put_at-IsUnique, remove_at, remove_at-IsUnique, value_at-put_other,
  value_at-remove_other, length-remove_at, value_at-put_at, unless, value_at-remove_values,
  drop_oldest-IsUnique,
}
use openclaw_mattermost_cust.Callback.Limits.{Dates, max_keys}
use openclaw_mattermost_cust.Callback.Caches.{
  Refusal, Refusals, Caches, put_refusal, has_refusal_at, failure_ms, is_over, sweep_refusals,
  test_refusal, has_refusal, cache_refusal,
}
use openclaw_mattermost_cust.Callback.Lookup.{invalid, answered, unrefused}

module _ (dates : Dates) where
  is_over_later :
      (t : ℕ) (r : Refusal)
      → r.expires_at ≤ dates.last
      → t < r.expires_at
      → is_over dates t r ≡ false
  is_over_later t r low late = rw (is_over, dates.timestamp r.expires_at low) (ground (arith, late))

  -- The map holds the refusal of the key, one entry for a key, and not more than 2000 entries.
  abbrev pub Holds : String → Refusal → Refusals → Type 0
  Holds key r rs = (value_at key rs ≡ some r) × IsUnique rs × (length rs ≤ max_keys)

  -- A sweep keeps a refusal that has not expired.
  pub sweep-Holds :
      (key : String) (t : ℕ) (rs : Refusals) (r : Refusal)
      → t ≤ dates.last
      → r.expires_at ≤ dates.last
      → t < r.expires_at
      → Holds key r rs
      → Holds key r (sweep_refusals dates t rs)
  unfolding sweep_refusals
  sweep-Holds key t rs r now low late (there, u, small) =
      let fewer = length-remove_values (is_over dates t) rs in
      let swept = remove_values (is_over dates t) rs in
      let fits = drop_oldest_small max_keys swept (omega (arith, fewer, small)) in
      let over = is_over_later t r low late in
      rw (dates.timestamp t now, fits)
        (
          value_at-remove_values key (is_over dates t) rs u ∙ rw (there, unless, over) refl,
          remove_values-IsUnique (is_over dates t) rs u,
          omega (arith, fewer, small),
        )

  -- Taking the entry of another key keeps it.
  pub remove_at-Holds :
      (key k : String) (rs : Refusals) (r : Refusal)
      → (k == key) ≡ false
      → Holds key r rs
      → Holds key r (remove_at k rs)
  remove_at-Holds key k rs r apart (there, u, small) = (
    value_at-remove_other key k rs apart ∙ there,
    remove_at-IsUnique k rs u,
    omega (arith, length-remove_at k rs, small),
  )

  has_refusal_test :
      (k : String) (t : ℕ) (rs : Refusals)
      → t ≤ dates.last
      → has_refusal dates k t rs
        ≡ test_refusal dates k t
            (sweep_refusals dates t rs)
            (value_at k (sweep_refusals dates t rs))
  unfolding has_refusal
  has_refusal_test k t rs now =
      ap (λ o. has_refusal_at dates k o (sweep_refusals dates t rs)) (dates.timestamp t now)

  -- A refusal that is in a small map is found until it expires, and stays in it.
  pub has_refusal_found :
      (key : String) (t : ℕ) (rs : Refusals) (r : Refusal)
      → t ≤ dates.last
      → r.expires_at ≤ dates.last
      → t < r.expires_at
      → Holds key r rs
      → ((has_refusal dates key t rs).0 ≡ true) × Holds key r (has_refusal dates key t rs).1
  has_refusal_found key t rs r now low late holds =
      let swept = sweep_refusals dates t rs in
      let kept = sweep-Holds key t rs r now low late holds in
      let over = is_over_later t r low late in
      let same : test_refusal dates key t swept (value_at key swept) ≡ (true, swept) =
        rw (kept.0, test_refusal, over) refl in
      rw (has_refusal_test key t rs now, same) (refl, kept)

  tested-Holds :
      (key k : String) (t : ℕ) (rs : Refusals) (r : Refusal) (o : Option Refusal)
      → (k == key) ≡ false
      → Holds key r rs
      → Holds key r (test_refusal dates k t rs o).1
  tested-Holds key k t rs r none apart holds = holds
  tested-Holds key k t rs r (some other) apart holds = elim (Bool-cases (is_over dates t other)) [
    | inl over ↦ rw over (remove_at-Holds key k rs r apart holds)
    | inr fresh ↦ rw fresh holds
  ]

  -- The test of another key keeps it too.
  pub has_refusal-Holds :
      (key k : String) (t : ℕ) (rs : Refusals) (r : Refusal)
      → t ≤ dates.last
      → r.expires_at ≤ dates.last
      → t < r.expires_at
      → Holds key r rs
      → Holds key r (has_refusal dates k t rs).1
  has_refusal-Holds key k t rs r now low late holds = elim (Bool-cases (k == key)) [
    | inl mine ↦ rw ((eq_iff k key).0 mine) (has_refusal_found key t rs r now low late holds).1
    | inr apart ↦
        rw (has_refusal_test k t rs now)
          (tested-Holds key k t _ r _ apart (sweep-Holds key t rs r now low late holds))
  ]

  -- A refusal of another key that fits into the map keeps it.
  pub cache_other-Holds :
      (key k account : String) (t : ℕ) (rs : Refusals) (r : Refusal)
      → (k == key) ≡ false
      → t ≤ dates.last
      → r.expires_at ≤ dates.last
      → t < r.expires_at
      → length (cache_refusal dates k account t rs) ≤ max_keys
      → Holds key r rs
      → Holds key r (cache_refusal dates k account t rs)
  unfolding cache_refusal
  cache_other-Holds key k account t rs r apart now low late small holds =
      put (dates.expires_after failure_ms t) (sweep_refusals dates t rs) small
        (sweep-Holds key t rs r now low late holds)
    where
      put :
          (o : Option ℕ) (swept : Refusals)
          → length (put_refusal dates k account o swept) ≤ max_keys
          → Holds key r swept
          → Holds key r (put_refusal dates k account o swept)
      put none swept fits kept = remove_at-Holds key k swept r apart kept
      put (some e) swept fits kept =
          (value_at-put_other key k _ swept apart ∙ kept.0, put_at-IsUnique k _ swept kept.1, fits)

  pub cache_refusal-Holds :
      (key account : String) (now e : ℕ) (rs : Refusals)
      → now ≤ dates.last
      → dates.expires_after failure_ms now ≡ some e
      → IsUnique rs
      → length (cache_refusal dates key account now rs) ≤ max_keys
      → Holds key
          (record { account_id = account; expires_at = e })
          (cache_refusal dates key account now rs)
  unfolding cache_refusal sweep_refusals
  cache_refusal-Holds key account now e rs n expires u small =
      let swept = drop_oldest max_keys (remove_values (is_over dates now) rs) in
      let r : Refusal = record { account_id = account; expires_at = e } in
      let kept : cache_refusal dates key account now rs ≡ put_at key r swept =
        rw (expires, dates.timestamp now n) refl in
      let fits : length (put_at key r swept) ≤ max_keys = rw (← kept) small in
      rw kept (
        value_at-put_at key r swept,
        put_at-IsUnique key r swept
            (drop_oldest-IsUnique max_keys _ (remove_values-IsUnique (is_over dates now) rs u)),
        fits,
      )

  pub unrefused-true :
      (key account : String) (t : ℕ) (x : Bool × Refusals) (s : Caches)
      → x.0 ≡ true
      → unrefused dates key account t x s ≡ (answered invalid, record s { refusals = x.1 })
  unfolding unrefused
  unrefused-true key account t (true, rs) s e = refl
  unrefused-true key account t (false, rs) s e = absurd (cc)
