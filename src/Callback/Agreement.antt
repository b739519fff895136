-- ===== src/Callback/Agreement.antt =====
-- src/mattermost/slash-http.ts: when the lookup confirms a token.
use openclaw_mattermost_cust.Base.{
  ℕ, ◌≡◌, refl, ◌↔◌, Bool, true, false, not, ◌||◌, String, eq_iff, eq_refl, arith, Bool-cases, inl,
  inr,
}
use openclaw_mattermost_cust.Base.Text.{is_empty}
use openclaw_mattermost_cust.Slash.Requests.{Registered}
use openclaw_mattermost_cust.Callback.Limits.{Dates}
use openclaw_mattermost_cust.Callback.Caches.{Caches}
use openclaw_mattermost_cust.Callback.Lookup.{
  Current, Lookup, found, missing, unavailable, valid, is_deleted, matches, end_validation,
}

-- The current command as it was registered.
abbrev pub Agrees : Registered → Current → Type 0
Agrees r c =
    (c.id ≡ r.id)
    × (c.team_id ≡ r.team_id)
    × (c.trigger ≡ r.trigger)
    × (c.method ≡ "P")
    × (c.url ≡ r.url)

-- The lookup has found it, not deleted, and it has the token.
abbrev pub Confirms : Registered → String → Lookup → Type 0
Confirms r token lookup =
    (c : Current) × (lookup ≡ found c)
    × (is_deleted c ≡ false)
    × Agrees r c
    × (c.token ≡ token)
    × (is_empty c.token ≡ false)

matches-Agrees : (r : Registered) (c : Current) → matches r c ≡ true → Agrees r c
matches-Agrees r c e = (
  ground (arith, e, eq_iff c.id r.id),
  ground (arith, e, eq_iff c.team_id r.team_id),
  ground (arith, e, eq_iff c.trigger r.trigger),
  ground (arith, e, eq_iff c.method "P"),
  ground (arith, e, eq_iff c.url r.url),
)

Agrees-matches : (r : Registered) (c : Current) → Agrees r c → matches r c ≡ true
Agrees-matches r c (id, team, trigger, method, url) =
    rw
      (
        id,
        team,
        trigger,
        method,
        url,
        eq_refl r.id,
        eq_refl r.team_id,
        eq_refl r.trigger,
        eq_refl r.url,
      )
      refl

Confirms-found :
    (r : Registered) (token : String) (c : Current)
    → Confirms r token (found c)
    → (is_deleted c ≡ false) × Agrees r c × (c.token ≡ token) × (is_empty c.token ≡ false)
Confirms-found r token c (d, e, kept, agrees, secret, some_token) =
    let one : c ≡ d = ground (arith, e) in rw one (kept, agrees, secret, some_token)

module _ (dates : Dates) (same : String → String → Bool)
    (equal : (a b : String) → (same a b ≡ true) ↔ (a ≡ b)) where
  -- A token is valid exactly if the lookup found the registered command as it was registered, not
  -- deleted, with that token, which is not empty.
  pub end_validation_iff :
      (key account : String) (now : ℕ) (r : Registered) (token : String) (lookup : Lookup)
      (s : Caches)
      → ((end_validation dates same key account now r token lookup s).0 ≡ valid)
        ↔ Confirms r token lookup
  unfolding end_validation
  end_validation_iff key account now r token unavailable s =
      ((λ e. absurd (cc)), (λ (c, e, _, _, _, _). absurd (cc)))
  end_validation_iff key account now r token missing s =
      ((λ e. absurd (cc)), (λ (c, e, _, _, _, _). absurd (cc)))
  end_validation_iff key account now r token (found c) s =
      elim (Bool-cases (is_deleted c || not (matches r c))) [
        | inl bad ↦ rw bad (
          (λ e. absurd (cc)),
          λ h. absurd (
              ground (
                arith,
                Confirms-found r token c h,
                Agrees-matches r c (Confirms-found r token c h).1,
                bad,
              )),
        )
        | inr good ↦ elim (Bool-cases (is_empty c.token || not (same token c.token))) [
          | inl wrong ↦
              rw (good, wrong)
                (
                  (λ e. absurd (cc)),
                  λ h.
                      absurd
                        (ground (arith, Confirms-found r token c h, equal token c.token, wrong)),
                )
          | inr right ↦
              rw (good, right)
                (
                  (λ e. (
                    c,
                    refl,
                    ground (arith, good),
                    matches-Agrees r c (ground (arith, good)),
                    ground (arith, right, equal token c.token),
                    ground (arith, right),
                  )),
                  (λ h. refl),
                )
        ]
      ]
