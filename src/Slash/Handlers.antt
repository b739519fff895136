-- ===== src/Slash/Handlers.antt =====
-- src/mattermost/slash-state.ts: a handler whose account is deactivated.
use openclaw_mattermost_cust.Base.{
  ℕ, ltb, subst, ◌<◌, ◌≤◌, ◌≡◌, refl, ◌⊎◌, Bool, true, false, ◌&&◌, String, eq_iff, Option, some,
  List, [], ◌∷◌, any, eqb, eqb_iff, or_else, inl, inr, Bool-cases, arith, All, All-mono,
}
use openclaw_mattermost_cust.Base.Table.{delete_where}
use openclaw_mattermost_cust.Base.Text.{truthy}
use openclaw_mattermost_cust.Slash.Commands.{Reader}
use openclaw_mattermost_cust.Slash.Routing.{
  Account, Accounts, no_accounts, is_account, activate, drop_account, deactivate, Body, route, Call,
  activates, deactivates, step, run,
}
use openclaw_mattermost_cust.Slash.Accounts.{
  runs, IsRetired, All-set_account, All-deleted, run-IsRetired, Spares, route-Spares,
}

-- Every handler belongs to one account id at most, and the numbers to come belong to none.
record IsValid (s : Accounts) : Type 0 where
  pub sole :
      (h : ℕ) → (id : String) × All (λ a. (runs h a ≡ false) ⊎ (a.account_id ≡ id)) s.accounts
  pub fresh : (h : ℕ) → s.next_handler ≤ h → All (λ a. runs h a ≡ false) s.accounts

drop_account-IsValid : (id : String) (s : Accounts) → IsValid s → IsValid (drop_account id s)
drop_account-IsValid id s v = elim (Bool-cases (any (is_account id) s.accounts)) [
  | inl one ↦ rw one (record {
    sole = λ h. ((v.sole h).0, All-deleted _ (is_account id) s.accounts (v.sole h).1);
    fresh =
        λ h late. All-deleted (λ a. runs h a ≡ false) (is_account id) s.accounts (v.fresh h late);
  })
  | inr missing ↦ rw missing v
]

step-IsValid : (c : Call) (s : Accounts) → IsValid s → IsValid (step c s)
unfolding step activate deactivate
step-IsValid (activates id tokens commands) s v = record {
  sole = λ h. elim (Bool-cases (eqb s.next_handler h)) [
    | inl made ↦ (
      id,
      All-set_account _ _ s.accounts (inr refl) (
          All-mono (λ a e. inl e) s.accounts
            (v.fresh h (ground (arith, eqb_iff s.next_handler h, made)))),
    )
    | inr other ↦ ((v.sole h).0, All-set_account _ _ s.accounts (inl other) (v.sole h).1)
  ];
  fresh = λ h late.
      All-set_account (λ a. runs h a ≡ false) _ s.accounts
        (ground (arith, eqb_iff s.next_handler h, late)) (v.fresh h (omega (arith, late)));
}
step-IsValid (deactivates id) s v = elim (Bool-cases (truthy id)) [
  | inl one ↦ rw one (drop_account-IsValid (or_else id "") s v)
  | inr everyone ↦ rw everyone (record { sole = λ h. ("", tt); fresh = λ h late. tt })
]

run-IsValid : (cs : List Call) (s : Accounts) → IsValid s → IsValid (run cs s)
unfolding run
run-IsValid [] s v = v
run-IsValid (c ∷ cs) s v = run-IsValid cs (step c s) (step-IsValid c s v)

abbrev runs_for : String → ℕ → List Account → Bool
runs_for id h = any (λ a. is_account id a && runs h a)

sole_id :
    (id owner : String) (h : ℕ) (bs : List Account)
    → All (λ a. (runs h a ≡ false) ⊎ (a.account_id ≡ owner)) bs
    → runs_for id h bs ≡ true
    → owner ≡ id
sole_id id owner h [] all e = absurd (cc)
sole_id id owner h (b ∷ bs) all e =
    ground (arith, eq_iff b.account_id id, sole_id id owner h bs all.1)

All-without :
    (id : String) (h : ℕ) (bs : List Account)
    → All (λ a. (runs h a ≡ false) ⊎ (a.account_id ≡ id)) bs
    → All (λ a. runs h a ≡ false) (delete_where (is_account id) bs)
All-without id h [] all = tt
All-without id h (b ∷ bs) all = ground (arith, eq_iff b.account_id id, All-without id h bs all.1)

absent_runs_for :
    (id : String) (h : ℕ) (bs : List Account)
    → All (λ a. runs h a ≡ false) bs
    → runs_for id h bs ≡ false
absent_runs_for id h [] all = refl
absent_runs_for id h (b ∷ bs) all = ground (arith, absent_runs_for id h bs all.1)

none_runs_for :
    (id : String) (h : ℕ) (bs : List Account)
    → any (is_account id) bs ≡ false
    → runs_for id h bs ≡ false
none_runs_for id h [] e = refl
none_runs_for id h (b ∷ bs) e = ground (arith, none_runs_for id h bs)

module _ (s : Accounts) (v : IsValid s) (h : ℕ) where
  older : (id : String) → runs_for id h s.accounts ≡ true → h < s.next_handler
  older id e = elim (Bool-cases (ltb h s.next_handler)) [
    | inl below ↦ ground arith
    | inr above ↦
        absurd (ground (arith, absent_runs_for id h s.accounts (v.fresh h (ground arith))))
  ]

  drop_account-retires :
      (id : String) → runs_for id h s.accounts ≡ true → IsRetired h (drop_account id s)
  drop_account-retires id e = elim (Bool-cases (any (is_account id) s.accounts)) [
    | inl one ↦ rw one (record {
      absent = All-without id h s.accounts (
          subst (λ owner. All (λ a. (runs h a ≡ false) ⊎ (a.account_id ≡ owner)) s.accounts)
            (sole_id id (v.sole h).0 h s.accounts (v.sole h).1 e) (v.sole h).1);
      old = older id e;
    })
    | inr missing ↦ absurd (ground (arith, none_runs_for id h s.accounts missing))
  ]

  deactivate-retires :
      (id : String) → runs_for id h s.accounts ≡ true → IsRetired h (deactivate (some id) s)
  unfolding deactivate
  deactivate-retires id e = elim (Bool-cases (truthy (some id))) [
    | inl one ↦ rw one (drop_account-retires id e)
    | inr everyone ↦ rw everyone (record { absent = tt; old = older id e })
  ]

-- Once an account that has handler `h` is deactivated, no request is given to `h` any more, however
-- the accounts were activated and deactivated before and are afterwards, and whatever the request
-- is and its body parses to.
pub deactivate-Spares :
    (before after : List Call) (id : String) (h : ℕ) (json form : Reader)
    (content_type : Option String) (body : Body)
    → runs_for id h (run before no_accounts).accounts ≡ true
    → Spares h (
        route json form content_type body
          (run after (deactivate (some id) (run before no_accounts))))
deactivate-Spares before after id h json form content_type body e =
    let start : IsValid no_accounts = record { sole = λ k. ("", tt); fresh = λ k late. tt } in
    let s = run before no_accounts in
    route-Spares h _ json form content_type body (
      run-IsRetired h after (deactivate (some id) s)
        (deactivate-retires s (run-IsValid before no_accounts start) h id e))
