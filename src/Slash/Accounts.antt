-- ===== src/Slash/Accounts.antt =====
-- src/mattermost/slash-state.ts: which handler a callback may reach.
use openclaw_mattermost_cust.Base.{
  ℕ, ◌<◌, ◌≡◌, Bool, false, String, Option, none, some, List, [], ◌∷◌, any, eqb, eqb_iff,
  if◌then◌else◌, or_else, inl, inr, Bool-cases, arith, All,
}
use openclaw_mattermost_cust.Base.Table.{delete_where}
use openclaw_mattermost_cust.Base.Text.{is_empty, truthy}
use openclaw_mattermost_cust.Slash.Commands.{
  Payload, Reader, includes, parse_payload, normalize_trigger,
}
use openclaw_mattermost_cust.Slash.Routing.{
  field_of, Account, Accounts, is_account, set_account, activate, drop_account, deactivate, Source,
  by_token, by_command, Match, no_match, single, ambiguous, handlers_where, match_of, has_token,
  resolve_for_token, resolve_for_command, Body, full, timed_out, too_large, Response, handled,
  route_among, response_of, command_match, first_match, token_match, route_read, only_handler,
  route, Call, activates, deactivates, step, run,
}

abbrev pub runs : ℕ → Account → Bool
runs h a = elim a.handler [ none ↦ false | some k ↦ eqb k h ]

-- A handler that belongs to no account, and that no activation will make again.
pub record IsRetired (h : ℕ) (s : Accounts) : Type 0 where
  pub absent : All (λ a. runs h a ≡ false) s.accounts
  pub old : h < s.next_handler

pub All-set_account :
    (P : Account → Type 0) (a : Account) (bs : List Account)
    → P a
    → All P bs
    → All P (set_account a bs)
All-set_account P a [] p h = (p, tt)
All-set_account P a (b ∷ bs) p h = ground (arith, All-set_account P a bs p h.1)

pub All-deleted :
    (P : Account → Type 0) (p : Account → Bool) (bs : List Account)
    → All P bs
    → All P (delete_where p bs)
All-deleted P p [] h = tt
All-deleted P p (b ∷ bs) h = ground (arith, All-deleted P p bs h.1)

drop_account-IsRetired :
    (h : ℕ) (id : String) (s : Accounts) → IsRetired h s → IsRetired h (drop_account id s)
drop_account-IsRetired h id s r = elim (Bool-cases (any (is_account id) s.accounts)) [
  | inl one ↦ rw one (record {
    absent = All-deleted (λ a. runs h a ≡ false) (is_account id) s.accounts r.absent;
    old = r.old;
  })
  | inr missing ↦ rw missing r
]

step-IsRetired : (h : ℕ) (c : Call) (s : Accounts) → IsRetired h s → IsRetired h (step c s)
unfolding step activate deactivate
step-IsRetired h (activates id tokens commands) s r = record {
  absent =
      All-set_account (λ a. runs h a ≡ false) _ s.accounts
        (ground (arith, eqb_iff s.next_handler h, r.old)) r.absent;
  old = omega (arith, r.old);
}
step-IsRetired h (deactivates id) s r = elim (Bool-cases (truthy id)) [
  | inl one ↦ rw one (drop_account-IsRetired h (or_else id "") s r)
  | inr everyone ↦ rw everyone (record { absent = tt; old = r.old })
]

pub run-IsRetired : (h : ℕ) (cs : List Call) (s : Accounts) → IsRetired h s → IsRetired h (run cs s)
unfolding run
run-IsRetired h [] s r = r
run-IsRetired h (c ∷ cs) s r = run-IsRetired h cs (step c s) (step-IsRetired h c s r)

-- A match is of a handler that some account has.
handlers_where-absent :
    (h : ℕ) (p : Account → Bool) (bs : List Account)
    → All (λ a. runs h a ≡ false) bs
    → All (λ e. eqb e.1 h ≡ false) (handlers_where p bs)
handlers_where-absent h p [] r = tt
handlers_where-absent h p (b ∷ bs) r = ground (arith, handlers_where-absent h p bs r.1)

-- What a match and a response lead to: not the handler.
abbrev Avoids : ℕ → Match → Type 0
Avoids h no_match = Unit
Avoids h (single source k id) = eqb k h ≡ false
Avoids h (ambiguous source ids) = Unit

match_of-Avoids :
    (h : ℕ) (source : Source) (es : List (String × ℕ))
    → All (λ e. eqb e.1 h ≡ false) es
    → Avoids h (match_of source es)
match_of-Avoids h source [] r = tt
match_of-Avoids h source (e ∷ []) r = r.0
match_of-Avoids h source (e ∷ f ∷ es) r = tt

abbrev pub Spares : ℕ → Response → Type 0
Spares h (handled k body) = eqb k h ≡ false
Spares h _ = Unit

response_of-Spares :
    (h : ℕ) (m : Match) (body : String) → Avoids h m → Spares h (response_of m body)
response_of-Spares h no_match body a = tt
response_of-Spares h (single source k id) body a = a
response_of-Spares h (ambiguous source ids) body a = tt

first_match-Avoids : (h : ℕ) (m n : Match) → Avoids h m → Avoids h n → Avoids h (first_match m n)
first_match-Avoids h no_match n a b = b
first_match-Avoids h (single source k id) n a b = a
first_match-Avoids h (ambiguous source ids) n a b = tt

module _ (h : ℕ) (s : Accounts) (r : IsRetired h s) where
  handlers-Avoids :
      (source : Source) (p : Account → Bool)
      → Avoids h (match_of source (handlers_where p s.accounts))
  handlers-Avoids source p =
      match_of-Avoids h source (handlers_where p s.accounts)
        (handlers_where-absent h p s.accounts r.absent)

  token_match-Avoids : (token : Option String) → Avoids h (token_match token s)
  unfolding resolve_for_token
  token_match-Avoids token = elim (Bool-cases (truthy token)) [
    | inl given ↦ rw given (handlers-Avoids by_token (has_token (or_else token "")))
    | inr missing ↦ rw missing tt
  ]

  command_match-Avoids : (p : Option Payload) → Avoids h (command_match p s)
  unfolding resolve_for_command
  command_match-Avoids none = tt
  command_match-Avoids (some p) = elim (Bool-cases (is_empty (normalize_trigger p.command))) [
    | inl nothing ↦ rw nothing tt
    | inr named ↦ rw named (handlers-Avoids by_command _)
  ]

  route_read-Spares :
      (json form : Reader) (content_type : String) (body : Body)
      → Spares h (route_read json form content_type body s)
  route_read-Spares json form content_type timed_out = tt
  route_read-Spares json form content_type too_large = tt
  route_read-Spares json form content_type (full body) =
      let fields = if includes "application/json" content_type then json body else form body in
      let token = field_of fields "token" in
      let payload = parse_payload json form body (some content_type) in
      response_of-Spares h (first_match (token_match token s) (command_match payload s)) body (
        first_match-Avoids h (token_match token s) (command_match payload s)
          (token_match-Avoids token) (command_match-Avoids payload))

  only_handler-Spares :
      (k : Option ℕ)
      → elim k [ none ↦ false | some n ↦ eqb n h ] ≡ false
      → Spares h (only_handler k)
  only_handler-Spares none e = tt
  only_handler-Spares (some k) e = e

  route_among-Spares :
      (bs : List Account) (json form : Reader) (content_type : Option String) (body : Body)
      → All (λ a. runs h a ≡ false) bs
      → Spares h (route_among bs json form content_type body s)
  route_among-Spares [] json form content_type body a = tt
  route_among-Spares (b ∷ []) json form content_type body a = only_handler-Spares b.handler a.0
  route_among-Spares (b ∷ c ∷ bs) json form content_type body a =
      route_read-Spares json form (or_else content_type "") body

pub route-Spares :
    (h : ℕ) (s : Accounts) (json form : Reader) (content_type : Option String) (body : Body)
    → IsRetired h s
    → Spares h (route json form content_type body s)
unfolding route
route-Spares h s json form content_type body r =
    route_among-Spares h s r s.accounts json form content_type body r.absent
