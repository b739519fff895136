-- ===== src/Slash/Sending.antt =====
-- src/mattermost/slash-commands.ts: what a computation sends.
use openclaw_mattermost_cust.Base.{
  ◌≡◌, refl, Bool, true, false, not, ◌&&◌, String, ◌==◌, List, [], ◌∷◌, any, if◌then◌else◌, Result,
  ok, err, inl, inr, Bool-cases, arith, All, All-append, All-mono,
}
use openclaw_mattermost_cust.Slash.Requests.{
  Command, Registered, Request, reads, creates, updates, deletes, Failure, Server, M, continue,
  skip_failure, is_owned, select_commands, is_nil,
}
use openclaw_mattermost_cust.Slash.Registration.{send}

-- What may be sent. A creation is of a trigger that no listed command has; an update is of a listed
-- command of the creator, with its trigger; a deletion is of a listed command of the creator which
-- may be deleted.
abbrev pub IsAllowed : String → List Command → (Command → Bool) → Request → Type 0
IsAllowed creator existing stale (reads id) = Unit
IsAllowed creator existing stale (creates s) = any (λ d. d.trigger == s.trigger) existing ≡ false
IsAllowed creator existing stale (updates id s) =
    any (λ d. d.id == id && (d.trigger == s.trigger && is_owned creator d)) existing ≡ true
IsAllowed creator existing stale (deletes id) =
    any (λ d. d.id == id && (is_owned creator d && stale d)) existing ≡ true

-- Sending keeps the requests within a predicate.
abbrev pub Sends : (Request → Type 0) → {A : Type 0} → M A → Type 0
Sends P m = (sent : List Request) → All P sent → All P (m sent).1

module _ (P : Request → Type 0) where
  pub Sends-continue :
      {A B : Type 0} (f : A → M B) (x : Result Failure A × List Request)
      → ((a : A) → Sends P (f a))
      → All P x.1
      → All P (continue x f).1
  Sends-continue f (ok a, later) next h = next a later h
  Sends-continue f (err e, later) next h = h

  pub Sends-if :
      {A : Type 0} (b : Bool) (m n : M A) → Sends P m → Sends P n → Sends P (if b then m else n)
  Sends-if true m n h k = h
  Sends-if false m n h k = k

  pub Sends-send : (server : Server) (r : Request) → P r → Sends P (send server r)
  Sends-send server r p sent h = All-append P sent (r ∷ []) h (p, tt)

pub select_head :
    (p q : Command → Bool) (xs rest : List Command) (c : Command)
    → select_commands p xs ≡ c ∷ rest
    → q c ≡ true
    → any (λ d. q d && p d) xs ≡ true
select_head p q [] rest c e h = absurd (cc)
select_head p q (x ∷ xs) rest c e h = elim (Bool-cases (p x)) [
  | inl here ↦ let same : x ≡ c = ground (arith, here) in rw (here, same, h) (ground arith)
  | inr later ↦ ground (arith, select_head p q xs rest c)
]

pub select_none :
    (p q : Command → Bool) (xs : List Command)
    → is_nil (select_commands (λ d. p d && q d) xs) ≡ true
    → is_nil (select_commands (λ d. p d && not (q d)) xs) ≡ true
    → any p xs ≡ false
select_none p q [] h k = refl
select_none p q (x ∷ xs) h k = ground (arith, select_none p q xs)

pub any_self :
    (cs : List Command) → All (λ c. (q : Command → Bool) → q c ≡ true → any q cs ≡ true) cs
any_self [] = tt
any_self (c ∷ cs) =
    ((λ q h. ground arith), All-mono (λ d same q h. ground (arith, same q h)) cs (any_self cs))

pub skip_failure-Sends :
    (P : Request → Type 0) (x : Result Failure Registered × List Request)
    → All P x.1
    → All P (skip_failure x).1
skip_failure-Sends P (ok r, later) h = h
skip_failure-Sends P (err e, later) h = h
