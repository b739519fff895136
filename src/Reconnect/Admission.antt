-- ===== src/Reconnect/Admission.antt =====
-- src/mattermost/session-admission-retry.ts: one retry of a session admission that lost a race.
use Prim.Native.Char.{code}
use Prim.Native.String
use Prim.Native.String.{[], ◌∷◌}
use text.Mathlib.TextEquality.{Char-path}
use text.Mathlib.TextLemmas.{nil-append, cons-append, cons≢nil}
use openclaw_mattermost_cust.Base.{
  ℕ, ◌≡◌, refl, ◌≢◌, ◌⊎◌, sym, ap, ◌↔◌, Bool-cases, Option-cases, ◌∙◌, inl, inr, Bool, true, false,
  not, ◌&&◌, ◌||◌, String, ◌==◌, eq_iff, Option, none, some, arith, eqb, if◌then◌else◌, Result, ok,
  err,
}

abbrev pub strip_prefix : String → String → Option String
strip_prefix [] s = some s
strip_prefix (c ∷ p) [] = none
strip_prefix (c ∷ p) (d ∷ s) = if eqb (code c) (code d) then strip_prefix p s else none

-- What `.` does not match.
abbrev pub is_break : ℕ → Bool
is_break c = eqb c 10 || eqb c 13 || eqb c 0x2028 || eqb c 0x2029

abbrev pub changed_tail : String
changed_tail = "\" changed while starting work. Retry."

abbrev pub deleted_tail : String
deleted_tail = "\" was deleted while starting work. Retry."

abbrev pub session_head : String
session_head = "Session \""

-- `.+` and then one of the two tails, to the end of the text; `seen` says that `.+` has matched.
unfoldable pub some_then_tail : Bool → String → Bool
some_then_tail seen [] = false
some_then_tail seen (c ∷ s) =
    (seen && ((c ∷ s) == changed_tail || (c ∷ s) == deleted_tail))
    || (not (is_break (code c)) && some_then_tail true s)

-- `SESSION_ADMISSION_RACE_PATTERN.test`.
unfoldable pub matches_race_pattern : String → Bool
matches_race_pattern s = elim (strip_prefix session_head s) [
  | none ↦ false
  | some rest ↦ some_then_tail false rest
]

-- A thrown value: an `Error` with its message, or anything else.
pub data Thrown : Type 0 where
  an_error : String → Thrown
  other : Thrown

unfoldable pub is_race_error : Thrown → Bool
is_race_error (an_error message) = matches_race_pattern message
is_race_error other = false

-- The number of runs, and the result: `second` is what the second run returns or throws.
unfoldable pub with_retry {ℓ} :
    {A : Type ℓ} → Result Thrown A → Bool → Result Thrown A → ℕ × Result Thrown A
with_retry (ok a) started second = (1, ok a)
with_retry (err e) started second =
    if started || not (is_race_error e) then (1, err e) else (2, second)

abbrev pub NoBreak : String → Type 0
NoBreak [] = Unit
NoBreak (c ∷ s) = (is_break (code c) ≡ false) × NoBreak s

abbrev pub IsTail : String → Type 0
IsTail s = (s ≡ changed_tail) ⊎ (s ≡ deleted_tail)

strip_prefix_sound : (p s r : String) → strip_prefix p s ≡ some r → s ≡ String.◌++◌ p r
strip_prefix_sound [] s r e = rw nil-append (ground arith)
strip_prefix_sound (c ∷ p) [] r e = absurd (cc)
strip_prefix_sound (c ∷ p) (d ∷ s) r e =
    let same : code c ≡ code d = ground arith in
    let rest : s ≡ String.◌++◌ p r = strip_prefix_sound p s r (ground arith) in
    rw (cons-append, Char-path c d same) (ap (λ x. d ∷ x) rest)

strip_prefix-append : (p r : String) → strip_prefix p (String.◌++◌ p r) ≡ some r
strip_prefix-append [] r = rw nil-append refl
strip_prefix-append (c ∷ p) r = rw cons-append (ground (arith, strip_prefix-append p r))

-- A match ends in a tail, and what stands before it is one line; with nothing seen, it is not
-- empty.
some_then_tail_sound :
    (seen : Bool) (s : String)
    → some_then_tail seen s ≡ true
    → (key : String) × (tail : String) × (s ≡ String.◌++◌ key tail)
      × IsTail tail
      × NoBreak key
      × (seen ≡ false → key ≢ [])
unfolding some_then_tail
some_then_tail_sound seen [] h = absurd (cc)
some_then_tail_sound seen (c ∷ s) h =
    elim (Bool-cases (seen && ((c ∷ s) == changed_tail || (c ∷ s) == deleted_tail))) [
      | inl here ↦ (
        [],
        c ∷ s,
        sym (nil-append (c ∷ s)),
        ground (arith, eq_iff (c ∷ s) changed_tail, eq_iff (c ∷ s) deleted_tail),
        tt,
        λ unseen. absurd (let no : ⊥ = ground arith in no),
      )
      | inr later ↦
          let (key, tail, split, ends, line, _) = some_then_tail_sound true s (ground arith) in
          (
            c ∷ key,
            tail,
            rw cons-append (ap (λ r. c ∷ r) split),
            ends,
            ((ground arith), line),
            λ _ e. cons≢nil e,
          )
    ]

some_then_tail_complete :
    (seen : Bool) (key tail : String)
    → IsTail tail
    → NoBreak key
    → (seen ≡ false → key ≢ [])
    → some_then_tail seen (String.◌++◌ key tail) ≡ true
unfolding some_then_tail
some_then_tail_complete false [] tail ends line h = absurd (h refl refl)
some_then_tail_complete true [] tail (inl e) line h = rw (nil-append, e) refl
some_then_tail_complete true [] tail (inr e) line h = rw (nil-append, e) refl
some_then_tail_complete seen (c ∷ key) tail ends line h =
    rw cons-append (ground (arith, some_then_tail_complete true key tail ends line.1))

-- The message of a lost race over the session key.
abbrev pub race_message : String → String → String
race_message key tail = String.◌++◌ session_head (String.◌++◌ key tail)

-- The pattern matches exactly the messages `Session "KEY" changed while starting work. Retry.` and
-- `Session "KEY" was deleted while starting work. Retry.`, with a key of one or more characters and
-- no line break.
pub matches_race_pattern_iff :
    (m : String)
    → (matches_race_pattern m ≡ true) ↔ (
        (key : String) × (tail : String) × (m ≡ race_message key tail)
        × IsTail tail
        × NoBreak key
        × (key ≢ []))
unfolding matches_race_pattern
matches_race_pattern_iff m = (sound, complete)
  where
    sound :
        matches_race_pattern m ≡ true
        → (key : String) × (tail : String) × (m ≡ race_message key tail)
          × IsTail tail
          × NoBreak key
          × (key ≢ [])
    sound h = elim (Option-cases (strip_prefix session_head m)) [
      | inl bare ↦ absurd (let no : ⊥ = ground arith in no)
      | inr (rest, stripped) ↦
          let (key, tail, split, ends, line, full) =
            some_then_tail_sound false rest (ground arith) in
          (
            key,
            tail,
            strip_prefix_sound session_head m rest stripped ∙ ap (String.◌++◌ session_head) split,
            ends,
            line,
            full refl,
          )
    ]

    complete :
        (key : String) × (tail : String) × (m ≡ race_message key tail)
          × IsTail tail
          × NoBreak key
          × (key ≢ [])
        → matches_race_pattern m ≡ true
    complete (key, tail, e, ends, line, full) =
        rw (e, strip_prefix-append session_head (String.◌++◌ key tail))
          (some_then_tail_complete false key tail ends line (λ _. full))

-- The work runs a second time exactly if the first run threw an `Error` with a message of a lost
-- race while nothing had started; then the second run's outcome is returned, and otherwise the
-- first one's.
pub with_retry_lem {ℓ} :
    {A : Type ℓ} (first second : Result Thrown A) (started : Bool)
    → (((with_retry first started second).0 ≡ 2) ↔ (
        (m : String) × (first ≡ err (an_error m))
        × (matches_race_pattern m ≡ true)
        × (started ≡ false)))
      × ((with_retry first started second).1
          ≡ (if eqb (with_retry first started second).0 2 then second else first))
unfolding with_retry is_race_error
with_retry_lem (ok a) second started =
    (((λ e. absurd (omega arith)), λ (m, e, _, _). absurd (cc)), refl)
with_retry_lem (err other) second true =
    (((λ e. absurd (omega arith)), λ (m, e, _, _). absurd (cc)), refl)
with_retry_lem (err other) second false =
    (((λ e. absurd (omega arith)), λ (m, e, _, _). absurd (cc)), refl)
with_retry_lem (err (an_error m)) second true =
    (((λ e. absurd (omega arith)), λ (_, _, _, s). absurd (cc)), refl)
with_retry_lem (err (an_error m)) second false = elim (Bool-cases (matches_race_pattern m)) [
  | inl hit ↦ rw hit (((λ _. (m, refl, hit, refl)), λ _. refl), refl)
  | inr miss ↦ rw miss (((λ e. absurd (omega arith)), λ (x, e, h, _). absurd (cc)), refl)
]
