-- ===== src/Base/Text.antt =====
-- Texts as the JavaScript runtime sees them: `String.prototype.trim`, truthiness and the length in
-- UTF-16 code units.
use Prim.Native.Nat.{ℕ, ◌+◌, ◌-◌, ◌/◌, ◌%◌, Ordering}
use Prim.Native.Char.{code}
use Prim.Native.String
use Prim.Native.String.{String, [], ◌∷◌, ◌++◌}
use mathlib.Core.Path.{◌≡◌, sym}
use mathlib.Core.Logic.{inl, inr}
use mathlib.Core.List.{List, [], ◌∷◌, ◌++◌ as ◌+++◌, Memᴰ}
use native.Mathlib.Omega.{arith}
use text.Mathlib.Text.{◌==◌}
use text.Mathlib.TextEquality.{eq_iff}
use mathlib.Core.Bool.{Bool, true, false, not, ◌&&◌, ◌||◌}
use mathlib.Core.Option.{Option, none, some}
use package.openclaw_mattermost_cust.Base.Tests.{if◌then◌else◌, ltb, leb, eqb, Bool-cases}
use package.openclaw_mattermost_cust.Base.Lists.{any}

-- White space and line terminators of ECMAScript.
unfoldable pub is_space : ℕ → Bool
is_space c =
    (leb 9 c && leb c 13)
    || eqb c 32
    || eqb c 160
    || eqb c 0x1680
    || (leb 0x2000 c && leb c 0x200a)
    || eqb c 0x2028
    || eqb c 0x2029
    || eqb c 0x202f
    || eqb c 0x205f
    || eqb c 0x3000
    || eqb c 0xfeff

-- White space, each run of it one space; the flag says that a space was written last.
unfoldable pub collapse : Bool → String → String
collapse after [] = []
collapse after (c ∷ s) =
    let rest = collapse (is_space (code c)) s in
    if not (is_space (code c)) then c ∷ rest else if after then rest else " " ++ rest

abbrev pub is_empty : String → Bool
is_empty [] = true
is_empty (c ∷ s) = false

unfoldable pub trim_start : String → String
unfolding is_space
trim_start [] = []
trim_start (c ∷ s) = if is_space (code c) then trim_start s else c ∷ s

unfoldable pub trim_end : String → String
unfolding is_space
trim_end [] = []
trim_end (c ∷ s) =
    let rest = trim_end s in if is_space (code c) && is_empty rest then [] else c ∷ rest

unfoldable pub trim : String → String
unfolding trim_start trim_end
trim s = trim_end (trim_start s)

-- A text, or none, that counts as true: present and not empty.
abbrev pub truthy : Option String → Bool
truthy none = false
truthy (some []) = false
truthy (some (c ∷ s)) = true

abbrev pub nonempty_or : String → String → String
nonempty_or [] fallback = fallback
nonempty_or (c ∷ s) fallback = c ∷ s

-- `value?.trim() || fallback`.
unfoldable pub or_text : Option String → String → String
unfolding trim
or_text none fallback = fallback
or_text (some text) fallback = nonempty_or (trim text) fallback

-- The byte order of texts, which is SQLite's BINARY collation.
unfoldable pub text_le : String → String → Bool
text_le s t = elim (String.compare s t) [ Ordering.gt ↦ false | _ ↦ true ]

-- `length`: a code point above 0xffff takes two units.
unfoldable pub utf16_length : String → ℕ
utf16_length [] = 0
utf16_length (c ∷ s) = (if ltb 0xffff (code c) then 2 else 1) + utf16_length s

abbrev pub every_char : (ℕ → Bool) → String → Bool
every_char p [] = true
every_char p (c ∷ s) = p (code c) && every_char p s

-- The pieces of a template literal, one after another.
abbrev pub concat : List String → String
concat [] = ""
concat (s ∷ rest) = s ++ concat rest

abbrev pub join_onto : String → String → List String → String
join_onto separator s [] = s
join_onto separator s (t ∷ rest) = s ++ (separator ++ join_onto separator t rest)

-- `parts.join(separator)`.
unfoldable pub join : String → List String → String
join separator [] = ""
join separator (s ∷ rest) = join_onto separator s rest

abbrev pub starts_with : String → String → Bool
starts_with [] s = true
starts_with (c ∷ p) [] = false
starts_with (c ∷ p) (d ∷ s) = eqb (code c) (code d) && starts_with p s

-- The UTF-16 code units of a character: two for one above 0xffff.
abbrev pub units_of : ℕ → List ℕ
units_of c =
    if ltb 0xffff c
    then (0xd800 + (c - 0x10000) / 1024) ∷ (0xdc00 + (c - 0x10000) % 1024) ∷ []
    else c ∷ []

unfoldable pub units : String → List ℕ
units [] = []
units (c ∷ s) = units_of (code c) +++ units s

abbrev pub units_le : List ℕ → List ℕ → Bool
units_le [] ys = true
units_le (x ∷ xs) [] = false
units_le (x ∷ xs) (y ∷ ys) = ltb x y || (eqb x y && units_le xs ys)

-- The order of `sort` and `toSorted` on texts.
unfoldable pub utf16_le : String → String → Bool
unfolding units
utf16_le s t = units_le (units s) (units t)

-- An ASCII letter in lower case.
abbrev pub lower_code : ℕ → ℕ
lower_code c = if leb 65 c && leb c 90 then c + 32 else c

-- Whether a text is the other but for the case of ASCII letters.
unfoldable pub same_ignoring_case : String → String → Bool
same_ignoring_case [] [] = true
same_ignoring_case [] (d ∷ t) = false
same_ignoring_case (c ∷ s) [] = false
same_ignoring_case (c ∷ s) (d ∷ t) =
    eqb (lower_code (code c)) (lower_code (code d)) && same_ignoring_case s t

-- The characters that fit into a number of UTF-16 units.
unfoldable pub take_units : ℕ → String → String
take_units most [] = []
take_units most (c ∷ s) =
    let size = if ltb 0xffff (code c) then 2 else 1 in
    let rest = take_units (most - size) s in if leb size most then c ∷ rest else []

-- A text that is found among texts is one of them.
pub any-Mem : (s : String) (items : List String) → any (λ x. x == s) items ≡ true → Memᴰ s items
any-Mem s [] e = absurd (cc)
any-Mem s (x ∷ items) e = elim (Bool-cases (x == s)) [
  | inl hit ↦ Memᴰ.head (sym ((eq_iff x s).0 hit))
  | inr miss ↦ Memᴰ.tail (any-Mem s items (ground arith))
]
