-- ===== src/Card/Native.antt =====
-- src/mattermost/task-progress-card.ts: `renderNativeProgressMarkdownForMattermost`.
use Prim.Native.Char.{code}
use Prim.Native.String.{[], ◌∷◌}
use openclaw_mattermost_cust.Base.{
  ℕ, Bool, true, false, not, ◌&&◌, ◌||◌, String, Option, none, some, [], ◌∷◌, or_else, eqb, leb,
  if◌then◌else◌,
}
use openclaw_mattermost_cust.Base.Text.{is_empty, trim, trim_start, lower_code, concat}
use openclaw_mattermost_cust.Card.Lines.{nonempty}

-- The simple case folding of the flags `iu`, at ASCII letters.
abbrev pub fold_code : ℕ → ℕ
fold_code c = if eqb c 0x17f then 115 else if eqb c 0x212a then 107 else lower_code c

-- `\w` under the flags `iu`.
abbrev pub is_word_code : ℕ → Bool
is_word_code c =
    (leb 97 (fold_code c) && leb (fold_code c) 122) || (leb 48 c && leb c 57) || eqb c 95

-- The text after a prefix of small letters, in any case.
unfoldable pub after_folded : String → String → Option String
after_folded [] s = some s
after_folded (c ∷ p) [] = none
after_folded (c ∷ p) (d ∷ s) = if eqb (code c) (fold_code (code d)) then after_folded p s else none

abbrev pub at_boundary : String → Bool
at_boundary [] = true
at_boundary (c ∷ s) = not (is_word_code (code c))

-- The text before a mark and the one after it.
unfoldable pub split_at : ℕ → String → Option (String × String)
split_at mark [] = none
split_at mark (c ∷ s) =
    if eqb (code c) mark
    then some ("", s)
    else elim (split_at mark s) [ none ↦ none | some (a, b) ↦ some (c ∷ a, b) ]

-- The attributes of the progress element at the start, and the text after it.
abbrev pub element_of : String × String → Option (String × String)
element_of (attributes, rest) = elim (after_folded "</progress>" rest) [
  | none ↦ none
  | some tail ↦ some (attributes, trim_start tail)
]

abbrev pub progress_after : String → Option (String × String)
progress_after rest =
    if at_boundary rest
    then elim (split_at 62 rest) [ none ↦ none | some split ↦ element_of split ]
    else none

unfoldable pub match_progress : String → Option (String × String)
unfolding after_folded split_at trim_start
match_progress s = elim (after_folded "<progress" s) [
  | none ↦ none
  | some rest ↦ progress_after rest
]

-- The value between quotes.
abbrev pub quoted : String → Option String
quoted [] = none
quoted (c ∷ s) =
    if eqb (code c) 34 || eqb (code c) 39
    then elim (split_at (code c) s) [ none ↦ none | some (v, rest) ↦ some v ]
    else none

abbrev pub value_of : String → Option String
value_of [] = none
value_of (c ∷ s) = if eqb (code c) 61 then quoted (trim_start s) else none

abbrev pub label_here : String → Option String
label_here s = elim (after_folded "aria-label" s) [
  | none ↦ none
  | some rest ↦ value_of (trim_start rest)
]

abbrev pub first_some : Option String → Option String → Option String
first_some none b = b
first_some (some a) b = some a

-- The first label; the flag says that the character before is part of a word.
unfoldable pub find_label : Bool → String → Option String
unfolding after_folded split_at trim_start
find_label after_word [] = none
find_label after_word (c ∷ s) =
    let later = find_label (is_word_code (code c)) s in
    if after_word then later else first_some (label_here (c ∷ s)) later

abbrev pub joined_parts : String → String → String
joined_parts label remainder =
    if is_empty label
    then remainder
    else if is_empty remainder
    then concat ("**" ∷ label ∷ "**" ∷ [])
    else concat ("**" ∷ label ∷ "**\n\n" ∷ remainder ∷ [])

abbrev pub rendered_progress : String → Option (String × String) → Option String
rendered_progress markdown none = some markdown
rendered_progress markdown (some (attributes, rest)) =
    nonempty (joined_parts (trim (or_else (find_label false attributes) "")) (trim rest))

-- None stands for every value that is no text.
unfoldable pub render_native : Option String → Option String
unfolding match_progress find_label trim
render_native none = none
render_native (some value) =
    if is_empty (trim value)
    then none
    else rendered_progress (trim value) (match_progress (trim value))
