-- ===== src/Form/Selection.antt =====
-- src/mattermost/form-schema.ts: `readSelections` and `parseMatrixSelection`. The entry of a row is
-- the text `row:column,column`.
use Prim.Native.Char.{Char, code}
use Prim.Native.String.{[], ◌∷◌, ◌++◌ as ◌+++◌}
use openclaw_mattermost_cust.Base.{
  ℕ, Bool, true, false, not, ◌&&◌, ◌||◌, String, ◌==◌, none, some, List, [], ◌∷◌, ◌++◌, map, any,
  every, find, length, eqb, leb, if◌then◌else◌, Result, ok, err, ◌>>=◌,
}
use openclaw_mattermost_cust.Base.Text.{is_empty}

-- A submitted value: an array is `texts` if all of its items are strings, and `other` otherwise.
pub data Submitted : Type 0 where
  undefined null other : Submitted
  text : String → Submitted
  texts : List String → Submitted

pub data FormError : Type 0 where
  invalid_selection invalid_matrix_selection unanswered_row : FormError

unfoldable pub read_selections : Submitted → Result FormError (List String)
read_selections undefined = ok []
read_selections null = ok []
read_selections other = err invalid_selection
read_selections (text s) = if is_empty s then ok [] else ok (s ∷ [])
read_selections (texts items) = ok items

-- One more character at the front of the first part.
abbrev pub push : Char → List String → List String
push c [] = (c ∷ "") ∷ []
push c (s ∷ rest) = (c ∷ s) ∷ rest

-- `String.prototype.split` at a separator of one character.
unfoldable pub split : ℕ → String → List String
split separator [] = "" ∷ []
split separator (c ∷ s) =
    let rest = split separator s in if eqb (code c) separator then "" ∷ rest else push c rest

abbrev pub colon : ℕ
colon = 58

abbrev pub comma : ℕ
comma = 44

-- `includes`.
abbrev pub has : List String → String → Bool
has items v = any (λ x. x == v) items

-- `new Set(items).size === items.length`.
abbrev pub distinct : List String → Bool
distinct [] = true
distinct (x ∷ xs) = not (has xs x) && distinct xs

abbrev pub is_nil {ℓ} : {A : Type ℓ} → List A → Bool
is_nil [] = true
is_nil (x ∷ xs) = false

-- `Record<string, string[]>`, in the order in which the keys were added.
abbrev pub Selected : Type 0
Selected = List (String × List String)

abbrev pub keys : Selected → List String
keys selected = map (λ e. e.0) selected

-- `const [row, raw, ...extra]`, and the columns of `raw`. A missing row counts as an empty one.
abbrev pub row_of : List String → String
row_of [] = ""
row_of (row ∷ rest) = row

abbrev pub columns_of : List String → List String
columns_of (row ∷ raw ∷ extra) = split comma raw
columns_of _ = []

abbrev pub has_extra : List String → Bool
has_extra (row ∷ raw ∷ extra) = not (is_nil extra)
has_extra _ = false

-- The columns that one row may select.
abbrev pub may_select : List String → Bool → List String → Bool
may_select columns multiple cols =
    not (is_nil cols)
    && every (has columns) cols
    && distinct cols
    && (multiple || leb (length cols) 1)

abbrev pub accepts_entry : List String → List String → Bool → Selected → List String → Bool
accepts_entry rows columns multiple selected parts =
    not (is_empty (row_of parts))
    && not (has_extra parts)
    && has rows (row_of parts)
    && not (has (keys selected) (row_of parts))
    && may_select columns multiple (columns_of parts)

unfoldable pub read_entry :
    List String → List String → Bool → Selected → String → Result FormError Selected
unfolding split
read_entry rows columns multiple selected entry =
    let parts = split colon entry in
    if accepts_entry rows columns multiple selected parts
    then ok (selected ++ (row_of parts, columns_of parts) ∷ [])
    else err invalid_matrix_selection

unfoldable pub read_entries :
    List String → List String → Bool → List String → Selected → Result FormError Selected
read_entries rows columns multiple [] selected = ok selected
read_entries rows columns multiple (entry ∷ entries) selected = do
  more ← read_entry rows columns multiple selected entry
  read_entries rows columns multiple entries more

-- `selected[row]?.length`.
abbrev pub answered : Selected → String → Bool
answered selected row = elim (find (λ e. e.0 == row) selected) [
  | none ↦ false
  | some e ↦ not (is_nil e.1)
]

abbrev pub all_answered : List String → Bool → Selected → Bool
all_answered rows optional selected = optional || every (answered selected) rows

unfoldable pub parse_matrix_selection :
    Submitted → List String → List String → Bool → Bool → Result FormError Selected
parse_matrix_selection value rows columns multiple optional = do
  entries ← read_selections value
  selected ← read_entries rows columns multiple entries []
  if all_answered rows optional selected then ok selected else err unanswered_row

-- `selected.join(",")`.
abbrev pub joined : String → List String → String
joined s [] = s
joined s (t ∷ rest) = s +++ ("," +++ joined t rest)

abbrev pub join_columns : List String → String
join_columns [] = ""
join_columns (s ∷ rest) = joined s rest

-- The canonical entry of a row, `${row}:${columns.join(",")}`.
abbrev pub entry_text : String × List String → String
entry_text (row, cols) = row +++ (":" +++ join_columns cols)
