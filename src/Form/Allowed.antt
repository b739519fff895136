-- ===== src/Form/Allowed.antt =====
-- src/mattermost/form-schema.ts: what a form allows as the answer to a matrix, written without the
-- tests of the parser.
use mathlib.Core.List.{Memᴰ}
use mathlib.Core.List.Memᴰ
use openclaw_mattermost_cust.Base.{
  ◌≤◌, ◌≡◌, ◌≢◌, refl, ap, sym, ◌⊎◌, inl, inr, Bool, true, false, not, String, ◌==◌, eq_iff,
  Option-cases, List, [], ◌∷◌, length, every, find, ok, arith, All, All-mono, Bool-cases,
  find_sound, find-Mem,
}
use openclaw_mattermost_cust.Base.Text.{is_empty, any-Mem}
use openclaw_mattermost_cust.Form.Selection.{
  Submitted, has, distinct, is_nil, Selected, keys, answered, all_answered, parse_matrix_selection,
}
use openclaw_mattermost_cust.Form.Matrix.{IsEntry, parse_matrix_selection-IsSelection}

-- No two of the texts are equal.
abbrev pub Differ : List String → Type 0
Differ [] = Unit
Differ (x ∷ xs) = All (λ y. x ≢ y) xs × Differ xs

-- A row of the form that has a name, with columns of the form: one or more, no two equal, and at most
-- one where `multiple` is false.
abbrev pub IsAllowed : List String → List String → Bool → String × List String → Type 0
IsAllowed rows columns multiple (row, cols) =
    (row ≢ "")
    × Memᴰ row rows
    × (cols ≢ [])
    × All (λ c. Memᴰ c columns) cols
    × Differ cols
    × ((multiple ≡ true) ⊎ (length cols ≤ 1))

-- The selection has columns for the row.
abbrev pub IsAnswered : Selected → String → Type 0
IsAnswered selected row = (cols : List String) × Memᴰ (row, cols) selected × (cols ≢ [])

pub record IsAnswer (rows columns : List String) (multiple optional : Bool) (selected : Selected)
    : Type 0 where
  pub each : All (IsAllowed rows columns multiple) selected
  pub once : Differ (keys selected)
  pub complete : (optional ≡ true) ⊎ All (IsAnswered selected) rows

every-All : (p : String → Bool) (xs : List String) → every p xs ≡ true → All (λ x. p x ≡ true) xs
every-All p [] e = tt
every-All p (x ∷ xs) e = ground (arith, every-All p xs)

absent-All : (xs : List String) (x : String) → has xs x ≡ false → All (λ y. x ≢ y) xs
absent-All [] x e = tt
absent-All (y ∷ xs) x e =
    (λ same. let hit = (eq_iff y x).1 (sym same) in ground arith, absent-All xs x (ground arith))

distinct-Differ : (xs : List String) → distinct xs ≡ true → Differ xs
distinct-Differ [] e = tt
distinct-Differ (x ∷ xs) e = (absent-All xs x (ground arith), distinct-Differ xs (ground arith))

not_empty : (s : String) → is_empty s ≡ false → s ≢ ""
not_empty s e same = let no : is_empty s ≡ true = rw same refl in absurd (cc)

not_nil : (xs : List String) → is_nil xs ≡ false → xs ≢ []
not_nil xs e same = let no : is_nil xs ≡ true = rw same refl in absurd (cc)

entry-IsAllowed :
    (rows columns : List String) (multiple : Bool) (e : String × List String)
    → IsEntry rows columns multiple e
    → IsAllowed rows columns multiple e
entry-IsAllowed rows columns multiple (row, cols) valid = (
  not_empty row (ground arith),
  any-Mem row rows (ground arith),
  not_nil cols (ground arith),
  All-mono (λ c found. any-Mem c columns found) cols (every-All (has columns) cols (ground arith)),
  distinct-Differ cols (ground arith),
  elim (Bool-cases multiple) [ inl any_number ↦ inl any_number | inr one ↦ inr (ground arith) ],
)

answered-IsAnswered :
    (selected : Selected) (row : String) → answered selected row ≡ true → IsAnswered selected row
answered-IsAnswered selected row e = elim (Option-cases (find (λ x. x.0 == row) selected)) [
  | inl absent ↦ let no : answered selected row ≡ false = rw (answered, absent) refl in absurd (cc)
  | inr (x, found) ↦
      let full : answered selected row ≡ not (is_nil x.1) = rw (answered, found) refl in
      let named = (eq_iff x.0 row).0 (find_sound (λ y. y.0 == row) selected x found) in
      (
        x.1,
        Memᴰ.cast (ap (λ r. (r, x.1)) (sym named)) (find-Mem (λ y. y.0 == row) selected x found),
        not_nil x.1 (ground arith),
      )
]

all_answered-All :
    (rows : List String) (optional : Bool) (selected : Selected)
    → all_answered rows optional selected ≡ true
    → (optional ≡ true) ⊎ All (IsAnswered selected) rows
all_answered-All rows true selected e = inl refl
all_answered-All rows false selected e =
    inr (All-mono (answered-IsAnswered selected) rows (every-All (answered selected) rows e))

-- A selection that is accepted names no row twice, and only rows and columns of the form: each row that
-- it names has a name that is not empty, and one or more columns, no two equal, and at most one where
-- `multiple` is false. Unless the answer is optional, the selection has columns for every row of the form.
pub parse_matrix_selection_sound :
    (value : Submitted) (rows columns : List String) (multiple optional : Bool)
    (selected : Selected)
    → parse_matrix_selection value rows columns multiple optional ≡ ok selected
    → IsAnswer rows columns multiple optional selected
parse_matrix_selection_sound value rows columns multiple optional selected accepted =
    let valid =
      parse_matrix_selection-IsSelection value rows columns multiple optional selected accepted in
    record {
      each = All-mono (entry-IsAllowed rows columns multiple) selected valid.each;
      once = distinct-Differ (keys selected) valid.once;
      complete = all_answered-All rows optional selected valid.answers;
    }
