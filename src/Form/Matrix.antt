-- ===== src/Form/Matrix.antt =====
-- src/mattermost/form-schema.ts: what `parseMatrixSelection` accepts, and that it reads back the
-- canonical entries of every valid selection.
use Prim.Native.Char.{Char, code}
use Prim.Native.String.{[], ◌∷◌, ◌++◌ as ◌+++◌}
use mathlib.Core.List.{append-nil, append_assoc, map-append}
use text.Mathlib.TextLemmas.{nil-append, cons-append}
use openclaw_mattermost_cust.Base.{
  ℕ, ◌≡◌, refl, sym, ap, subst, ◌∙◌, inl, inr, Bool, true, false, not, ◌&&◌, ◌||◌, String, eq_iff,
  List, [], ◌∷◌, ◌++◌, map, eqb, if◌then◌else◌, ok, err, ◌>>=◌, arith, All, All-append, bind_ok,
  Bool-cases,
}
use openclaw_mattermost_cust.Base.Text.{is_empty, every_char}
use openclaw_mattermost_cust.Form.Selection.{
  Submitted, texts, unanswered_row, read_selections, split, colon, comma, has, distinct, is_nil,
  Selected, keys, row_of, columns_of, may_select, accepts_entry, read_entry, read_entries,
  all_answered, parse_matrix_selection, joined, join_columns, entry_text,
}

-- A text without the separator.
abbrev pub is_free : ℕ → String → Bool
is_free separator s = every_char (λ c. not (eqb c separator)) s

split-free : (separator : ℕ) (s : String) → is_free separator s ≡ true → split separator s ≡ s ∷ []
unfolding split
split-free separator [] h = refl
split-free separator (c ∷ s) h = ground (arith, split-free separator s)

-- A separator of one character ends the first part.
split-append :
    (mark : Char) (s t : String)
    → is_free (code mark) s ≡ true
    → split (code mark) (s +++ ((mark ∷ []) +++ t)) ≡ s ∷ split (code mark) t
unfolding split
split-append mark [] t h = rw (nil-append, cons-append, nil-append) (ground arith)
split-append mark (c ∷ s) t h = rw cons-append (ground (arith, split-append mark s t))

is_free-append :
    (separator : ℕ) (s t : String)
    → is_free separator s ≡ true
    → is_free separator t ≡ true
    → is_free separator (s +++ t) ≡ true
is_free-append separator [] t h k = rw nil-append k
is_free-append separator (c ∷ s) t h k =
    rw cons-append (ground (arith, is_free-append separator s t))

-- Texts that hold neither separator.
abbrev pub IsPlain : String → Type 0
IsPlain s = (is_free colon s ≡ true) × (is_free comma s ≡ true)

joined-is_free :
    (s : String) (rest : List String)
    → IsPlain s
    → All IsPlain rest
    → is_free colon (joined s rest) ≡ true
joined-is_free s [] h k = h.0
joined-is_free s (t ∷ rest) h k =
    is_free-append colon s ("," +++ joined t rest) h.0
      (is_free-append colon "," (joined t rest) refl (joined-is_free t rest k.0 k.1))

split-joined :
    (s : String) (rest : List String)
    → IsPlain s
    → All IsPlain rest
    → split comma (joined s rest) ≡ s ∷ rest
split-joined s [] h k = split-free comma s h.1
split-joined s (t ∷ rest) h k =
    split-append _ s (joined t rest) h.1 ∙ ap (λ r. s ∷ r) (split-joined t rest k.0 k.1)

split-join_columns :
    (cols : List String)
    → is_nil cols ≡ false
    → All IsPlain cols
    → (split comma (join_columns cols) ≡ cols) × (is_free colon (join_columns cols) ≡ true)
split-join_columns [] h k = absurd (cc)
split-join_columns (s ∷ rest) h k = (split-joined s rest k.0 k.1, joined-is_free s rest k.0 k.1)

split-entry_text :
    (row : String) (cols : List String)
    → is_nil cols ≡ false
    → IsPlain row
    → All IsPlain cols
    → split colon (entry_text (row, cols)) ≡ row ∷ join_columns cols ∷ []
split-entry_text row cols h k l =
    split-append _ row (join_columns cols) k.0
    ∙ ap (λ r. row ∷ r) (split-free colon (join_columns cols) (split-join_columns cols h l).1)

module _ (rows columns : List String) (multiple : Bool) where
  -- What the entry of a row must be.
  abbrev pub is_entry : String × List String → Bool
  is_entry (row, cols) = not (is_empty row) && has rows row && may_select columns multiple cols

  abbrev pub IsEntry : String × List String → Type 0
  IsEntry e = is_entry e ≡ true

  abbrev pub IsWritten : String × List String → Type 0
  IsWritten e = IsPlain e.0 × All IsPlain e.1

  read_entry_lem :
      (selected : Selected) (e : String × List String)
      → IsEntry e
      → IsWritten e
      → has (keys selected) e.0 ≡ false
      → read_entry rows columns multiple selected (entry_text e) ≡ ok (selected ++ e ∷ [])
  unfolding read_entry
  read_entry_lem selected (row, cols) h w fresh =
      let full : is_nil cols ≡ false = ground arith in
      rw (split-entry_text row cols full w.0 w.1, (split-join_columns cols full w.1).0)
        (ground arith)

  read_entry_sound :
      (selected more : Selected) (entry : String)
      → read_entry rows columns multiple selected entry ≡ ok more
      → (e : String × List String) × (more ≡ selected ++ e ∷ [])
        × IsEntry e
        × (has (keys selected) e.0 ≡ false)
  unfolding read_entry
  read_entry_sound selected more entry h =
      let parts = split colon entry in
      elim (Bool-cases (accepts_entry rows columns multiple selected parts)) [
        | inl agreed ↦ ((row_of parts, columns_of parts), ground arith, ground arith, ground arith)
        | inr refused ↦ absurd (let no : ⊥ = ground arith in no)
      ]

has-append : (xs ys : List String) (v : String) → has (xs ++ ys) v ≡ (has xs v || has ys v)
has-append [] ys v = refl
has-append (x ∷ xs) ys v = ground (arith, has-append xs ys v)

distinct-append_one :
    (xs : List String) (x : String)
    → distinct xs ≡ true
    → has xs x ≡ false
    → distinct (xs ++ x ∷ []) ≡ true
distinct-append_one [] x h k = refl
distinct-append_one (y ∷ xs) x h k =
    ground (arith, has-append xs (x ∷ []) y, distinct-append_one xs x, eq_iff x y, eq_iff y x)

-- What comes later in a list without repetitions is new.
distinct_fresh :
    (xs ys : List String) (y : String) → distinct (xs ++ y ∷ ys) ≡ true → has xs y ≡ false
distinct_fresh [] ys y h = refl
distinct_fresh (x ∷ xs) ys y h =
    ground (arith, has-append xs (y ∷ ys) x, distinct_fresh xs ys y, eq_iff x y, eq_iff y x)

pub record IsSelection (rows columns : List String) (multiple optional : Bool) (selected : Selected)
    : Type 0 where
  pub each : All (IsEntry rows columns multiple) selected
  pub once : distinct (keys selected) ≡ true
  pub answers : all_answered rows optional selected ≡ true

module _ (rows columns : List String) (multiple : Bool) where
  read_entries_sound :
      (entries : List String) (selected result : Selected)
      → All (IsEntry rows columns multiple) selected
      → distinct (keys selected) ≡ true
      → read_entries rows columns multiple entries selected ≡ ok result
      → All (IsEntry rows columns multiple) result × (distinct (keys result) ≡ true)
  unfolding read_entries
  read_entries_sound [] selected result each once h =
      let same : selected ≡ result = ground arith in rw (← same) (each, once)
  read_entries_sound (entry ∷ entries) selected result each once h =
      let (more, first, later) =
        bind_ok (read_entry rows columns multiple selected entry)
          (read_entries rows columns multiple entries) result h in
      let (e, same, valid, fresh) =
        read_entry_sound rows columns multiple selected more entry first in
      read_entries_sound entries more result
        (rw same (All-append (IsEntry rows columns multiple) selected (e ∷ []) each (valid, tt)))
        (rw (same, map-append (λ x. x.0) selected (e ∷ []))
          (distinct-append_one (keys selected) e.0 once fresh))
        later

  read_entries_complete :
      (es selected : Selected)
      → All (IsEntry rows columns multiple) es
      → All (IsWritten rows columns multiple) es
      → distinct (keys (selected ++ es)) ≡ true
      → read_entries rows columns multiple (map entry_text es) selected ≡ ok (selected ++ es)
  unfolding read_entries
  read_entries_complete [] selected each written once = ap (λ s. ok s) (sym (append-nil selected))
  read_entries_complete (e ∷ es) selected each written once =
      let fresh : has (keys selected) e.0 ≡ false =
        distinct_fresh (keys selected) (keys es) e.0
          (subst (λ k. distinct k ≡ true) (map-append (λ x. x.0) selected (e ∷ es)) once) in
      rw (read_entry_lem rows columns multiple selected e each.0 written.0 fresh) (
        read_entries_complete es (selected ++ e ∷ []) each.1 written.1
          (rw (append_assoc selected (e ∷ []) es) once)
        ∙ ap (λ s. ok s) (append_assoc selected (e ∷ []) es))

-- A selection that is accepted passes the tests of its entries; `Form.Allowed` says what they mean.
pub parse_matrix_selection-IsSelection :
    (value : Submitted) (rows columns : List String) (multiple optional : Bool)
    (selected : Selected)
    → parse_matrix_selection value rows columns multiple optional ≡ ok selected
    → IsSelection rows columns multiple optional selected
unfolding parse_matrix_selection
parse_matrix_selection-IsSelection value rows columns multiple optional selected h =
    let (entries, _, later) =
      bind_ok (read_selections value)
        (λ entries.
          read_entries rows columns multiple entries []
          >>= (λ s. if all_answered rows optional s then ok s else err unanswered_row))
        selected h in
    let (result, read, last) =
      bind_ok (read_entries rows columns multiple entries [])
        (λ s. if all_answered rows optional s then ok s else err unanswered_row) selected later in
    let (each, once) = read_entries_sound rows columns multiple entries [] result tt refl read in
    elim (Bool-cases (all_answered rows optional result)) [
      | inl complete ↦
          let same : result ≡ selected = ground arith in
          rw (← same) (record { each = each; once = once; answers = complete })
      | inr missing ↦ absurd (let no : ⊥ = ground arith in no)
    ]

-- Every selection that names no row twice, only rows of the form and for each of them one or more
-- columns of the form, none twice and one at most where `multiple` is false, and every row of the form
-- unless it is optional, is accepted and read back from its canonical entries, `row:column,column`,
-- where no row and no column contains a separator.
pub parse_matrix_selection-entry_text :
    (rows columns : List String) (multiple optional : Bool) (selected : Selected)
    → IsSelection rows columns multiple optional selected
    → All (IsWritten rows columns multiple) selected
    → parse_matrix_selection (texts (map entry_text selected)) rows columns multiple optional
      ≡ ok selected
unfolding parse_matrix_selection read_selections
parse_matrix_selection-entry_text rows columns multiple optional selected v written =
    rw (read_entries_complete rows columns multiple selected [] v.each written v.once, v.answers)
      refl
