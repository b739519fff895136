-- ===== src/Base/Table.antt =====
-- A table of rows and the SQL statements over one table: UPDATE, DELETE and SELECT with a WHERE
-- test, and the number of rows that a statement changes.
use Prim.Native.Nat.{ℕ, suc, ◌+◌, ◌≤◌}
use mathlib.Core.Path.{◌≡◌, refl}
use mathlib.Core.Bool.{Bool, true, false}
use mathlib.Core.Option
use mathlib.Core.Option.{none, some}
use mathlib.Core.List.{List, [], ◌∷◌, ◌++◌}
use native.Mathlib.Omega.{arith}
use package.openclaw_mattermost_cust.Base.Tests.{if◌then◌else◌}
use package.openclaw_mattermost_cust.Base.Lists.{All, find, length}

module _ {ℓ} {A : Type ℓ} where
  abbrev pub update_where : (A → Bool) → (A → A) → List A → List A
  update_where p f [] = []
  update_where p f (r ∷ rs) = (if p r then f r else r) ∷ update_where p f rs

  abbrev pub select_where : (A → Bool) → List A → List A
  select_where p [] = []
  select_where p (r ∷ rs) = if p r then r ∷ select_where p rs else select_where p rs

  abbrev pub delete_where : (A → Bool) → List A → List A
  delete_where p [] = []
  delete_where p (r ∷ rs) = if p r then delete_where p rs else r ∷ delete_where p rs

  abbrev pub count_where : (A → Bool) → List A → ℕ
  count_where p [] = 0
  count_where p (r ∷ rs) = if p r then suc (count_where p rs) else count_where p rs

  -- A statement that changes no row leaves the table as it was.
  pub update_where_zero :
      (p : A → Bool) (f : A → A) (rs : List A) → count_where p rs ≡ 0 → update_where p f rs ≡ rs
  update_where_zero p f [] e = refl
  update_where_zero p f (r ∷ rs) e = ground (arith, update_where_zero p f rs)

  pub delete_where_zero :
      (p : A → Bool) (rs : List A) → count_where p rs ≡ 0 → delete_where p rs ≡ rs
  delete_where_zero p [] e = refl
  delete_where_zero p (r ∷ rs) e = ground (arith, delete_where_zero p rs)

  pub length-delete_where :
      (p : A → Bool) (rs : List A) → length (delete_where p rs) + count_where p rs ≡ length rs
  length-delete_where p [] = refl
  length-delete_where p (r ∷ rs) = ground (arith, length-delete_where p rs)

  -- Reading one row after an UPDATE whose assignments do not touch what the reader tests.
  pub find-update_where :
      (q p : A → Bool) (f : A → A)
      → ((r : A) → q (f r) ≡ q r)
      → (rs : List A)
      → find q (update_where p f rs) ≡ Option.map (λ r. if p r then f r else r) (find q rs)
  find-update_where q p f same [] = refl
  find-update_where q p f same (r ∷ rs) = ground (arith, same r, find-update_where q p f same rs)

  pub find-append_none :
      (q : A → Bool) (xs ys : List A) → find q xs ≡ none → find q (xs ++ ys) ≡ find q ys
  find-append_none q [] ys e = refl
  find-append_none q (x ∷ xs) ys e = ground (arith, find-append_none q xs ys)

  pub find-append_some :
      (q : A → Bool) (xs ys : List A) (a : A) → find q xs ≡ some a → find q (xs ++ ys) ≡ some a
  find-append_some q [] ys a e = absurd (cc)
  find-append_some q (x ∷ xs) ys a e = ground (arith, find-append_some q xs ys a)

  -- A row that the DELETE does not name is still found.
  pub find-delete_where_keep :
      (q p : A → Bool) (rs : List A) (a : A)
      → find q rs ≡ some a
      → p a ≡ false
      → find q (delete_where p rs) ≡ some a
  find-delete_where_keep q p [] a e h = absurd (cc)
  find-delete_where_keep q p (r ∷ rs) a e h = ground (arith, find-delete_where_keep q p rs a)

  pub find-delete_where-none :
      (q p : A → Bool) (rs : List A) → find q rs ≡ none → find q (delete_where p rs) ≡ none
  find-delete_where-none q p [] e = refl
  find-delete_where-none q p (r ∷ rs) e = ground (arith, find-delete_where-none q p rs)

  pub count_where_of_find-none :
      (p : A → Bool) (rs : List A) → find p rs ≡ none → count_where p rs ≡ 0
  count_where_of_find-none p [] e = refl
  count_where_of_find-none p (r ∷ rs) e = ground (arith, count_where_of_find-none p rs)

  pub count_where_of_find-some :
      (p : A → Bool) (rs : List A) (a : A) → find p rs ≡ some a → 1 ≤ count_where p rs
  count_where_of_find-some p [] a e = absurd (cc)
  count_where_of_find-some p (r ∷ rs) a e = ground (arith, count_where_of_find-some p rs a)

module _ {ℓ κ} {A : Type ℓ} (P : A → Type κ) (p : A → Bool) where
  pub All-update_where :
      (f : A → A)
      → ((r : A) → P r → p r ≡ true → P (f r))
      → (rs : List A) → All P rs
      → All P (update_where p f rs)
  All-update_where f keep [] h = tt
  All-update_where f keep (r ∷ rs) h = ground (arith, keep r h.0, All-update_where f keep rs h.1)

  pub All-delete_where : (rs : List A) → All P rs → All P (delete_where p rs)
  All-delete_where [] h = tt
  All-delete_where (r ∷ rs) h = ground (arith, All-delete_where rs h.1)

  pub All-select_where : (rs : List A) → All P rs → All P (select_where p rs)
  All-select_where [] h = tt
  All-select_where (r ∷ rs) h = ground (arith, All-select_where rs h.1)

  pub All-of_select_where :
      (rs : List A) → All P (select_where p rs) → All (λ r. p r ≡ true → P r) rs
  All-of_select_where [] h = tt
  All-of_select_where (r ∷ rs) h = ground (arith, All-of_select_where rs)

pub select_where_sound {ℓ} :
    {A : Type ℓ} (p : A → Bool) (rs : List A) → All (λ r. p r ≡ true) (select_where p rs)
select_where_sound p [] = tt
select_where_sound p (r ∷ rs) = ground (arith, select_where_sound p rs)

module _ {ℓ} {A : Type ℓ} (p : A → Bool) where
  pub delete_where_sound : (rs : List A) → All (λ r. p r ≡ false) (delete_where p rs)
  delete_where_sound [] = tt
  delete_where_sound (r ∷ rs) = ground (arith, delete_where_sound rs)

  pub find-delete_where_self : (rs : List A) → find p (delete_where p rs) ≡ none
  find-delete_where_self [] = refl
  find-delete_where_self (r ∷ rs) = ground (arith, find-delete_where_self rs)

  pub delete_where_spared : (rs : List A) → All (λ r. p r ≡ false) rs → delete_where p rs ≡ rs
  delete_where_spared [] h = refl
  delete_where_spared (r ∷ rs) h = ground (arith, delete_where_spared rs h.1)

  pub select_where_spared : (rs : List A) → All (λ r. p r ≡ false) rs → select_where p rs ≡ []
  select_where_spared [] h = refl
  select_where_spared (r ∷ rs) h = ground (arith, select_where_spared rs h.1)

  pub length-delete_where-le : (rs : List A) → length (delete_where p rs) ≤ length rs
  length-delete_where-le [] = omega arith
  length-delete_where-le (r ∷ rs) = ground (arith, length-delete_where-le rs)

  -- A search that the DELETE's test excludes finds what it found before.
  pub find-delete_where_other :
      (q : A → Bool)
      → ((r : A) → q r ≡ true → p r ≡ false)
      → (rs : List A) → find q (delete_where p rs) ≡ find q rs
  find-delete_where_other q other [] = refl
  find-delete_where_other q other (r ∷ rs) =
      ground (arith, other r, find-delete_where_other q other rs)
