-- ===== src/Base/Sorting.antt =====
-- ORDER BY: a stable insertion sort by a test, the order of its result by a number that the test
-- respects, and the first match in an ordered list.
use Prim.Native.Nat.{ℕ, zero, suc, ◌≤◌}
use mathlib.Core.Path.{◌≡◌, subst}
use mathlib.Core.Bool.{Bool, true, false}
use mathlib.Core.Option.{some}
use mathlib.Core.List.{List, [], ◌∷◌}
use native.Mathlib.Omega.{arith}
use mathlib.Core.Logic.{inl, inr}
use package.openclaw_mattermost_cust.Base.Tests.{if◌then◌else◌, Bool-cases}
use package.openclaw_mattermost_cust.Base.Lists.{All, All-mono, All-take, find, take}

module _ {ℓ} {A : Type ℓ} (before : A → A → Bool) where
  abbrev pub insert : A → List A → List A
  insert x [] = x ∷ []
  insert x (y ∷ ys) = if before y x then y ∷ insert x ys else x ∷ y ∷ ys

  abbrev pub sort : List A → List A
  sort [] = []
  sort (x ∷ xs) = insert x (sort xs)

module _ {ℓ κ} {A : Type ℓ} (before : A → A → Bool) (P : A → Type κ) where
  All-insert : (x : A) (xs : List A) → P x → All P xs → All P (insert before x xs)
  All-insert x [] p h = (p, tt)
  All-insert x (y ∷ ys) p h = ground (arith, All-insert x ys p h.1)

  pub All-sort : (xs : List A) → All P xs → All P (sort before xs)
  All-sort [] h = tt
  All-sort (x ∷ xs) h = All-insert x (sort before xs) h.0 (All-sort xs h.1)

  All-of_insert : (x : A) (xs : List A) → All P (insert before x xs) → P x × All P xs
  All-of_insert x [] h = (h.0, tt)
  All-of_insert x (y ∷ ys) h = ground (arith, All-of_insert x ys)

  pub All-of_sort : (xs : List A) → All P (sort before xs) → All P xs
  All-of_sort [] h = tt
  All-of_sort (x ∷ xs) h =
      let (p, rest) = All-of_insert x (sort before xs) h in (p, All-of_sort xs rest)

module _ {ℓ} {A : Type ℓ} (key : A → ℕ) where
  abbrev pub IsOrdered : List A → Type 0
  IsOrdered [] = Unit
  IsOrdered (x ∷ xs) = All (λ y. key x ≤ key y) xs × IsOrdered xs

  pub IsOrdered-take : (n : ℕ) (xs : List A) → IsOrdered xs → IsOrdered (take n xs)
  IsOrdered-take zero xs h = tt
  IsOrdered-take (suc n) [] h = tt
  IsOrdered-take (suc n) (x ∷ xs) h = (All-take _ n xs h.0, IsOrdered-take n xs h.1)

  -- The first match has the least key of all matches.
  pub find-le :
      (p : A → Bool) (xs : List A) (a : A)
      → IsOrdered xs
      → find p xs ≡ some a
      → All (λ y. p y ≡ true → key a ≤ key y) xs
  find-le p [] a h e = tt
  find-le p (x ∷ xs) a h e = elim (Bool-cases (p x)) [
    | inl hit ↦
        let same : x ≡ a = ground arith in
        subst (λ b. All (λ y. p y ≡ true → key b ≤ key y) (x ∷ xs)) same
          ((λ _. omega arith), All-mono (λ y le _. le) xs h.0)
    | inr miss ↦ ((λ hit. absurd (cc)), find-le p xs a h.1 (ground arith))
  ]

module _ {ℓ} {A : Type ℓ} (before : A → A → Bool) (key : A → ℕ) where
  IsOrdered-insert :
      ((x y : A) → before y x ≡ true → key y ≤ key x)
      → ((x y : A) → before y x ≡ false → key x ≤ key y)
      → (x : A) (xs : List A) → IsOrdered key xs
      → IsOrdered key (insert before x xs)
  IsOrdered-insert le ge x [] h = (tt, tt)
  IsOrdered-insert le ge x (y ∷ ys) h = elim (Bool-cases (before y x)) [
    | inl first ↦ rw first (
      All-insert before (λ z. key y ≤ key z) x ys (le x y first) h.0,
      IsOrdered-insert le ge x ys h.1,
    )
    | inr later ↦ let xy = ge x y later in rw later ((xy, All-mono (λ z yz. omega arith) ys h.0), h)
  ]

  -- A test that respects the number sorts by it.
  pub IsOrdered-sort :
      ((x y : A) → before y x ≡ true → key y ≤ key x)
      → ((x y : A) → before y x ≡ false → key x ≤ key y)
      → (xs : List A) → IsOrdered key (sort before xs)
  IsOrdered-sort le ge [] = tt
  IsOrdered-sort le ge (x ∷ xs) =
      IsOrdered-insert le ge x (sort before xs) (IsOrdered-sort le ge xs)
