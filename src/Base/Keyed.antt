-- ===== src/Base/Keyed.antt =====
-- A Map of the runtime from texts: its entries in the order in which they were added.
use Prim.Native.Nat.{ℕ, ◌≤◌}
use Prim.Native.String.{String}
use mathlib.Core.Path.{◌≡◌, refl}
use mathlib.Core.Bool.{Bool, false, not, ◌&&◌}
use mathlib.Core.Option.{Option, none, some}
use mathlib.Core.List.{List, [], ◌∷◌, ◌++◌}
use native.Mathlib.Omega.{arith}
use text.Mathlib.Text.{◌==◌}
use text.Mathlib.TextEquality.{eq_iff}
use text.Mathlib.TextPositions.{eq_refl}
use package.openclaw_mattermost_cust.Base.Tests.{if◌then◌else◌, ltb}
use package.openclaw_mattermost_cust.Base.Lists.{All, any, length}
use package.openclaw_mattermost_cust.Base.Text.{is_empty}

module _ {ℓ} {V : Type ℓ} where
  abbrev pub value_at : String → List (String × V) → Option V
  value_at k [] = none
  value_at k (e ∷ es) = if e.0 == k then some e.1 else value_at k es

  -- `Map.set`: an entry that is there keeps its place.
  abbrev pub put_at : String → V → List (String × V) → List (String × V)
  put_at k v [] = (k, v) ∷ []
  put_at k v (e ∷ es) = if e.0 == k then (e.0, v) ∷ es else e ∷ put_at k v es

  abbrev pub remove_values : (V → Bool) → List (String × V) → List (String × V)
  remove_values p [] = []
  remove_values p (e ∷ es) = if p e.1 then remove_values p es else e ∷ remove_values p es

  abbrev pub remove_at : String → List (String × V) → List (String × V)
  remove_at k [] = []
  remove_at k (e ∷ es) = if e.0 == k then remove_at k es else e ∷ remove_at k es

  -- `while (map.size > most)`: deletes the oldest entry, and stops at an empty key.
  abbrev pub drop_oldest : ℕ → List (String × V) → List (String × V)
  drop_oldest most [] = []
  drop_oldest most (e ∷ es) =
      let rest = drop_oldest most es in
      if ltb most (length (e ∷ es)) && not (is_empty e.0) then rest else e ∷ es

  abbrev pub has_at : String → List (String × V) → Bool
  has_at k = any (λ e. e.0 == k)

  abbrev pub IsUnique : List (String × V) → Type 0
  IsUnique [] = Unit
  IsUnique (e ∷ es) = (has_at e.0 es ≡ false) × IsUnique es

  pub drop_oldest_small :
      (most : ℕ) (es : List (String × V)) → length es ≤ most → drop_oldest most es ≡ es
  drop_oldest_small most [] h = refl
  drop_oldest_small most (e ∷ es) h = ground arith

  pub length-remove_values :
      (p : V → Bool) (es : List (String × V)) → length (remove_values p es) ≤ length es
  length-remove_values p [] = omega arith
  length-remove_values p (e ∷ es) = ground (arith, length-remove_values p es)

  pub All-remove_values {κ} :
      (P : String × V → Type κ) (p : V → Bool) (es : List (String × V))
      → All P es
      → All P (remove_values p es)
  All-remove_values P p [] h = tt
  All-remove_values P p (e ∷ es) h = ground (arith, All-remove_values P p es h.1)

  has_at-remove_values :
      (k : String) (p : V → Bool) (es : List (String × V))
      → has_at k es ≡ false
      → has_at k (remove_values p es) ≡ false
  has_at-remove_values k p [] h = refl
  has_at-remove_values k p (e ∷ es) h = ground (arith, has_at-remove_values k p es)

  pub remove_values-IsUnique :
      (p : V → Bool) (es : List (String × V)) → IsUnique es → IsUnique (remove_values p es)
  remove_values-IsUnique p [] u = tt
  remove_values-IsUnique p (e ∷ es) u =
      ground (arith, has_at-remove_values e.0 p es u.0, remove_values-IsUnique p es u.1)

  has_at-put_at :
      (j k : String) (v : V) (es : List (String × V))
      → (k == j) ≡ false
      → has_at j es ≡ false
      → has_at j (put_at k v es) ≡ false
  has_at-put_at j k v [] other h = ground arith
  has_at-put_at j k v (e ∷ es) other h = ground (arith, has_at-put_at j k v es other)

  pub put_at-IsUnique :
      (k : String) (v : V) (es : List (String × V)) → IsUnique es → IsUnique (put_at k v es)
  put_at-IsUnique k v [] u = (refl, tt)
  put_at-IsUnique k v (e ∷ es) u =
      ground (
        arith,
        eq_iff e.0 k,
        eq_iff k e.0,
        has_at-put_at e.0 k v es,
        u.0,
        put_at-IsUnique k v es u.1,
      )

  pub All-put_at {κ} :
      (P : String × V → Type κ) (k : String) (v : V) (es : List (String × V))
      → ((j : String) → P (j, v))
      → All P es
      → All P (put_at k v es)
  All-put_at P k v [] p h = (p k, tt)
  All-put_at P k v (e ∷ es) p h = ground (arith, p e.0, All-put_at P k v es p h.1)

  pub value_at-put_at :
      (k : String) (v : V) (es : List (String × V)) → value_at k (put_at k v es) ≡ some v
  value_at-put_at k v [] = rw (eq_refl k) refl
  value_at-put_at k v (e ∷ es) = ground (arith, value_at-put_at k v es)

  pub value_at-put_other :
      (j k : String) (v : V) (es : List (String × V))
      → (k == j) ≡ false
      → value_at j (put_at k v es) ≡ value_at j es
  value_at-put_other j k v [] other = ground arith
  value_at-put_other j k v (e ∷ es) other =
      ground (arith, eq_iff e.0 k, eq_iff e.0 j, eq_iff k j, value_at-put_other j k v es other)

  value_at_absent :
      (k : String) (es : List (String × V)) → has_at k es ≡ false → value_at k es ≡ none
  value_at_absent k [] h = refl
  value_at_absent k (e ∷ es) h = ground (arith, value_at_absent k es)

  abbrev pub unless : (V → Bool) → Option V → Option V
  unless p none = none
  unless p (some v) = if p v then none else some v

  pub value_at-remove_values :
      (k : String) (p : V → Bool) (es : List (String × V))
      → IsUnique es
      → value_at k (remove_values p es) ≡ unless p (value_at k es)
  value_at-remove_values k p [] u = refl
  value_at-remove_values k p (e ∷ es) u =
      ground (arith, eq_iff e.0 k, u.0, value_at_absent k es, value_at-remove_values k p es u.1)

  pub All-drop_oldest {κ} :
      (P : String × V → Type κ) (most : ℕ) (es : List (String × V))
      → All P es
      → All P (drop_oldest most es)
  All-drop_oldest P most [] h = tt
  All-drop_oldest P most (e ∷ es) h = ground (arith, All-drop_oldest P most es h.1)

  pub drop_oldest-IsUnique :
      (most : ℕ) (es : List (String × V)) → IsUnique es → IsUnique (drop_oldest most es)
  drop_oldest-IsUnique most [] u = tt
  drop_oldest-IsUnique most (e ∷ es) u = ground (arith, drop_oldest-IsUnique most es u.1)

  pub All_at {κ} :
      (P : V → Type κ) (k : String) (es : List (String × V)) (v : V)
      → All (λ e. P e.1) es
      → value_at k es ≡ some v
      → P v
  All_at P k [] v h e = absurd (cc)
  All_at P k (x ∷ es) v h e = ground (arith, All_at P k es v h.1)

  pub remove_at_absent :
      (k : String) (es : List (String × V)) → has_at k es ≡ false → remove_at k es ≡ es
  remove_at_absent k [] h = refl
  remove_at_absent k (e ∷ es) h = ground (arith, remove_at_absent k es)

  has_at-remove_at :
      (j k : String) (es : List (String × V))
      → has_at j es ≡ false
      → has_at j (remove_at k es) ≡ false
  has_at-remove_at j k [] h = refl
  has_at-remove_at j k (e ∷ es) h = ground (arith, has_at-remove_at j k es)

  pub remove_at-IsUnique :
      (k : String) (es : List (String × V)) → IsUnique es → IsUnique (remove_at k es)
  remove_at-IsUnique k [] u = tt
  remove_at-IsUnique k (e ∷ es) u =
      ground (arith, has_at-remove_at e.0 k es u.0, remove_at-IsUnique k es u.1)

  pub value_at-remove_at :
      (k : String) (es : List (String × V)) → value_at k (remove_at k es) ≡ none
  value_at-remove_at k [] = refl
  value_at-remove_at k (e ∷ es) = ground (arith, value_at-remove_at k es)

  pub value_at-remove_other :
      (j k : String) (es : List (String × V))
      → (k == j) ≡ false
      → value_at j (remove_at k es) ≡ value_at j es
  value_at-remove_other j k [] apart = refl
  value_at-remove_other j k (e ∷ es) apart =
      ground (arith, eq_iff e.0 k, eq_iff e.0 j, eq_iff k j, value_at-remove_other j k es apart)

  pub length-remove_at : (k : String) (es : List (String × V)) → length (remove_at k es) ≤ length es
  length-remove_at k [] = omega arith
  length-remove_at k (e ∷ es) = ground (arith, length-remove_at k es)

  pub put_at_absent :
      (k : String) (v : V) (es : List (String × V))
      → value_at k es ≡ none
      → put_at k v es ≡ es ++ (k, v) ∷ []
  put_at_absent k v [] h = refl
  put_at_absent k v (e ∷ es) h = ground (arith, put_at_absent k v es)
