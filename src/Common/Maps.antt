-- ===== src/Common/Maps.antt =====
-- Go maps with text keys, as association lists. A map's order of iteration is unspecified in Go:
-- here it is the order of the entries, and what must not depend on it is a theorem of its user.
use Prim.Native.Nat.{ℕ, ◌+◌, ◌≤◌}
use mathlib.Core.Path.{◌≡◌, refl}
use mathlib.Core.Option.{Option, none, some}
use mathlib.Core.List.{List, [], ◌∷◌}
use native.Mathlib.Omega.{arith}
use rdw.Common.Tests.{if◌then◌else◌}
use rdw.Common.Bytes.{Text, text_eq, text_eq_iff}

abbrev pub Dict {ℓ} : Type ℓ → Type ℓ
Dict V = List (Text × V)

module _ {ℓ} {V : Type ℓ} where
  -- `v, ok := m[k]`
  unfoldable pub lookup : Text → Dict V → Option V
  lookup k [] = none
  lookup k ((j, v) ∷ m) = if text_eq j k then some v else lookup k m

  -- `m[k] = v`
  unfoldable pub insert : Text → V → Dict V → Dict V
  insert k v [] = (k, v) ∷ []
  insert k v ((j, w) ∷ m) = if text_eq j k then (j, v) ∷ m else (j, w) ∷ insert k v m

  -- `delete(m, k)`
  unfoldable pub remove : Text → Dict V → Dict V
  remove k [] = []
  remove k ((j, v) ∷ m) = let rest = remove k m in if text_eq j k then rest else (j, v) ∷ rest

  -- No key twice, as in every Go map.
  abbrev pub IsDistinct : Dict V → Type ℓ
  IsDistinct [] = Unit
  IsDistinct ((k, v) ∷ m) = (lookup k m ≡ none) × IsDistinct m

  -- The sum of a weight over the entries.
  unfoldable pub total : (V → ℕ) → Dict V → ℕ
  total w [] = 0
  total w ((k, v) ∷ m) = w v + total w m

  abbrev pub weight_of : (V → ℕ) → Option V → ℕ
  weight_of w none = 0
  weight_of w (some v) = w v

module _ {ℓ} {V : Type ℓ} where
  pub lookup-insert :
      (new asked : Text) (v : V) (m : Dict V)
      → lookup asked (insert new v m) ≡ (if text_eq new asked then some v else lookup asked m)
  unfolding lookup insert
  lookup-insert new asked v [] = refl
  lookup-insert new asked v ((held, u) ∷ rest) = ground (
    arith,
    lookup-insert new asked v rest,
    text_eq_iff new asked,
    text_eq_iff held new,
    text_eq_iff held asked,
  )

  pub lookup-remove :
      (k j : Text) (m : Dict V) → lookup j (remove k m) ≡ (if text_eq k j then none else lookup j m)
  unfolding lookup remove
  lookup-remove k j [] = ground arith
  lookup-remove k j ((i, w) ∷ m) =
      ground (arith, text_eq_iff k j, text_eq_iff i k, text_eq_iff i j, lookup-remove k j m)

  pub remove-IsDistinct : (k : Text) (m : Dict V) → IsDistinct m → IsDistinct (remove k m)
  unfolding remove
  remove-IsDistinct k [] h = h
  remove-IsDistinct k ((j, v) ∷ m) h = ground (arith, remove-IsDistinct k m, lookup-remove k j m)

  pub insert-IsDistinct : (k : Text) (v : V) (m : Dict V) → IsDistinct m → IsDistinct (insert k v m)
  unfolding insert lookup
  insert-IsDistinct k v [] h = (refl, tt)
  insert-IsDistinct k v ((j, w) ∷ m) h =
      ground
        (arith, insert-IsDistinct k v m, lookup-insert k j v m, text_eq_iff k j, text_eq_iff j k)

  remove_absent : (k : Text) (m : Dict V) → lookup k m ≡ none → remove k m ≡ m
  unfolding lookup remove
  remove_absent k [] h = refl
  remove_absent k ((j, v) ∷ m) h = ground (arith, remove_absent k m)

  module _ (w : V → ℕ) where
    pub total-insert :
        (k : Text) (v : V) (m : Dict V)
        → total w (insert k v m) + weight_of w (lookup k m) ≡ total w m + w v
    unfolding lookup insert total
    total-insert k v [] = omega arith
    total-insert k v ((j, x) ∷ m) = ground (arith, total-insert k v m)

    pub total-remove :
        (k : Text) (m : Dict V)
        → IsDistinct m
        → total w (remove k m) + weight_of w (lookup k m) ≡ total w m
    unfolding lookup remove total
    total-remove k [] d = omega arith
    total-remove k ((j, x) ∷ m) d =
        ground (arith, total-remove k m d.1, remove_absent j m d.0, text_eq_iff j k)

    pub weight_of-le-total : (k : Text) (m : Dict V) → weight_of w (lookup k m) ≤ total w m
    unfolding lookup total
    weight_of-le-total k [] = omega arith
    weight_of-le-total k ((j, x) ∷ m) = ground (arith, weight_of-le-total k m)
