-- ===== src/Common/Entries.antt =====
-- A property of every entry of a Go map.
use rdw.Common.Maps.{Dict, lookup, insert, remove}
use rdw.Common.Bytes.{Text, text_eq, text_eq_iff}
use rdw.Common.Tests.{Bool-cases}
use mathlib.Core.Path.{◌≡◌, sym, subst}
use mathlib.Core.Logic.{inl, inr}
use mathlib.Core.Option.{some}
use mathlib.Core.List.{[], ◌∷◌}
use native.Mathlib.Omega.{arith}

module _ {ℓ κ} {V : Type ℓ} (P : Text → V → Type κ) where
  abbrev pub AllEntries : Dict V → Type κ
  AllEntries [] = Unit
  AllEntries ((k, v) ∷ m) = P k v × AllEntries m

  pub insert-AllEntries :
      (k : Text) (v : V) (m : Dict V) → P k v → AllEntries m → AllEntries (insert k v m)
  unfolding insert
  insert-AllEntries k v [] h hs = (h, tt)
  insert-AllEntries k v ((j, w) ∷ m) h hs = elim (Bool-cases (text_eq j k)) [
    | inl e ↦ rw e (subst (λ i. P i v) (sym ((text_eq_iff j k).0 e)) h, hs.1)
    | inr e ↦ rw e (hs.0, insert-AllEntries k v m h hs.1)
  ]

  pub remove-AllEntries : (k : Text) (m : Dict V) → AllEntries m → AllEntries (remove k m)
  unfolding remove
  remove-AllEntries k [] hs = tt
  remove-AllEntries k ((j, w) ∷ m) hs = elim (Bool-cases (text_eq j k)) [
    | inl e ↦ rw e (remove-AllEntries k m hs.1)
    | inr e ↦ rw e (hs.0, remove-AllEntries k m hs.1)
  ]

  pub lookup-AllEntries :
      (k : Text) (m : Dict V) {v : V} → AllEntries m → lookup k m ≡ some v → P k v
  unfolding lookup
  lookup-AllEntries k [] {v = v} hs e = absurd (ground arith)
  lookup-AllEntries k ((j, w) ∷ m) {v = v} hs e = elim (Bool-cases (text_eq j k)) [
    | inl t ↦
        let same : w ≡ v = ground arith in
        subst (λ i. P i v) ((text_eq_iff j k).0 t) (subst (P j) same hs.0)
    | inr t ↦ lookup-AllEntries k m hs.1 (ground arith)
  ]
