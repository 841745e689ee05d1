-- ===== src/Control/Pairs.antt =====
-- `KVPairs` of internal/control/control.go reads back what is written as `key=value;key=value`.
use mathlib.Core.List.{reverse, reverse-reverse}
use rdw.Common.{
  ◌==◌, length, All, ok, Text, is_empty, ℕ, zero, suc, ◌≡◌, refl, ap, ◌∙◌, ◌≢◌, false, some, List,
  [], ◌∷◌, ◌++◌, map, arith,
}
use rdw.Control.{
  kv, sequence, push_first, split_on, cut_at, leading_space, trailing_space, trim_by, trim_space,
  pairs_of, kv_pairs,
}

-- No byte of a text is the separator.
abbrev pub Lacks : ℕ → Text → Type 0
Lacks sep = All (λ c. (c == sep) ≡ false)

abbrev entry_of : Text × Text → Text
entry_of (k, v) = k ++ b'=' ∷ v

-- The payload that lists the pairs in order.
pub render : List (Text × Text) → Text
render [] = []
render (p ∷ []) = entry_of p
render (p ∷ q ∷ ps) = entry_of p ++ b';' ∷ render (q ∷ ps)

-- A pair that its text stands for: the key is not empty and has no `=` or `;`, the value no `;`,
-- and no white space stands at either end.
pub record IsPair (p : Text × Text) : Type 0 where
  pub has_key : p.0 ≢ []
  pub key_plain : Lacks b'=' p.0
  pub entry_plain : Lacks b';' (entry_of p)
  pub no_leading : leading_space (entry_of p) ≡ 0
  pub no_trailing : trailing_space (reverse (entry_of p)) ≡ 0

pub split_on-last : (sep : ℕ) (s : Text) → Lacks sep s → split_on sep s ≡ s ∷ []
unfolding split_on push_first
split_on-last sep [] h = refl
split_on-last sep (c ∷ s) h = rw (split_on-last sep s h.1) (rw h.0)

pub split_on-append :
    (sep : ℕ) (s t : Text) → Lacks sep s → split_on sep (s ++ sep ∷ t) ≡ s ∷ split_on sep t
unfolding split_on push_first
split_on-append sep [] t h = ground arith
split_on-append sep (c ∷ s) t h = rw (split_on-append sep s t h.1) (rw h.0)

split_on-render :
    (p : Text × Text) (ps : List (Text × Text))
    → All IsPair (p ∷ ps)
    → split_on b';' (render (p ∷ ps)) ≡ map entry_of (p ∷ ps)
unfolding render
split_on-render p [] h = split_on-last b';' (entry_of p) h.0.entry_plain
split_on-render p (q ∷ ps) h =
    split_on-append b';' (entry_of p) (render (q ∷ ps)) h.0.entry_plain
    ∙ ap (λ (t : List Text). entry_of p ∷ t) (split_on-render q ps h.1)

trim_by_none : (space : Text → ℕ) (fuel : ℕ) (s : Text) → space s ≡ 0 → trim_by space fuel s ≡ s
unfolding trim_by
trim_by_none space zero s h = refl
trim_by_none space (suc fuel) s h = rw h

trim_space_none :
    (s : Text) → leading_space s ≡ 0 → trailing_space (reverse s) ≡ 0 → trim_space s ≡ s
unfolding trim_space
trim_space_none s h k =
    rw
      (
        trim_by_none leading_space (length s) s h,
        trim_by_none trailing_space (length s) (reverse s) k,
      )
      (reverse-reverse s)

cut_at-append : (sep : ℕ) (k v : Text) → Lacks sep k → cut_at sep (k ++ sep ∷ v) ≡ some (k, v)
unfolding cut_at
cut_at-append sep [] v h = ground arith
cut_at-append sep (c ∷ k) v h = rw (h.0, cut_at-append sep k v h.1)

pairs_of-entries : (ps : List (Text × Text)) → All IsPair ps → pairs_of (map entry_of ps) ≡ ok ps
unfolding pairs_of
pairs_of-entries [] h = refl
pairs_of-entries (([], v) ∷ ps) h = absurd (h.0.has_key refl)
pairs_of-entries ((c ∷ k, v) ∷ ps) h = rw (
  trim_space_none (entry_of (c ∷ k, v)) h.0.no_leading h.0.no_trailing,
  cut_at-append b'=' (c ∷ k) v h.0.key_plain,
  pairs_of-entries ps h.1,
)

render-nonempty :
    (p : Text × Text) (ps : List (Text × Text)) → p.0 ≢ [] → is_empty (render (p ∷ ps)) ≡ false
unfolding render
render-nonempty ([], v) ps h = absurd (h refl)
render-nonempty (c ∷ k, v) [] h = refl
render-nonempty (c ∷ k, v) (q ∷ ps) h = refl

-- The pairs of a `=:` sequence whose payload lists well-formed pairs are those pairs, in order.
kv_pairs-render :
    (ps : List (Text × Text)) → All IsPair ps → kv_pairs (sequence kv (render ps)) ≡ ok ps
unfolding kv_pairs
kv_pairs-render [] h = unfold render in refl
kv_pairs-render (p ∷ ps) h =
    rw (render-nonempty p ps h.0.has_key, split_on-render p ps h) (pairs_of-entries (p ∷ ps) h)
