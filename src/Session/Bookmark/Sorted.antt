-- ===== src/Session/Bookmark/Sorted.antt =====
-- What the bookmark store of internal/session/bookmark.go returns.
use mathlib.Core.List.Perm
use mathlib.Core.List.{Perm, perm_middle, append-nil, reverse, reverse-cons, reverse_perm}
use rdw.Common.{
  Bool-cases, All, All-append, ◌≤ℤ◌, ltb_ℤ, ℤ, inl, inr, List, [], ◌∷◌, ◌++◌, map, arith,
}
use rdw.Session.Bookmark.{Bookmark, BookmarkStore, settle, sort_from, all}

-- In ascending order of line.
abbrev IsSorted : List Bookmark → Type 0
IsSorted [] = Unit
IsSorted (x ∷ xs) = All (λ y. x.line_index ≤ℤ y.line_index) xs × IsSorted xs

abbrev IsSortedDown : List Bookmark → Type 0
IsSortedDown [] = Unit
IsSortedDown (x ∷ xs) = All (λ y. y.line_index ≤ℤ x.line_index) xs × IsSortedDown xs

weaken :
    (a b : ℤ) (xs : List Bookmark)
    → a ≤ℤ b
    → All (λ y. y.line_index ≤ℤ a) xs
    → All (λ y. y.line_index ≤ℤ b) xs
weaken a b [] h k = tt
weaken a b (x ∷ xs) h k = (omega (arith, k.0), weaken a b xs h k.1)

settle-below :
    (b : ℤ) (x : Bookmark) (ys : List Bookmark)
    → x.line_index ≤ℤ b
    → All (λ y. y.line_index ≤ℤ b) ys
    → All (λ y. y.line_index ≤ℤ b) (settle x ys)
unfolding settle
settle-below b x [] h k = (h, tt)
settle-below b x (y ∷ ys) h k = ground (arith, settle-below b x ys h k.1)

settle-IsSortedDown :
    (x : Bookmark) (ys : List Bookmark) → IsSortedDown ys → IsSortedDown (settle x ys)
unfolding settle
settle-IsSortedDown x [] h = (tt, tt)
settle-IsSortedDown x (y ∷ ys) h = elim (Bool-cases (ltb_ℤ x.line_index y.line_index)) [
  | inl e ↦ rw e (settle-below y.line_index x ys (ground arith) h.0, settle-IsSortedDown x ys h.1)
  | inr e ↦ rw e ((ground arith, weaken y.line_index x.line_index ys (ground arith) h.0), h)
]

sort_from-IsSortedDown :
    (done xs : List Bookmark) → IsSortedDown done → IsSortedDown (sort_from done xs)
unfolding sort_from
sort_from-IsSortedDown done [] h = h
sort_from-IsSortedDown done (x ∷ xs) h =
    sort_from-IsSortedDown (settle x done) xs (settle-IsSortedDown x done h)

All-reverse {ℓ κ} : {A : Type ℓ} (P : A → Type κ) (xs : List A) → All P xs → All P (reverse xs)
All-reverse P [] h = tt
All-reverse P (x ∷ xs) h =
    rw reverse-cons (All-append P (reverse xs) (x ∷ []) (All-reverse P xs h.1) (h.0, tt))

snoc-IsSorted :
    (x : Bookmark) (xs : List Bookmark)
    → All (λ y. y.line_index ≤ℤ x.line_index) xs
    → IsSorted xs
    → IsSorted (xs ++ x ∷ [])
snoc-IsSorted x [] h k = (tt, tt)
snoc-IsSorted x (y ∷ xs) h k = (
  All-append (λ z. y.line_index ≤ℤ z.line_index) xs (x ∷ []) k.0 (h.0, tt),
  snoc-IsSorted x xs h.1 k.1,
)

reverse-IsSorted : (xs : List Bookmark) → IsSortedDown xs → IsSorted (reverse xs)
reverse-IsSorted [] h = tt
reverse-IsSorted (x ∷ xs) h =
    rw reverse-cons (snoc-IsSorted x (reverse xs) (All-reverse _ xs h.0) (reverse-IsSorted xs h.1))

settle-perm : (x : Bookmark) (ys : List Bookmark) → Perm (settle x ys) (x ∷ ys)
unfolding settle
settle-perm x [] = Perm.refl (x ∷ [])
settle-perm x (y ∷ ys) = elim (Bool-cases (ltb_ℤ x.line_index y.line_index)) [
  | inl e ↦ rw e (Perm.trans (Perm.cons y (settle-perm x ys)) (Perm.swap x y ys))
  | inr e ↦ rw e (Perm.refl (x ∷ y ∷ ys))
]

sort_from-perm : (done xs : List Bookmark) → Perm (sort_from done xs) (done ++ xs)
unfolding sort_from
sort_from-perm done [] = rw append-nil (Perm.refl done)
sort_from-perm done (x ∷ xs) =
    Perm.trans (sort_from-perm (settle x done) xs) (
      Perm.trans (Perm.append (settle-perm x done) (Perm.refl xs))
        (Perm.symm (perm_middle done xs)))

-- `All` returns every bookmark of the store once, in ascending order of line, whatever the order in
-- which the map is read.
all-IsSorted : (s : BookmarkStore) → IsSorted (all s) × Perm (all s) (map (λ e. e.1) s.marks)
unfolding all
all-IsSorted s = (
  reverse-IsSorted _ (sort_from-IsSortedDown [] (map (λ e. e.1) s.marks) tt),
  Perm.trans (reverse_perm _) (sort_from-perm [] (map (λ e. e.1) s.marks)),
)
