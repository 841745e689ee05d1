-- ===== src/Kv/Keys.antt =====
-- `Keys` and `ParseKey` of internal/kvstore/kvstore.go: the listing does not depend on the order in
-- which Go iterates over the map.
use rdw.Common.{
  if◌then◌else◌, is_present, Bool-cases, keep_if, All, Dict, lookup, IsDistinct, Text, text_eq,
  text_eq→eq, text_eq_refl, text_eq_iff, is_empty, ◌≡◌, refl, sym, ap, ◌∙◌, ◌≢◌, inl, inr, Bool,
  true, false, ◌&&◌, ◌||◌, List, [], ◌∷◌, map, arith,
}
use rdw.Kv.{Key, Store, get, text_lt, has_prefix, insert_key, sort_keys, keys}

text_lt_irrefl : (s : Text) → text_lt s s ≡ false
unfolding text_lt
text_lt_irrefl [] = refl
text_lt_irrefl (x ∷ s) = ground (arith, text_lt_irrefl s)

text_lt_trans : (s t u : Text) → text_lt s t ≡ true → text_lt t u ≡ true → text_lt s u ≡ true
unfolding text_lt
text_lt_trans [] [] u h k = ground arith
text_lt_trans [] (y ∷ t) [] h k = ground arith
text_lt_trans [] (y ∷ t) (z ∷ u) h k = refl
text_lt_trans (x ∷ s) [] u h k = ground arith
text_lt_trans (x ∷ s) (y ∷ t) [] h k = ground arith
text_lt_trans (x ∷ s) (y ∷ t) (z ∷ u) h k = ground (arith, text_lt_trans s t u)

text_lt_total : (s t : Text) → text_lt s t ≡ false → s ≢ t → text_lt t s ≡ true
unfolding text_lt
text_lt_total [] [] h n = absurd (n refl)
text_lt_total [] (y ∷ t) h n = ground arith
text_lt_total (x ∷ s) [] h n = refl
text_lt_total (x ∷ s) (y ∷ t) h n = elim (Bool-cases (text_eq s t)) [
  | inl e ↦
      let same = text_eq→eq s t e in ground (arith, ap (λ (u : Text). x ∷ u) same, text_lt_irrefl t)
  | inr e ↦ ground (arith, text_eq_iff s t, text_lt_total s t)
]

-- Whether a key is listed.
pub listed : Key → List Key → Bool
listed k [] = false
listed k (j ∷ ks) = text_eq j k || listed k ks

-- Strictly ascending.
abbrev pub IsAscending : List Key → Type 0
IsAscending [] = Unit
IsAscending (k ∷ ks) = All (λ j. text_lt k j ≡ true) ks × IsAscending ks

listed-insert_key :
    (k j : Key) (ks : List Key) → listed j (insert_key k ks) ≡ (text_eq k j || listed j ks)
unfolding listed insert_key
listed-insert_key k j [] = refl
listed-insert_key k j (i ∷ ks) = ground (arith, listed-insert_key k j ks)

listed-sort_keys : (j : Key) (ks : List Key) → listed j (sort_keys ks) ≡ listed j ks
unfolding listed sort_keys
listed-sort_keys j [] = refl
listed-sort_keys j (k ∷ ks) =
    ground (arith, listed-insert_key k j (sort_keys ks), listed-sort_keys j ks)

above_trans :
    (k j : Key) (ks : List Key)
    → text_lt k j ≡ true
    → All (λ i. text_lt j i ≡ true) ks
    → All (λ i. text_lt k i ≡ true) ks
above_trans k j [] h a = tt
above_trans k j (i ∷ ks) h a = (text_lt_trans k j i h a.0, above_trans k j ks h a.1)

above-insert_key :
    (b k : Key) (ks : List Key)
    → text_lt b k ≡ true
    → All (λ i. text_lt b i ≡ true) ks
    → All (λ i. text_lt b i ≡ true) (insert_key k ks)
unfolding insert_key
above-insert_key b k [] h a = (h, tt)
above-insert_key b k (j ∷ ks) h a = ground (arith, above-insert_key b k ks h a.1)

insert_key-IsAscending :
    (k : Key) (ks : List Key) → IsAscending ks → listed k ks ≡ false → IsAscending (insert_key k ks)
unfolding insert_key listed
insert_key-IsAscending k [] a n = (tt, tt)
insert_key-IsAscending k (j ∷ ks) a n = elim (Bool-cases (text_lt k j)) [
  | inl e ↦ rw e ((e, above_trans k j ks e a.0), a)
  | inr e ↦
      let after : text_lt j k ≡ true = text_lt_total k j e (λ q. ground (arith, text_eq_iff j k)) in
      rw e (above-insert_key j k ks after a.0, insert_key-IsAscending k ks a.1 (ground arith))
]

-- No key twice.
abbrev IsUnique : List Key → Type 0
IsUnique [] = Unit
IsUnique (k ∷ ks) = (listed k ks ≡ false) × IsUnique ks

sort_keys-IsAscending : (ks : List Key) → IsUnique ks → IsAscending (sort_keys ks)
unfolding sort_keys
sort_keys-IsAscending [] u = tt
sort_keys-IsAscending (k ∷ ks) u =
    insert_key-IsAscending k (sort_keys ks) (sort_keys-IsAscending ks u.1)
      (listed-sort_keys k ks ∙ u.0)

not_listed_below :
    (k : Key) (ks : List Key) → All (λ j. text_lt k j ≡ true) ks → listed k ks ≡ false
unfolding listed
not_listed_below k [] a = refl
not_listed_below k (j ∷ ks) a =
    ground (arith, not_listed_below k ks a.1, text_eq_iff j k, text_lt_irrefl k, a.0)

head_listed : (k : Key) (ks : List Key) → listed k (k ∷ ks) ≡ true
unfolding listed
head_listed k ks = rw (text_eq_refl k)

-- The head of an ascending list is not above a key that is listed.
head_least :
    (k j : Key) (js : List Key)
    → IsAscending (j ∷ js)
    → listed k (j ∷ js) ≡ true
    → text_lt k j ≡ false
head_least k j js a h = elim (Bool-cases (text_lt k j)) [
  | inl e ↦ absurd (ground (arith, h, not_listed_below k (j ∷ js) (e, above_trans k j js e a.0)))
  | inr e ↦ e
]

same_head :
    (k j : Key) (ks js : List Key)
    → IsAscending (k ∷ ks)
    → IsAscending (j ∷ js)
    → listed k (j ∷ js) ≡ true
    → listed j (k ∷ ks) ≡ true
    → k ≡ j
same_head k j ks js a b p q = elim (Bool-cases (text_eq k j)) [
  | inl e ↦ text_eq→eq k j e
  | inr e ↦ absurd (
      ground (
        arith,
        head_least k j js b p,
        head_least j k ks a q,
        text_lt_total k j (head_least k j js b p) (λ s. ground (arith, text_eq_iff k j)),
      ))
]

tails :
    (k j : Key) (ks js : List Key)
    → IsAscending (k ∷ ks)
    → IsAscending (j ∷ js)
    → k ≡ j
    → ((i : Key) → listed i (k ∷ ks) ≡ listed i (j ∷ js))
    → (i : Key) → listed i ks ≡ listed i js
unfolding listed
tails k j ks js a b same h i = ground (
  arith,
  h i,
  text_eq_iff k i,
  text_eq_iff j i,
  not_listed_below k ks a.0,
  not_listed_below j js b.0,
)

none_listed : (k : Key) → listed k [] ≡ false
unfolding listed
none_listed k = refl

-- Ascending lists of the same keys are the same list.
ascending_ext :
    (ks js : List Key)
    → IsAscending ks
    → IsAscending js
    → ((i : Key) → listed i ks ≡ listed i js)
    → ks ≡ js
ascending_ext [] [] a b h = refl
ascending_ext [] (j ∷ js) a b h = absurd (ground (arith, h j, head_listed j js, none_listed j))
ascending_ext (k ∷ ks) [] a b h = absurd (ground (arith, h k, head_listed k ks, none_listed k))
ascending_ext (k ∷ ks) (j ∷ js) a b h =
    let same : k ≡ j =
      same_head k j ks js a b (sym (h k) ∙ head_listed k ks) (h j ∙ head_listed j js) in
    cc (same, ascending_ext ks js a.1 b.1 (tails k j ks js a b same h))

-- The keys that `Keys` collects before it sorts them, for any test of a key.
module _ (f : Key → Bool) where
  collected : Dict Text → List Key
  collected m = keep_if f (map (λ e. e.0) m)

  collected-cons :
      (k v : Text) (m : Dict Text)
      → collected ((k, v) ∷ m) ≡ (if f k then k ∷ collected m else collected m)
  unfolding collected
  collected-cons k v m = refl

  listed-collected :
      (j : Text) (m : Dict Text) → listed j (collected m) ≡ (f j && is_present (lookup j m))
  unfolding listed lookup
  listed-collected j [] = unfold collected in ground arith
  listed-collected j ((k, v) ∷ m) = elim (Bool-cases (text_eq k j)) [
    | inl e ↦
        let same : f k ≡ f j = ap f (text_eq→eq k j e) in
        rw (collected-cons k v m) (ground (arith, listed-collected j m))
    | inr e ↦ rw (collected-cons k v m) (ground (arith, listed-collected j m))
  ]

  collected-IsUnique : (m : Dict Text) → IsDistinct m → IsUnique (collected m)
  collected-IsUnique [] d = unfold collected in tt
  collected-IsUnique ((k, v) ∷ m) d = elim (Bool-cases (f k)) [
    | inl e ↦
        rw (collected-cons k v m, e)
          (
            listed-collected k m ∙ ap (λ o. f k && is_present o) d.0 ∙ ground arith,
            collected-IsUnique m d.1,
          )
    | inr e ↦ rw (collected-cons k v m, e) (collected-IsUnique m d.1)
  ]

-- `Keys` lists, strictly ascending, the keys of the store that begin with the prefix and no other.
pub keys-IsAscending :
    (p : Text) (s : Store)
    → IsDistinct s.entries
    → IsAscending (keys p s)
      × ((k : Key) → listed k (keys p s) ≡ ((is_empty p || has_prefix p k) && is_present (get k s)))
unfolding keys get collected
keys-IsAscending p s d =
    let test : Key → Bool = λ k. is_empty p || has_prefix p k in
    (
      sort_keys-IsAscending (collected test s.entries) (collected-IsUnique test s.entries d),
      λ k. listed-sort_keys k (collected test s.entries) ∙ listed-collected test k s.entries,
    )

-- Two stores that read alike at every key list the same keys, in the same order, whatever the order
-- in which their maps are iterated.
keys_of_content :
    (p : Text) (s t : Store)
    → IsDistinct s.entries
    → IsDistinct t.entries
    → ((k : Key) → get k s ≡ get k t)
    → keys p s ≡ keys p t
keys_of_content p s t d e h =
    let (a, inside) = keys-IsAscending p s d in
    let (b, outside) = keys-IsAscending p t e in
    ascending_ext (keys p s) (keys p t) a b (λ k.
      inside k ∙ ap (λ o. (is_empty p || has_prefix p k) && is_present o) (h k) ∙ sym (outside k))
