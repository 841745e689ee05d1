-- ===== src/Kv/Persist.antt =====
-- internal/kvstore/persist.go: reading the stored rows back. The rows are what SQLite returns; the
-- table's primary key makes their keys distinct.
use mathlib.Core.List.{append-nil, append_assoc}
use rdw.Common.{
  if◌then◌else◌, length, Dict, lookup, insert, total, Result-cases, ok, err, Text, text_eq,
  text_eq_iff, ℕ, ◌+◌, ◌≤◌, ◌≡◌, refl, sym, ap, ◌∙◌, inl, inr, none, some, [], ◌∷◌, ◌++◌, arith,
}
use rdw.Kv.{value_max_bytes, store_max_bytes, parse_key, Store, new_store, put, snapshot}
use rdw.Kv.Limits.{IsValid, put-IsValid}

-- One round of the loop of `Load`: a row that is refused is passed over.
unfoldable load_row : Text → Text → Store → Store
load_row k v s = elim (parse_key k) [ err e ↦ s | ok key ↦ (put key v s).0 ]

pub load : Dict Text → Store → Store
load [] s = s
load ((k, v) ∷ rows) s = load rows (load_row k v s)

load_row-IsValid : (k v : Text) (s : Store) → IsValid s → IsValid (load_row k v s)
unfolding load_row
load_row-IsValid k v s i = elim (Result-cases (parse_key k)) [
  | inl (key, e) ↦
      let same : load_row k v s ≡ (put key v s).0 = ground arith in rw same (put-IsValid key v s i)
  | inr (x, e) ↦ let same : load_row k v s ≡ s = ground arith in rw same i
]

-- Whatever the rows hold, what is loaded is within the limits.
load-IsValid : (rows : Dict Text) (s : Store) → IsValid s → IsValid (load rows s)
unfolding load
load-IsValid [] s i = i
load-IsValid ((k, v) ∷ rows) s i = load-IsValid rows (load_row k v s) (load_row-IsValid k v s i)

-- Rows that a store may have written: distinct keys that parse, and values that fit.
abbrev pub IsStored : Dict Text → Type 0
IsStored [] = Unit
IsStored ((k, v) ∷ m) =
    (parse_key k ≡ ok k) × (lookup k m ≡ none) × (length v ≤ value_max_bytes) × IsStored m

insert_absent : (k v : Text) (m : Dict Text) → lookup k m ≡ none → insert k v m ≡ m ++ (k, v) ∷ []
unfolding lookup insert
insert_absent k v [] h = refl
insert_absent k v ((j, w) ∷ m) h = ground (arith, insert_absent k v m)

lookup-snoc :
    (k j v : Text) (m : Dict Text)
    → lookup j m ≡ none
    → lookup j (m ++ (k, v) ∷ []) ≡ (if text_eq k j then some v else none)
unfolding lookup
lookup-snoc k j v [] h = refl
lookup-snoc k j v ((i, w) ∷ m) h = ground (arith, lookup-snoc k j v m)

total-append : (m n : Dict Text) → total length (m ++ n) ≡ total length m + total length n
unfolding total
total-append [] n = omega arith
total-append ((k, v) ∷ m) n = omega (arith, total-append m n)

-- No key of the first list is in the second.
abbrev Apart : Dict Text → Dict Text → Type 0
Apart [] m = Unit
Apart ((k, v) ∷ rows) m = (lookup k m ≡ none) × Apart rows m

Apart-nil : (rows : Dict Text) → Apart rows []
Apart-nil [] = tt
Apart-nil ((k, v) ∷ rows) = (unfold lookup in refl, Apart-nil rows)

Apart-snoc :
    (rows m : Dict Text) (k v : Text)
    → lookup k rows ≡ none
    → Apart rows m
    → Apart rows (m ++ (k, v) ∷ [])
unfolding lookup
Apart-snoc [] m k v h a = tt
Apart-snoc ((j, w) ∷ rows) m k v h a = (
  lookup-snoc k j v m a.0 ∙ ground (arith, text_eq_iff k j, text_eq_iff j k),
  Apart-snoc rows m k v (ground arith) a.1,
)

load_row-fits :
    (k v : Text) (s : Store)
    → parse_key k ≡ ok k
    → lookup k s.entries ≡ none
    → length v ≤ value_max_bytes
    → s.total_bytes + length v ≤ store_max_bytes
    → load_row k v s
      ≡ record { entries = s.entries ++ (k, v) ∷ []; total_bytes = s.total_bytes + length v }
unfolding load_row put
load_row-fits k v s p a f r = ground (arith, insert_absent k v s.entries)

store_eq :
    {e e' : Dict Text} {n n' : ℕ}
    → e ≡ e'
    → n ≡ n'
    → ◌≡◌ {A = Store}
        (record { entries = e; total_bytes = n })
        (record { entries = e'; total_bytes = n' })
store_eq p q = λ i. record { entries = p i; total_bytes = q i }

load-appends :
    (rows : Dict Text) (s : Store)
    → IsStored rows
    → Apart rows s.entries
    → s.total_bytes + total length rows ≤ store_max_bytes
    → load rows s
      ≡ record { entries = s.entries ++ rows; total_bytes = s.total_bytes + total length rows }
unfolding load total
load-appends [] s i a f = store_eq (sym (append-nil s.entries)) (omega arith)
load-appends ((k, v) ∷ rows) s i a f =
    let s' : Store = record {
      entries = s.entries ++ (k, v) ∷ [];
      total_bytes = s.total_bytes + length v;
    } in
    ap (load rows) (load_row-fits k v s i.0 a.0 i.2 (omega arith))
    ∙ load-appends rows s' i.3 (Apart-snoc rows s.entries k v i.1 a.1) (omega arith)
    ∙ store_eq (append_assoc s.entries ((k, v) ∷ []) rows) (omega arith)

-- A new store that loads the rows of a saved one holds the same entries and the same byte count.
pub load_saved : (s : Store) → IsValid s → IsStored s.entries → load (snapshot s) new_store ≡ s
load_saved s v i =
    load-appends s.entries new_store i (Apart-nil s.entries) (omega (arith, v.counted, v.within))
    ∙ store_eq refl (omega (arith, v.counted))
