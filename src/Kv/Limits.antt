-- ===== src/Kv/Limits.antt =====
-- The byte count and the limits of the store of internal/kvstore/kvstore.go.
use rdw.Common.{
  if◌then◌else◌, length, All, Dict, insert, remove, IsDistinct, total, lookup-insert, lookup-remove,
  remove-IsDistinct, insert-IsDistinct, total-insert, total-remove, weight_of-le-total, Result, ok,
  err, Text, text_eq, text_eq_iff, ◌+◌, ◌≤◌, ◌≡◌, refl, ◌↔◌, Bool, true, false, ◌&&◌, none, some,
  List, [], ◌∷◌, arith,
}
use rdw.Kv.{
  value_max_bytes, store_max_bytes, Key, KvError, Store, new_store, put, get, delete_found, delete,
}

-- The count is the sum of the lengths of the values, and within the limit; so is each value.
pub record IsValid (s : Store) : Type 0 where
  pub distinct : IsDistinct s.entries
  pub counted : s.total_bytes ≡ total length s.entries
  pub within : s.total_bytes ≤ store_max_bytes
  pub values_fit : All (λ e. length e.1 ≤ value_max_bytes) s.entries

pub new-IsValid : IsValid new_store
new-IsValid = record {
  distinct = tt;
  counted = unfold total in refl;
  within = omega arith;
  values_fit = tt;
}

insert-fits :
    (k v : Text) (m : Dict Text)
    → length v ≤ value_max_bytes
    → All (λ e. length e.1 ≤ value_max_bytes) m
    → All (λ e. length e.1 ≤ value_max_bytes) (insert k v m)
unfolding insert
insert-fits k v [] h f = (h, tt)
insert-fits k v ((j, w) ∷ m) h f = ground (arith, insert-fits k v m)

remove-fits :
    (k : Text) (m : Dict Text)
    → All (λ e. length e.1 ≤ value_max_bytes) m
    → All (λ e. length e.1 ≤ value_max_bytes) (remove k m)
unfolding remove
remove-fits k [] f = tt
remove-fits k ((j, w) ∷ m) f = ground (arith, remove-fits k m)

pub put-IsValid : (k value : Text) (s : Store) → IsValid s → IsValid (put k value s).0
unfolding put
put-IsValid k value s v = ground (
  arith,
  insert-IsDistinct k value s.entries v.distinct,
  total-insert length k value s.entries,
  weight_of-le-total length k s.entries,
  insert-fits k value s.entries,
)

delete-IsValid : (k : Text) (s : Store) → IsValid s → IsValid (delete k s)
unfolding delete delete_found
delete-IsValid k s v = ground (
  arith,
  remove-IsDistinct k s.entries v.distinct,
  total-remove length k s.entries v.distinct,
  remove-fits k s.entries v.values_fit,
)

-- A client's calls.
pub data Call : Type 0 where
  put_call : Key → Text → Call
  delete_call : Key → Call

unfoldable pub run : List Call → Store → Store
run [] s = s
run (put_call k v ∷ cs) s = run cs (put k v s).0
run (delete_call k ∷ cs) s = run cs (delete k s)

-- After any calls to a store within its limits, as a new one is, refused ones included, the byte count is the sum of the lengths of
-- the values, at most 64 MiB, and each value is at most 64 KiB.
run-IsValid : (cs : List Call) (s : Store) → IsValid s → IsValid (run cs s)
unfolding run
run-IsValid [] s v = v
run-IsValid (put_call k x ∷ cs) s v = run-IsValid cs (put k x s).0 (put-IsValid k x s v)
run-IsValid (delete_call k ∷ cs) s v = run-IsValid cs (delete k s) (delete-IsValid k s v)

abbrev pub is_stored : Result KvError Unit → Bool
is_stored (ok tt) = true
is_stored (err e) = false

-- `Set` succeeds exactly when the value is at most 64 KiB and the values of the other keys
-- leave room for it. Then the key reads as the value; in every other case, and at every other key, the
-- store reads as before.
pub get-put :
    (k j value : Text) (s : Store)
    → IsValid s
    → (((put k value s).1 ≡ ok tt) ↔ (
        (length value ≤ value_max_bytes)
        × (total length (remove k s.entries) + length value ≤ store_max_bytes)))
      × (get j (put k value s).0
          ≡ (if is_stored (put k value s).1 && text_eq k j then some value else get j s))
unfolding put get
get-put k j value s v =
    let rest = total-remove length k s.entries v.distinct in
    ((λ h. ground arith, λ h. ground arith), ground (arith, lookup-insert k j value s.entries))

-- A deleted key reads as absent, whether it was there or not, and every other key as before.
get-delete : (k j : Text) (s : Store) → get j (delete k s) ≡ (if text_eq k j then none else get j s)
unfolding delete delete_found get
get-delete k j s = ground (arith, lookup-remove k j s.entries, text_eq_iff k j)
