-- ===== src/Kv.antt =====
-- internal/kvstore/kvstore.go: the session's key-value store with its size limits, and the keys of
-- a map. The store's mutex makes each method one step.
pub mod Limits
pub mod Persist
pub mod Keys
use rdw.Common.{
  ltb, ◌==◌, if◌then◌else◌, length, keep_if, Dict, lookup, insert, remove, weight_of, Result, ok,
  err, Text, is_empty, after_prefix, ℕ, ◌+◌, ◌-◌, ◌*◌, Bool, true, false, not, ◌&&◌, ◌||◌, Option,
  none, some, List, [], ◌∷◌, map,
}
use rdw.Session.TargetId.{is_word, is_id_byte, all_bytes}

abbrev key_max_len : ℕ
key_max_len = 64

abbrev pub value_max_bytes : ℕ
value_max_bytes = 64 * 1024

abbrev pub store_max_bytes : ℕ
store_max_bytes = 64 * 1024 * 1024

abbrev pub Key : Type 0
Key = Text

pub data KvError : Type 0 where
  empty_key key_too_long invalid_key value_too_big store_full : KvError

-- `[a-zA-Z0-9_ :-]`
abbrev is_key_byte : ℕ → Bool
is_key_byte c = is_id_byte c || c == b':'

-- `keyPattern.MatchString`
unfoldable pub matches_key : Text → Bool
matches_key [] = false
matches_key (c ∷ s) = is_word c && all_bytes is_key_byte s

unfoldable pub parse_key : Text → Result KvError Key
parse_key s =
    if length s == 0
    then err empty_key
    else if ltb key_max_len (length s)
    then err key_too_long
    else if not (matches_key s)
    then err invalid_key
    else ok s

pub record Store : Type 0 where
  pub entries : Dict Text
  pub total_bytes : ℕ

abbrev pub new_store : Store
new_store = record { entries = []; total_bytes = 0 }

-- `len(s.data[k])`: the value of an absent key is empty.
abbrev existing : Key → Store → ℕ
existing k s = weight_of length (lookup k s.entries)

-- `totalBytes + delta > StoreMaxBytes` with `delta = len(value) - existing` brought over to the
-- other side. The new count is written with the sum first; the stored values are counted in it
-- (`Limits.IsValid`), so the difference does not stop at 0.
pub put : Key → Text → Store → Store × Result KvError Unit
put k value s =
    if ltb value_max_bytes (length value)
    then (s, err value_too_big)
    else if ltb (store_max_bytes + existing k s) (s.total_bytes + length value)
    then (s, err store_full)
    else (
      record s {
        entries = insert k value s.entries;
        total_bytes = s.total_bytes + length value - existing k s;
      },
      ok tt,
    )

unfoldable pub get : Key → Store → Option Text
get k s = lookup k s.entries

pub delete_found : Key → Store → Option Text → Store
delete_found k s none = s
delete_found k s (some v) = record s {
  entries = remove k s.entries;
  total_bytes = s.total_bytes - length v;
}

pub delete : Key → Store → Store
delete k s = delete_found k s (lookup k s.entries)

abbrev pub snapshot : Store → Dict Text
snapshot s = s.entries

abbrev pub len : Store → ℕ
len s = length s.entries

-- `k < j` on strings: byte by byte.
pub text_lt : Text → Text → Bool
text_lt [] [] = false
text_lt [] (y ∷ ys) = true
text_lt (x ∷ xs) [] = false
text_lt (x ∷ xs) (y ∷ ys) = ltb x y || x == y && text_lt xs ys

abbrev pub has_prefix : Text → Text → Bool
has_prefix p s = elim (after_prefix p s) [ none ↦ false | some r ↦ true ]

-- `sortKeys`. The keys of a map are distinct, so every sort gives this list.
pub insert_key : Key → List Key → List Key
insert_key k [] = k ∷ []
insert_key k (j ∷ ks) = if text_lt k j then k ∷ j ∷ ks else j ∷ insert_key k ks

pub sort_keys : List Key → List Key
sort_keys [] = []
sort_keys (k ∷ ks) = insert_key k (sort_keys ks)

-- The loop of `Keys`, then the sort.
pub keys : Text → Store → List Key
keys p s = sort_keys (keep_if (λ k. is_empty p || has_prefix p k) (map (λ e. e.0) s.entries))
