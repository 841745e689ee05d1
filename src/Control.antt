-- ===== src/Control.antt =====
-- internal/control/control.go: control sequences, lines of the form `prefix:payload`, and the pairs
-- of a `=:` sequence. Texts are bytes; white space is Unicode's, in UTF-8, as `strings.TrimSpace`
-- takes it.
pub mod Prefix
pub mod Pairs
use mathlib.Core.List.{reverse}
use rdw.Common.{
  ltb, leb, ◌==◌, if◌then◌else◌, length, drop, Dict, lookup, ◌>>=◌, Result, ok, err, Text, codes,
  is_empty, after_prefix, ℕ, zero, suc, Bool, true, false, not, ◌&&◌, ◌||◌, Option, none, some,
  List, [], ◌∷◌, ◌++◌,
}

pub data Kind : Type 0 where
  verbatim quit semaphore clear timestamp formatter relay kv : Kind
  base64 bookmark highlight scrollback image svg scale svg_data title : Kind

pub record Sequence : Type 0 where
  pub kind : Kind
  pub payload : Text

abbrev pub sentinel_image_end : Text
sentinel_image_end = codes "image:end"

abbrev pub sentinel_svg_end : Text
sentinel_svg_end = codes "svg:end"

abbrev pub known_kinds : Dict Kind
known_kinds =
    (codes "v", verbatim)
    ∷ (codes "q", quit)
    ∷ (codes "s", semaphore)
    ∷ (codes "c", clear)
    ∷ (codes "t", timestamp)
    ∷ (codes "f", formatter)
    ∷ (codes "r", relay)
    ∷ (codes "=", kv)
    ∷ []

abbrev pub multi_kinds : Dict Kind
multi_kinds =
    (codes "b64", base64)
    ∷ (codes "bm", bookmark)
    ∷ (codes "hl", highlight)
    ∷ (codes "sc", scrollback)
    ∷ (codes "image", image)
    ∷ (codes "svg", svg)
    ∷ (codes "scale", scale)
    ∷ (codes "svg-data", svg_data)
    ∷ (codes "title", title)
    ∷ []

abbrev pub sequence : Kind → Text → Sequence
sequence k p = record { kind = k; payload = p }

-- The loop over `multiKinds`, in the order in which the map is iterated.
unfoldable pub parse_multi : Dict Kind → Text → Option Sequence
parse_multi [] line = none
parse_multi ((prefix, k) ∷ rest) line =
    let later = parse_multi rest line in
    elim (after_prefix (prefix ++ codes ":") line) [ some p ↦ some (sequence k p) | none ↦ later ]

abbrev pub with_payload : Text → Option Kind → Option Sequence
with_payload p none = none
with_payload p (some k) = some (sequence k p)

-- From `if line[1] != ':'` on.
unfoldable pub parse_single : Text → Option Sequence
parse_single [] = none
parse_single (c ∷ []) = none
parse_single (c ∷ d ∷ p) =
    if not (d == b':') then none else with_payload p (lookup (c ∷ []) known_kinds)

abbrev pub or_else {ℓ} : {A : Type ℓ} → Option A → Option A → Option A
or_else (some a) other = some a
or_else none other = other

-- `Parse`, where Go iterates over `multiKinds` in the given order.
unfoldable pub parse_in : Dict Kind → Text → Option Sequence
parse_in order line =
    if ltb (length line) 2 then none else or_else (parse_multi order line) (parse_single line)

unfoldable pub parse : Text → Option Sequence
parse = parse_in multi_kinds

unfoldable is_verbatim : Sequence → Bool
is_verbatim s = elim s.kind [ verbatim ↦ true | _ ↦ false ]

-- `strings.Split(s, sep)` at one byte.
pub push_first : ℕ → List Text → List Text
push_first c [] = (c ∷ []) ∷ []
push_first c (t ∷ ts) = (c ∷ t) ∷ ts

pub split_on : ℕ → Text → List Text
split_on sep [] = [] ∷ []
split_on sep (c ∷ s) =
    let rest = split_on sep s in if c == sep then [] ∷ rest else push_first c rest

abbrev cons_cut : ℕ → Option (Text × Text) → Option (Text × Text)
cons_cut c none = none
cons_cut c (some (a, b)) = some (c ∷ a, b)

-- `s[:i]` and `s[i+1:]` at `i = strings.IndexByte(s, sep)`; `none` is its -1.
unfoldable pub cut_at : ℕ → Text → Option (Text × Text)
cut_at sep [] = none
cut_at sep (c ∷ s) = let rest = cut_at sep s in if c == sep then some ([], s) else cons_cut c rest

-- `unicode.IsSpace` of one byte, of two bytes (U+0085, U+00A0) and of three.
abbrev is_space1 : ℕ → Bool
is_space1 a = leb 9 a && leb a 13 || a == 32

abbrev is_space2 : ℕ → ℕ → Bool
is_space2 a b = a == 0xC2 && (b == 0x85 || b == 0xA0)

abbrev is_space3 : ℕ → ℕ → ℕ → Bool
is_space3 a b c =
    a == 0xE1 && b == 0x9A && c == 0x80
    || a == 0xE2 && b == 0x80 && (leb 0x80 c && leb c 0x8A || c == 0xA8 || c == 0xA9 || c == 0xAF)
    || a == 0xE2 && b == 0x81 && c == 0x9F
    || a == 0xE3 && b == 0x80 && c == 0x80

-- The bytes of the white space at the front of a text, 0 if there is none.
unfoldable pub leading_space : Text → ℕ
leading_space [] = 0
leading_space (a ∷ []) = if is_space1 a then 1 else 0
leading_space (a ∷ b ∷ []) = if is_space1 a then 1 else if is_space2 a b then 2 else 0
leading_space (a ∷ b ∷ c ∷ s) =
    if is_space1 a then 1 else if is_space2 a b then 2 else if is_space3 a b c then 3 else 0

-- The same at the front of a reversed text.
unfoldable pub trailing_space : Text → ℕ
trailing_space [] = 0
trailing_space (a ∷ []) = if is_space1 a then 1 else 0
trailing_space (a ∷ b ∷ []) = if is_space1 a then 1 else if is_space2 b a then 2 else 0
trailing_space (a ∷ b ∷ c ∷ s) =
    if is_space1 a then 1 else if is_space2 b a then 2 else if is_space3 c b a then 3 else 0

-- Each round takes a byte or more, so the length is fuel enough.
unfoldable pub trim_by : (Text → ℕ) → ℕ → Text → Text
trim_by space zero s = s
trim_by space (suc fuel) s =
    let rest = trim_by space fuel (drop (space s) s) in if space s == 0 then s else rest

-- `strings.TrimSpace`
unfoldable pub trim_space : Text → Text
trim_space s =
    let left = trim_by leading_space (length s) s in
    reverse (trim_by trailing_space (length left) (reverse left))

pub data PairsError : Type 0 where
  not_kv : PairsError
  malformed : Text → PairsError

-- `idx <= 0`
abbrev pair_of : Text → Option (Text × Text) → Result PairsError (Text × Text)
pair_of entry none = err (malformed entry)
pair_of entry (some ([], v)) = err (malformed entry)
pair_of entry (some (c ∷ k, v)) = ok (c ∷ k, v)

-- The loop over the entries.
pub pairs_of : List Text → Result PairsError (List (Text × Text))
pairs_of [] = ok []
pairs_of (raw ∷ rest) =
    let later = pairs_of rest in
    let entry = trim_space raw in
    if is_empty entry
    then later
    else pair_of entry (cut_at b'=' entry) >>= λ p. later >>= λ ps. ok (p ∷ ps)

abbrev is_kv : Kind → Bool
is_kv kv = true
is_kv _ = false

pub kv_pairs : Sequence → Result PairsError (List (Text × Text))
kv_pairs s =
    if not (is_kv s.kind)
    then err not_kv
    else if is_empty s.payload
    then ok []
    else pairs_of (split_on b';' s.payload)
