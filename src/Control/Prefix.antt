-- ===== src/Control/Prefix.antt =====
-- `Parse` of internal/control/control.go reads the prefix before the first colon, and does not depend
-- on the order in which Go iterates over its map of prefixes.
use mathlib.Core.Path.{ap₂}
use rdw.Common.{
  ltb, ◌==◌, if◌then◌else◌, ltb→lt, ==_iff, Bool-cases, Option-cases, length, All, Dict, lookup,
  Text, codes, text_eq, text_eq→eq, text_eq_refl, after_prefix, after_prefix_sound, ◌≤◌, ◌<◌, ◌≡◌,
  refl, sym, ap, ◌∙◌, ◌≢◌, inl, inr, Bool, true, false, Option, none, some, [], ◌∷◌, ◌++◌, arith,
}
use rdw.Control.{
  Kind, base64, Sequence, known_kinds, multi_kinds, parse_multi, with_payload, parse_single,
  or_else, parse_in, parse, cut_at,
}

-- A prefix with no colon.
abbrev pub HasNoColon : Text → Type 0
HasNoColon = All (λ c. (c == b':') ≡ false)

abbrev rest_after : Text → Option (Text × Text) → Option Text
rest_after p none = none
rest_after p (some (q, r)) = if text_eq p q then some r else none

-- The sequence that a table makes of a line cut at its first colon.
abbrev pub of_cut : Dict Kind → Option (Text × Text) → Option Sequence
of_cut table none = none
of_cut table (some (q, r)) = with_payload r (lookup q table)

after_prefix-cut :
    (p line : Text)
    → HasNoColon p
    → after_prefix (p ++ codes ":") line ≡ rest_after p (cut_at b':' line)
unfolding after_prefix cut_at text_eq
after_prefix-cut [] [] h = refl
after_prefix-cut [] (c ∷ s) h = ground arith
after_prefix-cut (x ∷ p) [] h = refl
after_prefix-cut (x ∷ p) (c ∷ s) h = ground (arith, h.0, after_prefix-cut p s h.1)

parse_multi-cut :
    (table : Dict Kind) (line : Text)
    → All (λ e. HasNoColon e.0) table
    → parse_multi table line ≡ of_cut table (cut_at b':' line)
unfolding parse_multi lookup
parse_multi-cut [] line h = ground arith
parse_multi-cut ((p, k) ∷ table) line h =
    ground (arith, after_prefix-cut p line h.0, parse_multi-cut table line h.1)

HasNoColon-of_lookup :
    (m : Dict Kind) (p : Text) {k : Kind}
    → All (λ e. HasNoColon e.0) m
    → lookup p m ≡ some k
    → HasNoColon p
unfolding lookup
HasNoColon-of_lookup [] p h e = absurd (ground arith)
HasNoColon-of_lookup ((j, v) ∷ m) p {k} h e = elim (Bool-cases (text_eq j p)) [
  | inl q ↦ rw (text_eq→eq j p q) at h.0
  | inr q ↦ HasNoColon-of_lookup m p {k = k} h.1 (ground arith)
]

abbrev is_present {ℓ} : {A : Type ℓ} → Option A → Bool
is_present none = false
is_present (some a) = true

-- Every key of an association list has an entry.
abbrev IsFoundIn : Dict Kind → Dict Kind → Type 0
IsFoundIn m = All (λ e. is_present (lookup e.0 m) ≡ true)

found_cons : (j : Text) (v : Kind) (m n : Dict Kind) → IsFoundIn m n → IsFoundIn ((j, v) ∷ m) n
unfolding lookup
found_cons j v m [] h = tt
found_cons j v m ((i, w) ∷ n) h = (ground (arith, h.0), found_cons j v m n h.1)

found_all : (m : Dict Kind) → IsFoundIn m m
unfolding lookup
found_all [] = tt
found_all ((j, v) ∷ m) = (rw (text_eq_refl j), found_cons j v m m (found_all m))

HasNoColon-of_found :
    (m n : Dict Kind) → All (λ e. HasNoColon e.0) m → IsFoundIn m n → All (λ e. HasNoColon e.0) n
HasNoColon-of_found m [] h f = tt
HasNoColon-of_found m ((j, v) ∷ n) h f = elim (Option-cases (lookup j m)) [
  | inl e ↦ absurd (ground arith)
  | inr (k, e) ↦ (HasNoColon-of_lookup m j {k = k} h e, HasNoColon-of_found m n h f.1)
]

-- The same map, iterated in another order.
abbrev IsSameMap : Dict Kind → Dict Kind → Type 0
IsSameMap m n = (p : Text) → lookup p m ≡ lookup p n

found_same : (m n l : Dict Kind) → IsSameMap m n → IsFoundIn m l → IsFoundIn n l
found_same m n [] s f = tt
found_same m n ((j, v) ∷ l) s f = (rw (← s j) f.0, found_same m n l s f.1)

multi_kinds-HasNoColon : All (λ e. HasNoColon e.0) multi_kinds
multi_kinds-HasNoColon = ground arith

known_of_length-ne : (q : Text) → length q ≢ 1 → lookup q known_kinds ≡ none
unfolding lookup text_eq
known_of_length-ne [] h = refl
known_of_length-ne (c ∷ []) h = absurd (h refl)
known_of_length-ne (c ∷ d ∷ q) h = ground arith

multi_of_short : (q : Text) → length q < 2 → lookup q multi_kinds ≡ none
unfolding lookup text_eq
multi_of_short [] h = refl
multi_of_short (c ∷ []) h = ground arith
multi_of_short (c ∷ d ∷ q) h = absurd (omega arith)

colon_unknown : lookup (codes ":") known_kinds ≡ none
unfolding lookup text_eq
colon_unknown = refl

parse_single-cut :
    (line : Text) → 2 ≤ length line → parse_single line ≡ of_cut known_kinds (cut_at b':' line)
unfolding parse_single cut_at
parse_single-cut [] h = absurd (omega arith)
parse_single-cut (c ∷ []) h = absurd (omega arith)
parse_single-cut (c ∷ d ∷ p) h = elim (Bool-cases (c == b':')) [
  | inl e ↦
      let same : c ≡ b':' = (==_iff c b':').0 e in
      rw e (
        ground (
          arith,
          colon_unknown,
          ap (λ k. lookup (k ∷ []) known_kinds) same,
          known_of_length-ne [] (omega arith),
        ))
  | inr e ↦ elim (Bool-cases (d == b':')) [
    | inl k ↦ rw (e, k)
    | inr k ↦ elim (Option-cases (cut_at b':' p)) [
      | inl z ↦ rw (e, k, z)
      | inr ((q, r), z) ↦ rw (e, k, z) (rw (known_of_length-ne (c ∷ d ∷ q) (omega arith)))
    ]
  ]
]

lookup-append : (q : Text) (m n : Dict Kind) → lookup q (m ++ n) ≡ or_else (lookup q m) (lookup q n)
unfolding lookup
lookup-append q [] n = refl
lookup-append q ((j, v) ∷ m) n = ground (arith, lookup-append q m n)

all_kinds_cut :
    (o : Option (Text × Text))
    → or_else (of_cut multi_kinds o) (of_cut known_kinds o) ≡ of_cut (multi_kinds ++ known_kinds) o
all_kinds_cut none = refl
all_kinds_cut (some (q, r)) = ground (arith, lookup-append q multi_kinds known_kinds)

of_cut_same : (m n : Dict Kind) (o : Option (Text × Text)) → IsSameMap m n → of_cut m o ≡ of_cut n o
of_cut_same m n none s = refl
of_cut_same m n (some (q, r)) s = ap (with_payload r) (s q)

short_cut :
    (line : Text) → length line < 2 → of_cut (multi_kinds ++ known_kinds) (cut_at b':' line) ≡ none
unfolding cut_at
short_cut [] h = refl
short_cut (c ∷ []) h = ground (
  arith,
  lookup-append [] multi_kinds known_kinds,
  multi_of_short [] (omega arith),
  known_of_length-ne [] (omega arith),
)
short_cut (c ∷ d ∷ s) h = absurd (omega arith)

parse_in_long :
    (order : Dict Kind) (line : Text)
    → ltb (length line) 2 ≡ false
    → parse_in order line ≡ or_else (parse_multi order line) (parse_single line)
unfolding parse_in
parse_in_long order line e = rw e

-- In whatever order Go iterates over the map of longer prefixes, `Parse` cuts the line at its first
-- colon and looks the part before it up among all prefixes, short and long: a line with no colon,
-- or with another text before it, is no control sequence, and the payload is the whole rest.
pub parse_in-first_colon :
    (order : Dict Kind) (line : Text)
    → IsSameMap multi_kinds order
    → parse_in order line ≡ of_cut (multi_kinds ++ known_kinds) (cut_at b':' line)
parse_in-first_colon order line s =
    let plain =
      HasNoColon-of_found multi_kinds order multi_kinds-HasNoColon
        (found_same order multi_kinds order (λ p. sym (s p)) (found_all order)) in
    let whole = cut_at b':' line in
    elim (Bool-cases (ltb (length line) 2)) [
      | inl e ↦ unfold parse_in in rw e (sym (short_cut line (ltb→lt (length line) 2 e)))
      | inr e ↦
          parse_in_long order line e
          ∙ ap₂ or_else
              (parse_multi-cut order line plain ∙ sym (of_cut_same multi_kinds order whole s))
              (parse_single-cut line (ground arith))
          ∙ all_kinds_cut whole
    ]

cut_at-prefixed : (q s : Text) → HasNoColon q → cut_at b':' (q ++ b':' ∷ s) ≡ some (q, s)
unfolding cut_at
cut_at-prefixed [] s h = ground arith
cut_at-prefixed (c ∷ q) s h = rw (h.0, cut_at-prefixed q s h.1)

-- A line that begins with a known prefix and a colon.
pub parse-prefixed :
    (q s : Text)
    → HasNoColon q
    → parse (q ++ b':' ∷ s) ≡ with_payload s (lookup q (multi_kinds ++ known_kinds))
unfolding parse
parse-prefixed q s h =
    parse_in-first_colon multi_kinds (q ++ b':' ∷ s) (λ p. refl)
    ∙ ap (of_cut (multi_kinds ++ known_kinds)) (cut_at-prefixed q s h)

pub b64_plain : HasNoColon (codes "b64")
b64_plain = (refl, (refl, (refl, tt)))

pub b64_known : lookup (codes "b64") (multi_kinds ++ known_kinds) ≡ some base64
unfolding lookup text_eq
b64_known = refl

-- A line that is no control sequence does not begin with `b64:`.
pub not_base64_of_none : (line : Text) → parse line ≡ none → after_prefix (codes "b64:") line ≡ none
not_base64_of_none line h = elim (Option-cases (after_prefix (codes "b64:") line)) [
  | inl e ↦ e
  | inr (r, e) ↦
      let at : line ≡ codes "b64:" ++ r = after_prefix_sound (codes "b64:") line e in
      absurd (ground (arith, ap parse at, parse-prefixed (codes "b64") r b64_plain, b64_known))
]
