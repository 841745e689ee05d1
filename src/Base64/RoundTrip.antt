-- ===== src/Base64/RoundTrip.antt =====
-- Decoding gives back the bytes that were encoded.
use mathlib.Core.Path.{ap₂}
use rdw.Common.{
  ◌==◌, All, Text, ℕ, ◌+◌, ◌*◌, ◌/◌, ◌%◌, ◌<◌, ◌≡◌, refl, ap, false, some, [], ◌∷◌, ◌++◌, arith,
}
use rdw.Base64.{
  char_of, bits_of, encode, byte1, byte2, byte3, decode_padded, decode_quantum, decode_quanta,
  is_line_end, skip_line_ends, decode,
}

-- A text whose elements are bytes.
abbrev pub IsBytes : Text → Type 0
IsBytes = All (λ b. b < 256)

bits_of-char_of : (n : ℕ) → n < 64 → bits_of (char_of n) ≡ some n
unfolding bits_of char_of
bits_of-char_of n h = ground arith

char_of_plain : (n : ℕ) → n < 64 → (is_line_end (char_of n) ≡ false) × ((char_of n == b'=') ≡ false)
unfolding char_of
char_of_plain n h = (ground arith, ground arith)

skip-encode : (s : Text) → IsBytes s → skip_line_ends (encode s) ≡ encode s
unfolding skip_line_ends encode
skip-encode [] h = refl
skip-encode (a ∷ []) h =
    rw ((char_of_plain (a / 4) (omega arith)).0, (char_of_plain (a % 4 * 16) (omega arith)).0)
skip-encode (a ∷ b ∷ []) h = rw (
  (char_of_plain (a / 4) (omega arith)).0,
  (char_of_plain (a % 4 * 16 + b / 16) (omega arith)).0,
  (char_of_plain (b % 16 * 4) (omega arith)).0,
)
skip-encode (a ∷ b ∷ c ∷ s) h = rw (
  (char_of_plain (a / 4) (omega arith)).0,
  (char_of_plain (a % 4 * 16 + b / 16) (omega arith)).0,
  (char_of_plain (b % 16 * 4 + c / 64) (omega arith)).0,
  (char_of_plain (c % 64) (omega arith)).0,
  skip-encode s h.1.1.1,
)

decode_quanta-encode : (s : Text) → IsBytes s → decode_quanta (encode s) ≡ some s
unfolding decode_quanta encode decode_padded decode_quantum
decode_quanta-encode [] h = refl
decode_quanta-encode (a ∷ []) h =
    rw (bits_of-char_of (a / 4) (omega arith), bits_of-char_of (a % 4 * 16) (omega arith))
      (ap (λ k. some (k ∷ [])) (omega arith))
decode_quanta-encode (a ∷ b ∷ []) h =
    rw
      (
        bits_of-char_of (a / 4) (omega arith),
        bits_of-char_of (a % 4 * 16 + b / 16) (omega arith),
        (char_of_plain (b % 16 * 4) (omega arith)).1,
        bits_of-char_of (b % 16 * 4) (omega arith),
      )
      (ap₂ (λ j k. some (j ∷ k ∷ [])) (omega arith) (omega arith))
decode_quanta-encode (a ∷ b ∷ c ∷ s) h =
    rw
      (
        (char_of_plain (c % 64) (omega arith)).1,
        bits_of-char_of (a / 4) (omega arith),
        bits_of-char_of (a % 4 * 16 + b / 16) (omega arith),
        bits_of-char_of (b % 16 * 4 + c / 64) (omega arith),
        bits_of-char_of (c % 64) (omega arith),
        decode_quanta-encode s h.1.1.1,
      )
      (ap (λ (t : Text). some (t ++ s)) (three a b c h.0 h.1.0 h.1.1.0))
  where
    three :
        (a b c : ℕ)
        → a < 256
        → b < 256
        → c < 256
        → byte1 (a / 4) (a % 4 * 16 + b / 16)
            ∷ byte2 (a % 4 * 16 + b / 16) (b % 16 * 4 + c / 64)
            ∷ byte3 (b % 16 * 4 + c / 64) (c % 64)
            ∷ []
          ≡ a ∷ b ∷ c ∷ []
    three a b c p q r = ground arith

-- `DecodeString` of `EncodeToString` of any bytes is those bytes.
pub decode-encode : (s : Text) → IsBytes s → decode (encode s) ≡ some s
unfolding decode
decode-encode s h = rw (skip-encode s h) (decode_quanta-encode s h)

-- The encoding is one line.
pub encode-HasNoLineEnd : (s : Text) → IsBytes s → All (λ c. is_line_end c ≡ false) (encode s)
unfolding encode
encode-HasNoLineEnd [] h = tt
encode-HasNoLineEnd (a ∷ []) h =
    let p = (char_of_plain (a / 4) (omega arith)).0 in
    let q = (char_of_plain (a % 4 * 16) (omega arith)).0 in (p, (q, (refl, (refl, tt))))
encode-HasNoLineEnd (a ∷ b ∷ []) h =
    let p = (char_of_plain (a / 4) (omega arith)).0 in
    let q = (char_of_plain (a % 4 * 16 + b / 16) (omega arith)).0 in
    let r = (char_of_plain (b % 16 * 4) (omega arith)).0 in (p, (q, (r, (refl, tt))))
encode-HasNoLineEnd (a ∷ b ∷ c ∷ s) h =
    let p = (char_of_plain (a / 4) (omega arith)).0 in
    let q = (char_of_plain (a % 4 * 16 + b / 16) (omega arith)).0 in
    let r = (char_of_plain (b % 16 * 4 + c / 64) (omega arith)).0 in
    let t = (char_of_plain (c % 64) (omega arith)).0 in
    (p, (q, (r, (t, encode-HasNoLineEnd s h.1.1.1))))
