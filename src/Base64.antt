-- ===== src/Base64.antt =====
-- `base64.StdEncoding` of Go's encoding/base64, which internal/pipe/hybrid.go encodes with and
-- internal/pipeline/pipeline.go decodes with. Decoding skips line ends, wants the padding, and does
-- not look at the bits that the padding leaves over.
pub mod RoundTrip
use rdw.Common.{
  ltb, leb, ◌==◌, if◌then◌else◌, length, Text, ℕ, ◌+◌, ◌-◌, ◌*◌, ◌/◌, ◌%◌, Bool, ◌&&◌, ◌||◌, Option,
  none, some, [], ◌∷◌, ◌++◌,
}

-- The character for six bits, and the six bits of a character.
pub char_of : ℕ → ℕ
char_of n =
    if ltb n 26
    then n + b'A'
    else if ltb n 52
    then n - 26 + b'a'
    else if ltb n 62
    then n - 52 + b'0'
    else if n == 62
    then b'+'
    else b'/'

pub bits_of : ℕ → Option ℕ
bits_of c =
    if leb b'A' c && leb c b'Z'
    then some (c - b'A')
    else if leb b'a' c && leb c b'z'
    then some (c - b'a' + 26)
    else if leb b'0' c && leb c b'9'
    then some (c - b'0' + 52)
    else if c == b'+'
    then some 62
    else if c == b'/'
    then some 63
    else none

unfoldable pub encode : Text → Text
encode [] = []
encode (a ∷ []) = char_of (a / 4) ∷ char_of (a % 4 * 16) ∷ b'=' ∷ b'=' ∷ []
encode (a ∷ b ∷ []) =
    char_of (a / 4) ∷ char_of (a % 4 * 16 + b / 16) ∷ char_of (b % 16 * 4) ∷ b'=' ∷ []
encode (a ∷ b ∷ c ∷ s) =
    char_of (a / 4)
    ∷ char_of (a % 4 * 16 + b / 16)
    ∷ char_of (b % 16 * 4 + c / 64)
    ∷ char_of (c % 64)
    ∷ encode s

abbrev with_bits : Option ℕ → (ℕ → Option Text) → Option Text
with_bits none f = none
with_bits (some n) f = f n

abbrev after_bytes : Text → Option Text → Option Text
after_bytes bs none = none
after_bytes bs (some s) = some (bs ++ s)

-- The first byte of a quantum from its first two characters, the second and the third.
abbrev pub byte1 : ℕ → ℕ → ℕ
byte1 x y = x * 4 + y / 16

abbrev pub byte2 : ℕ → ℕ → ℕ
byte2 y z = y % 16 * 16 + z / 4

abbrev pub byte3 : ℕ → ℕ → ℕ
byte3 z w = z % 4 * 64 + w

-- A last quantum with padding: `xx==` or `xxx=`.
pub decode_padded : ℕ → ℕ → ℕ → Option Text
decode_padded a b c = with_bits (bits_of a) λ x. with_bits (bits_of b) λ y.
    if c == b'='
    then some (byte1 x y ∷ [])
    else with_bits (bits_of c) λ z. some (byte1 x y ∷ byte2 y z ∷ [])

pub decode_quantum : ℕ → ℕ → ℕ → ℕ → Option Text
decode_quantum a b c d = with_bits (bits_of a) λ x. with_bits (bits_of b) λ y.
    with_bits (bits_of c)
      λ z. with_bits (bits_of d) λ w. some (byte1 x y ∷ byte2 y z ∷ byte3 z w ∷ [])

abbrev append_decoded : Option Text → Option Text → Option Text
append_decoded none later = none
append_decoded (some bs) later = after_bytes bs later

pub decode_quanta : Text → Option Text
decode_quanta [] = some []
decode_quanta (a ∷ []) = none
decode_quanta (a ∷ b ∷ []) = none
decode_quanta (a ∷ b ∷ c ∷ []) = none
decode_quanta (a ∷ b ∷ c ∷ d ∷ s) =
    let later = decode_quanta s in
    if d == b'='
    then (if length s == 0 then decode_padded a b c else none)
    else append_decoded (decode_quantum a b c d) later

abbrev pub is_line_end : ℕ → Bool
is_line_end c = c == b'\n' || c == b'\r'

pub skip_line_ends : Text → Text
skip_line_ends [] = []
skip_line_ends (c ∷ s) = if is_line_end c then skip_line_ends s else c ∷ skip_line_ends s

pub decode : Text → Option Text
decode s = decode_quanta (skip_line_ends s)
