-- ===== src/Session/TargetId.antt =====
-- internal/session/targetid.go: validated pane identifiers.
pub mod Accepts
use rdw.Common.{
  ltb, leb, ◌==◌, if◌then◌else◌, length, Result, ok, err, Text, ℕ, Bool, true, false, not, ◌&&◌,
  ◌||◌, [], ◌∷◌,
}

abbrev target_id_max_len : ℕ
target_id_max_len = 64

abbrev pub TargetId : Type 0
TargetId = Text

pub data IdError : Type 0 where
  empty_id too_long invalid_chars : IdError

-- `[a-zA-Z0-9_]`
abbrev pub is_word : ℕ → Bool
is_word c =
    leb b'a' c && leb c b'z' || leb b'A' c && leb c b'Z' || leb b'0' c && leb c b'9' || c == b'_'

-- `[a-zA-Z0-9_ -]`
abbrev pub is_id_byte : ℕ → Bool
is_id_byte c = is_word c || c == b' ' || c == b'-'

unfoldable pub all_bytes : (ℕ → Bool) → Text → Bool
all_bytes p [] = true
all_bytes p (c ∷ s) = p c && all_bytes p s

-- `targetIDPattern.MatchString`
unfoldable matches_pattern : Text → Bool
matches_pattern [] = false
matches_pattern (c ∷ s) = is_word c && all_bytes is_id_byte s

unfoldable pub parse_target_id : Text → Result IdError TargetId
unfolding matches_pattern all_bytes
parse_target_id s =
    if length s == 0
    then err empty_id
    else if ltb target_id_max_len (length s)
    then err too_long
    else if not (matches_pattern s)
    then err invalid_chars
    else ok s
