-- ===== src/Session/TargetId/Accepts.antt =====
-- The identifiers that `ParseTargetID` accepts.
use rdw.Common.{length, All, ok, Text, ℕ, ◌≤◌, ◌≡◌, refl, ◌↔◌, ◌⊎◌, true, [], ◌∷◌, arith}
use rdw.Session.TargetId.{is_word, is_id_byte, all_bytes, parse_target_id}

-- A letter, a digit or an underscore.
abbrev IsWord : ℕ → Type 0
IsWord c = (b'a' ≤ c) × (c ≤ b'z') ⊎ (b'A' ≤ c) × (c ≤ b'Z') ⊎ (b'0' ≤ c) × (c ≤ b'9') ⊎ (c ≡ b'_')

abbrev IsIdByte : ℕ → Type 0
IsIdByte c = IsWord c ⊎ (c ≡ b' ') ⊎ (c ≡ b'-')

-- 1 to 64 bytes: a word byte, then word bytes, spaces and dashes.
abbrev pub IsTargetId : Text → Type 0
IsTargetId [] = ⊥
IsTargetId (c ∷ s) = (length (c ∷ s) ≤ 64) × IsWord c × All IsIdByte s

is_word_iff : (c : ℕ) → (is_word c ≡ true) ↔ IsWord c
is_word_iff c = (λ h. ground arith, λ h. ground arith)

is_id_byte_iff : (c : ℕ) → (is_id_byte c ≡ true) ↔ IsIdByte c
is_id_byte_iff c = (λ h. ground arith, λ h. ground arith)

All-id_bytes : (s : Text) → all_bytes is_id_byte s ≡ true → All IsIdByte s
unfolding all_bytes
All-id_bytes [] h = tt
All-id_bytes (c ∷ s) h = ((is_id_byte_iff c).0 (ground arith), All-id_bytes s (ground arith))

id_bytes-All : (s : Text) → All IsIdByte s → all_bytes is_id_byte s ≡ true
unfolding all_bytes
id_bytes-All [] h = refl
id_bytes-All (c ∷ s) h = rw ((is_id_byte_iff c).1 h.0, id_bytes-All s h.1)

-- `ParseTargetID` accepts a text exactly when it is 1 to 64 bytes, the first a letter, digit or
-- underscore and each other one of these, a space or a dash; and it returns the text itself.
pub parse_target_id-IsTargetId :
    (s t : Text) → (parse_target_id s ≡ ok t) ↔ (IsTargetId s × (s ≡ t))
unfolding parse_target_id
parse_target_id-IsTargetId [] t = (λ h. ground arith, λ h. absurd h.0)
parse_target_id-IsTargetId (c ∷ s) t = (
  λ h. (
    (ground arith, (is_word_iff c).0 (ground arith), All-id_bytes s (ground arith)),
    ground arith,
  ),
  λ h.
      (let word : is_word c ≡ true = (is_word_iff c).1 h.0.1 in
        let bytes : all_bytes is_id_byte s ≡ true = id_bytes-All s h.0.2 in
        let fits : length (c ∷ s) ≤ 64 = h.0.0 in ground arith),
)
