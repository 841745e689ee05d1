-- ===== src/Session/Scrollback/Ring.antt =====
-- The indices of the circular buffer of internal/session/scrollback.go.
use native.Mathlib.Nat.{mod-lt, mod-eq_of_lt, mod-eq-sub-mod}
use rdw.Common.{
  ltb, if◌then◌else◌, ltb→lt, Bool-cases, length, length-set, length-replicate, ℤ, Text, ℕ, suc,
  ◌+◌, ◌-◌, ◌%◌, ◌≤◌, ◌<◌, ◌≡◌, ◌∙◌, ◌≢◌, inl, inr, [], arith,
}
use rdw.Session.Scrollback.{ScrollbackBuffer, clamp_cap, new_scrollback_buffer, append, clear}

pub record IsValid (b : ScrollbackBuffer) : Type 0 where
  pub allocated : length b.buf ≡ b.cap
  pub positive : 0 < b.cap
  pub head_in : b.head < b.cap
  pub size_in : b.size ≤ b.cap

wrap :
    (h i cap : ℕ)
    → h < cap
    → i < cap
    → (h + i) % cap ≡ (if ltb (h + i) cap then h + i else h + i - cap)
wrap h i cap p q = elim (Bool-cases (ltb (h + i) cap)) [
  | inl e ↦ rw e (mod-eq_of_lt (ltb→lt (h + i) cap e))
  | inr e ↦ rw e (mod-eq-sub-mod (ground arith) ∙ mod-eq_of_lt (ground arith))
]

pub wrap_ne : (h i j cap : ℕ) → h < cap → i < j → j < cap → (h + i) % cap ≢ (h + j) % cap
wrap_ne h i j cap p q r = rw (wrap h i cap p (omega arith), wrap h j cap p r) (ground arith)

-- One step of the head, then `i` steps, is `i + 1` steps.
pub wrap_step :
    (h i cap : ℕ) → h < cap → suc i < cap → ((h + 1) % cap + i) % cap ≡ (h + suc i) % cap
wrap_step h i cap p q = rw (wrap h 1 cap p (omega arith)) (
    rw (wrap h (suc i) cap p q) (
      rw (wrap (if ltb (h + 1) cap then h + 1 else h + 1 - cap) i cap (ground arith) (omega arith))
        (ground arith)))

wrap_one : (h cap : ℕ) → h < cap → (h + 1) % cap ≡ (if ltb (h + 1) cap then h + 1 else 0)
wrap_one h cap p = elim (Bool-cases (ltb (h + 1) cap)) [
  | inl e ↦ rw e (mod-eq_of_lt (ltb→lt (h + 1) cap e))
  | inr e ↦ rw e (mod-eq-sub-mod (ground arith) ∙ mod-eq_of_lt (ground arith) ∙ ground arith)
]

-- One step of the head, then all but one step more, leads round to the head.
pub wrap_last : (h n cap : ℕ) → h < cap → cap ≡ suc n → ((h + 1) % cap + n) % cap ≡ h
wrap_last h n cap p e = rw (wrap_one h cap p) (
    rw (wrap (if ltb (h + 1) cap then h + 1 else 0) n cap (ground arith) (omega arith))
      (ground arith))

pub append-IsValid : (line : Text) {b : ScrollbackBuffer} → IsValid b → IsValid (append line b)
unfolding append
append-IsValid line {b} v = ground (
  arith,
  length-set b.buf ((b.head + b.size) % b.cap) line,
  length-set b.buf b.head line,
  mod-lt (b.head + 1) v.positive,
)

pub clear-IsValid : {b : ScrollbackBuffer} → IsValid b → IsValid (clear b)
unfolding clear
clear-IsValid {b} v = ground arith

pub clamp_cap_bounds : (c : ℤ) → (0 < clamp_cap c) × (clamp_cap c ≤ 100000)
unfolding clamp_cap
clamp_cap_bounds c = ground arith

pub new_scrollback_buffer-IsValid : (c : ℤ) → IsValid (new_scrollback_buffer c)
unfolding new_scrollback_buffer
new_scrollback_buffer-IsValid c = record {
  allocated = length-replicate (clamp_cap c) [];
  positive = (clamp_cap_bounds c).0;
  head_in = (clamp_cap_bounds c).0;
  size_in = omega arith;
}
