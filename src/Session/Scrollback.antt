-- ===== src/Session/Scrollback.antt =====
-- internal/session/scrollback.go: the bounded circular line buffer of a pane. Its mutex makes each
-- method one step, so a method is a function on the state.
pub mod Ring
pub mod Refine
use rdw.Common.{
  ltb, ◌==◌, if◌then◌else◌, set, get_or, replicate, pos_part, leb_ℤ, ℤ, pos, Text, ℕ, zero, suc,
  ◌+◌, ◌%◌, List, [], ◌∷◌,
}

abbrev pub default_scrollback_cap : ℕ
default_scrollback_cap = 10000

abbrev max_scrollback_cap : ℕ
max_scrollback_cap = 100000

pub record ScrollbackBuffer : Type 0 where
  pub buf : List Text
  pub head : ℕ
  pub size : ℕ
  pub cap : ℕ

-- The two tests on `cap` of the constructor.
pub clamp_cap : ℤ → ℕ
clamp_cap c =
    let c' = if leb_ℤ c (pos 0) then default_scrollback_cap else pos_part c in
    if ltb max_scrollback_cap c' then max_scrollback_cap else c'

pub new_scrollback_buffer : ℤ → ScrollbackBuffer
unfolding clamp_cap
new_scrollback_buffer c = record {
  buf = replicate (clamp_cap c) [];
  head = 0;
  size = 0;
  cap = clamp_cap c;
}

-- A `set` out of range changes nothing; `Ring.IsValid` rules it out.
pub append : Text → ScrollbackBuffer → ScrollbackBuffer
append line b =
    if ltb b.size b.cap
    then record b { buf = set b.buf ((b.head + b.size) % b.cap) line; size = b.size + 1 }
    else record b { buf = set b.buf b.head line; head = (b.head + 1) % b.cap }

-- The loop of `Lines`, from index `i` with `n` lines left.
pub gather : (ℕ → Text) → ℕ → ℕ → List Text
gather f i zero = []
gather f i (suc n) = f i ∷ gather f (suc i) n

-- `b.buf[(b.head+i)%b.cap]`
pub line_at : ScrollbackBuffer → ℕ → Text
line_at b i = get_or b.buf ((b.head + i) % b.cap) []

pub lines : ScrollbackBuffer → List Text
unfolding gather line_at
lines b = if b.size == 0 then [] else gather (line_at b) 0 b.size

pub len : ScrollbackBuffer → ℕ
len b = b.size

pub clear : ScrollbackBuffer → ScrollbackBuffer
clear b = record b { head = 0; size = 0 }
