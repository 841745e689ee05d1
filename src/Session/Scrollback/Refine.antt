-- ===== src/Session/Scrollback/Refine.antt =====
-- The circular buffer against the plain list of its lines: `Append` keeps the newest `cap` lines.
use native.Mathlib.Nat.{mod-lt, mod-eq_of_lt}
use native.Mathlib.Nat.{add-zero, suc-add}
use mathlib.Core.List.{append-nil, append_assoc}
use mathlib.Core.Path.{ap₂}
use rdw.Common.{
  ltb, ◌==◌, ltb→lt, lt→ltb, ==_iff, Bool-cases, length, drop, length-append, length-drop,
  get_or-set_self, get_or-set_ne, ℤ, Text, ℕ, zero, suc, ◌+◌, ◌-◌, ◌%◌, ◌≤◌, ◌<◌, ◌≡◌, refl, sym,
  ap, ◌∙◌, inl, inr, false, List, [], ◌∷◌, ◌++◌, map, arith,
}
use rdw.Session.Scrollback.Ring.{
  IsValid, wrap_ne, wrap_step, wrap_last, append-IsValid, clear-IsValid, clamp_cap_bounds,
  new_scrollback_buffer-IsValid,
}
use rdw.Session.Scrollback.{
  ScrollbackBuffer, clamp_cap, new_scrollback_buffer, append, gather, line_at, lines, clear,
}

-- The last `n` elements of a list.
abbrev pub keep_last {ℓ} : {A : Type ℓ} → ℕ → List A → List A
keep_last n xs = drop (length xs - n) xs

gather-ext :
    (f g : ℕ → Text) (i n : ℕ)
    → ((j : ℕ) → i ≤ j → j < i + n → f j ≡ g j)
    → gather f i n ≡ gather g i n
unfolding gather
gather-ext f g i zero h = refl
gather-ext f g i (suc n) h = cc (
  h i (omega arith) (omega arith),
  gather-ext f g (suc i) n (λ j p q. h j (omega arith) (omega arith)),
)

gather-snoc : (f : ℕ → Text) (i n : ℕ) → gather f i (suc n) ≡ gather f i n ++ f (i + n) ∷ []
unfolding gather
gather-snoc f i zero = ap (λ k. f k ∷ []) (omega arith)
gather-snoc f i (suc n) =
    ap (λ (t : List Text). f i ∷ t)
      (gather-snoc f (suc i) n ∙ ap (λ k. gather f (suc i) n ++ f k ∷ []) (omega arith))

gather-shift : (f : ℕ → Text) (i n : ℕ) → gather (λ j. f (suc j)) i n ≡ gather f (suc i) n
unfolding gather
gather-shift f i zero = refl
gather-shift f i (suc n) = ap (◌∷◌ (f (suc i))) (gather-shift f (suc i) n)

gather-tail : (f : ℕ → Text) (n : ℕ) → gather f 1 n ≡ drop 1 (gather f 0 (suc n))
unfolding gather
gather-tail f n = refl

length-gather : (f : ℕ → Text) (i n : ℕ) → length (gather f i n) ≡ n
unfolding gather
length-gather f i zero = refl
length-gather f i (suc n) = ap suc (length-gather f (suc i) n)

-- The snapshot is the loop at every size, the empty buffer included.
lines-eq-gather : (b : ScrollbackBuffer) → lines b ≡ gather (line_at b) 0 b.size
unfolding lines
lines-eq-gather b = elim (Bool-cases (b.size == 0)) [
  | inl e ↦ rw e (rw ((==_iff b.size 0).0 e) (unfold gather in refl))
  | inr e ↦ rw e
]

length-lines : (b : ScrollbackBuffer) → length (lines b) ≡ b.size
length-lines b = rw (lines-eq-gather b) (length-gather (line_at b) 0 b.size)

module _ (line : Text) (b : ScrollbackBuffer) (v : IsValid b) where
  module _ (r : b.size < b.cap) where
    size-append_room : (append line b).size ≡ suc b.size
    unfolding append
    size-append_room = ground arith

    line_at-append_new : line_at (append line b) b.size ≡ line
    unfolding append line_at
    line_at-append_new = rw (lt→ltb b.size b.cap r) (
        get_or-set_self b.buf ((b.head + b.size) % b.cap) line []
          (grind (arith, v.allocated, mod-lt (b.head + b.size) v.positive)))

    line_at-append_old : (j : ℕ) → j < b.size → line_at (append line b) j ≡ line_at b j
    unfolding append line_at
    line_at-append_old j h =
        rw (lt→ltb b.size b.cap r)
          (get_or-set_ne b.buf line [] (λ e. wrap_ne b.head j b.size b.cap v.head_in h r (sym e)))

    -- While there is room the line is added behind the others.
    lines-append_room : lines (append line b) ≡ lines b ++ line ∷ []
    lines-append_room =
        lines-eq-gather (append line b)
        ∙ ap (gather (line_at (append line b)) 0) size-append_room
        ∙ gather-snoc (line_at (append line b)) 0 b.size
        ∙ ap₂ (λ (t : List Text) (x : Text). t ++ x ∷ [])
            (gather-ext _ _ 0 b.size (λ j p q. line_at-append_old j (omega arith)))
            (ap (line_at (append line b)) (omega arith) ∙ line_at-append_new)
        ∙ ap (λ (t : List Text). t ++ line ∷ []) (sym (lines-eq-gather b))

  module _ (r : b.size ≡ b.cap) where
    full : ltb b.size b.cap ≡ false
    full = ground arith

    size-append_full : (append line b).size ≡ b.size
    unfolding append
    size-append_full = ground arith

    line_at-append_last : (n : ℕ) → b.size ≡ suc n → line_at (append line b) n ≡ line
    unfolding append line_at
    line_at-append_last n e =
        rw (full, wrap_last b.head n b.cap v.head_in (sym r ∙ e))
          (get_or-set_self b.buf b.head line [] (rw v.allocated v.head_in))

    line_at-append_next : (j : ℕ) → suc j < b.size → line_at (append line b) j ≡ line_at b (suc j)
    unfolding append line_at
    line_at-append_next j h =
        rw (full, wrap_step b.head j b.cap v.head_in (rw (← r) h))
          (get_or-set_ne b.buf line [] (λ e.
            wrap_ne b.head 0 (suc j) b.cap v.head_in (omega arith) (rw (← r) h)
              (ap (λ k. k % b.cap) (omega arith) ∙ mod-eq_of_lt v.head_in ∙ e)))

    -- In a full buffer the oldest line gives way.
    lines-append_full :
        (n : ℕ) → b.size ≡ suc n → lines (append line b) ≡ drop 1 (lines b) ++ line ∷ []
    lines-append_full n e =
        lines-eq-gather (append line b)
        ∙ ap (gather (line_at (append line b)) 0) (size-append_full ∙ e)
        ∙ gather-snoc (line_at (append line b)) 0 n
        ∙ ap₂ (λ (t : List Text) (x : Text). t ++ x ∷ [])
            (gather-ext _ _ 0 n (λ j p q. line_at-append_next j (omega arith))
              ∙ gather-shift (line_at b) 0 n)
            (ap (line_at (append line b)) (omega arith) ∙ line_at-append_last n e)
        ∙ ap (λ (t : List Text). t ++ line ∷ [])
            (gather-tail (line_at b) n
              ∙ ap (λ k. drop 1 (gather (line_at b) 0 k)) (sym e)
              ∙ ap (drop 1) (sym (lines-eq-gather b)))

-- A client's calls on one buffer, in the order in which the mutex admits them.
pub data Call : Type 0 where
  append_line : Text → Call
  clear_all : Call

unfoldable pub run : List Call → ScrollbackBuffer → ScrollbackBuffer
run [] b = b
run (append_line l ∷ cs) b = run cs (append l b)
run (clear_all ∷ cs) b = run cs (clear b)

-- The same calls on a plain list that keeps its newest `n` lines.
pub run_lines : ℕ → List Call → List Text → List Text
run_lines n [] ls = ls
run_lines n (append_line l ∷ cs) ls = run_lines n cs (keep_last n (ls ++ l ∷ []))
run_lines n (clear_all ∷ cs) ls = run_lines n cs []

drop-append {ℓ} :
    {A : Type ℓ} (n : ℕ) (xs ys : List A) → n ≤ length xs → drop n (xs ++ ys) ≡ drop n xs ++ ys
drop-append zero xs ys h = refl
drop-append (suc n) [] ys h = absurd (omega arith)
drop-append (suc n) (x ∷ xs) ys h = drop-append n xs ys (omega arith)

-- `Append` on a buffer of any fill is the bounded list's append.
pub lines-append :
    (line : Text) (b : ScrollbackBuffer)
    → IsValid b
    → lines (append line b) ≡ keep_last b.cap (lines b ++ line ∷ [])
lines-append line b v = elim (Bool-cases (ltb b.size b.cap)) [
  | inl r ↦
      lines-append_room line b v (ltb→lt b.size b.cap r)
      ∙ ap (λ k. drop k (lines b ++ line ∷ [])) {x = 0}
          (omega
            (arith, ltb→lt b.size b.cap r, length-append (lines b) (line ∷ []), length-lines b))
  | inr r ↦
      let full : b.size ≡ b.cap = ground (arith, v.size_in) in
      lines-append_full line b v full (b.size - 1) (omega (arith, v.positive))
      ∙ sym (drop-append 1 (lines b) (line ∷ []) (omega (arith, length-lines b, v.positive)))
      ∙ ap (λ k. drop k (lines b ++ line ∷ [])) {x = 1}
          (omega (arith, full, v.positive, length-append (lines b) (line ∷ []), length-lines b))
]

lines-clear : (b : ScrollbackBuffer) → lines (clear b) ≡ []
unfolding lines clear
lines-clear b = refl

cap-append : (line : Text) (b : ScrollbackBuffer) → (append line b).cap ≡ b.cap
unfolding append
cap-append line b = ground arith

cap-clear : (b : ScrollbackBuffer) → (clear b).cap ≡ b.cap
unfolding clear
cap-clear b = refl

-- From a valid buffer every sequence of `Append` and `Clear` calls leaves a valid buffer, whose
-- `Lines` are those of the bounded list after the same calls.
pub run-refines :
    (cs : List Call) (b : ScrollbackBuffer)
    → IsValid b
    → IsValid (run cs b) × (lines (run cs b) ≡ run_lines b.cap cs (lines b))
unfolding run run_lines
run-refines [] b v = (v, refl)
run-refines (append_line l ∷ cs) b v =
    let (w, e) = run-refines cs (append l b) (append-IsValid l v) in
    (w, e ∙ ap₂ (λ k ls. run_lines k cs ls) (cap-append l b) (lines-append l b v))
run-refines (clear_all ∷ cs) b v =
    let (w, e) = run-refines cs (clear b) (clear-IsValid v) in
    (w, e ∙ ap₂ (λ k ls. run_lines k cs ls) (cap-clear b) (lines-clear b))

cap-new : (c : ℤ) → (new_scrollback_buffer c).cap ≡ clamp_cap c
unfolding new_scrollback_buffer
cap-new c = refl

lines-new : (c : ℤ) → lines (new_scrollback_buffer c) ≡ []
unfolding new_scrollback_buffer lines
lines-new c = refl

drop-drop {ℓ} : {A : Type ℓ} (m n : ℕ) (xs : List A) → drop m (drop n xs) ≡ drop (n + m) xs
drop-drop m zero xs = ap (λ k. drop k xs) (omega arith)
drop-drop zero (suc n) [] = rw add-zero
drop-drop (suc m) (suc n) [] = rw suc-add
drop-drop m (suc n) (x ∷ xs) = rw suc-add (drop-drop m n xs)

keep_last_of_fits {ℓ} : {A : Type ℓ} (n : ℕ) (xs : List A) → length xs ≤ n → keep_last n xs ≡ xs
keep_last_of_fits n xs h = ap (λ k. drop k xs) {y = 0} (omega arith)

keep_last-keep_last {ℓ} :
    {A : Type ℓ} (n : ℕ) (xs ys : List A)
    → keep_last n (keep_last n xs ++ ys) ≡ keep_last n (xs ++ ys)
keep_last-keep_last n xs ys =
    let k = length xs - n in
    ap (keep_last n) (sym (drop-append k xs ys (omega arith)))
    ∙ drop-drop (length (drop k (xs ++ ys)) - n) k (xs ++ ys)
    ∙ ap (λ j. drop j (xs ++ ys)) (omega (arith, length-drop k (xs ++ ys), length-append xs ys))

length-keep_last {ℓ} : {A : Type ℓ} (n : ℕ) (xs : List A) → length (keep_last n xs) ≤ n
length-keep_last n xs = omega (arith, length-drop (length xs - n) xs)

run_lines-append :
    (n : ℕ) (ls acc : List Text)
    → length acc ≤ n
    → run_lines n (map append_line ls) acc ≡ keep_last n (acc ++ ls)
unfolding run_lines
run_lines-append n [] acc h = sym (keep_last_of_fits n acc h) ∙ rw append-nil
run_lines-append n (l ∷ ls) acc h =
    run_lines-append n ls (keep_last n (acc ++ l ∷ [])) (length-keep_last n (acc ++ l ∷ []))
    ∙ keep_last-keep_last n (acc ++ l ∷ []) ls
    ∙ ap (keep_last n) (append_assoc acc (l ∷ []) ls)

-- A new buffer, whatever `cap` it is asked for, holds between 1 and 100000 lines, and after any
-- `Append` calls its `Lines` are the newest of the lines appended, as many as it holds.
new_keeps_newest :
    (c : ℤ) (ls : List Text)
    → (0 < clamp_cap c)
      × (clamp_cap c ≤ 100000)
      × (lines (run (map append_line ls) (new_scrollback_buffer c)) ≡ keep_last (clamp_cap c) ls)
new_keeps_newest c ls = (
  (clamp_cap_bounds c).0,
  (clamp_cap_bounds c).1,
  (run-refines (map append_line ls) (new_scrollback_buffer c) (new_scrollback_buffer-IsValid c)).1
      ∙ ap₂ (λ n t. run_lines n (map append_line ls) t) (cap-new c) (lines-new c)
      ∙ run_lines-append (clamp_cap c) ls [] (omega arith),
)
