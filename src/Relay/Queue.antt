-- ===== src/Relay/Queue.antt =====
-- What the loop of internal/pipe/pipe.go does with every line.
use mathlib.Core.List.Perm
use mathlib.Core.List.{Perm, append_assoc, append-nil}
use rdw.Common.{
  if◌then◌else◌, Bool-cases, ltb_ℤ, ℤ, pos, Text, ℕ, suc, ◌≡◌, refl, sym, ap, ◌∙◌, inl, inr, Bool,
  true, false, List, [], ◌∷◌, ◌++◌,
}
use rdw.Relay.{Relay, new_relay, Turn, flush, send_line, relay_line, relay}

-- Every line that the relay has had: what was confirmed, what waits, and what was given up.
abbrev pub lines_of : Relay → List Text
lines_of r = r.confirmed ++ (r.queue ++ r.dropped)

-- The lines that are read before the context is cancelled.
pub taken : List Turn → List Text
taken [] = []
taken (t ∷ ts) = let rest = taken ts in if t.is_cancelled then [] else t.line ∷ rest

-- The first list is the second one with some lines left out.
pub data IsWithin : List Text → List Text → Type 0 where
  none_left : IsWithin [] []
  kept : {l : Text} {xs ys : List Text} → IsWithin xs ys → IsWithin (l ∷ xs) (l ∷ ys)
  left_out : {l : Text} {xs ys : List Text} → IsWithin xs ys → IsWithin xs (l ∷ ys)

module _ (accepts takes : ℕ → Text → Bool) where
  -- A line that the server takes in an attempt that returns an error waits in the queue, if there is
  -- room: the server has it, and is sent it again.
  relay_line-twice :
      (queue_len : ℤ) (line : Text) (r : Relay)
      → r.queue ≡ []
      → accepts r.attempts line ≡ false
      → takes r.attempts line ≡ true
      → ltb_ℤ (pos 0) queue_len ≡ true
      → ((relay_line accepts takes queue_len line r).received ≡ r.received ++ line ∷ [])
        × ((relay_line accepts takes queue_len line r).queue ≡ line ∷ [])
  unfolding relay_line send_line flush
  relay_line-twice queue_len line r q refused taken room =
      rw (q, refused, taken, room) (ap (λ d. d ++ line ∷ []) (append-nil r.received), refl)

  relay_line-accepted :
      (queue_len : ℤ) (line : Text) (r : Relay)
      → ((n : ℕ) (l : Text) → accepts n l ≡ true)
      → r.queue ≡ []
      → ((relay_line accepts takes queue_len line r).confirmed ≡ r.confirmed ++ line ∷ [])
        × ((relay_line accepts takes queue_len line r).queue ≡ [])
  unfolding relay_line flush send_line
  relay_line-accepted queue_len line r h q =
      rw (q, h r.attempts line) (ap (λ d. d ++ line ∷ []) (append-nil r.confirmed), refl)

  in_order :
      (queue_len : ℤ) (ts : List Turn) (r : Relay)
      → ((n : ℕ) (l : Text) → accepts n l ≡ true)
      → r.queue ≡ []
      → ((relay accepts takes queue_len ts r).0.confirmed ≡ r.confirmed ++ taken ts)
        × ((relay accepts takes queue_len ts r).0.queue ≡ [])
  unfolding relay taken
  in_order queue_len [] r h q = (sym (append-nil r.confirmed), q)
  in_order queue_len (t ∷ ts) r h q = elim (Bool-cases t.is_cancelled) [
    | inl e ↦ rw e (sym (append-nil r.confirmed), q)
    | inr e ↦
        let (d, k) = relay_line-accepted queue_len t.line r h q in
        let (rest, empty) =
          in_order queue_len ts (relay_line accepts takes queue_len t.line r) h k in
        rw e (
          rest ∙ ap (λ x. x ++ taken ts) d ∙ append_assoc r.confirmed (t.line ∷ []) (taken ts),
          empty,
        )
  ]

  -- Where every attempt succeeds, the server has received exactly the lines that were read before the
  -- context is cancelled, in their order, and no line waits.
  relay-in_order :
      (queue_len : ℤ) (ts : List Turn)
      → ((n : ℕ) (l : Text) → accepts n l ≡ true)
      → ((relay accepts takes queue_len ts new_relay).0.confirmed ≡ taken ts)
        × ((relay accepts takes queue_len ts new_relay).0.queue ≡ [])
  relay-in_order queue_len ts h = in_order queue_len ts new_relay h refl

  -- A queued line is overtaken: where the first line of the queue is refused and the very next attempt
  -- succeeds, the new line reaches the server before every line of the queue, which stays as it is.
  relay_line-overtakes :
      (queue_len : ℤ) (line first : Text) (more : List Text) (r : Relay)
      → r.queue ≡ first ∷ more
      → accepts r.attempts first ≡ false
      → accepts (suc r.attempts) line ≡ true
      → (relay_line accepts takes queue_len line r).confirmed ≡ r.confirmed ++ line ∷ []
        × (relay_line accepts takes queue_len line r).queue ≡ first ∷ more
  unfolding relay_line send_line flush
  relay_line-overtakes queue_len line first more r q refused accepted =
      rw (q, refused, accepted) (ap (λ d. d ++ line ∷ []) (append-nil r.confirmed), refl)
