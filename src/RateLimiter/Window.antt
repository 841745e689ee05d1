-- ===== src/RateLimiter/Window.antt =====
-- How many requests of a source address internal/server/middleware.go lets through in a window.
use rdw.Common.{
  leb, if◌then◌else◌, Bool-cases, Option-cases, All, lookup, lookup-insert, Text, text_eq,
  text_eq_refl, text_eq_iff, ℕ, suc, ◌+◌, ◌-◌, ◌≤◌, ◌≡◌, ap, ◌∙◌, inl, inr, false, not, ◌&&◌, some,
  List, [], ◌∷◌, arith,
}
use rdw.RateLimiter.{rate_limit_requests, RateBucket, RateLimiter, new_bucket, allow}

-- A request: its source address and its time.
abbrev pub Request : Type 0
Request = Text × ℕ

-- The requests of an address that are let through, and how many there are.
pub allowed : Text → List Request → RateLimiter → ℕ
allowed ip [] rl = 0
allowed ip ((j, now) ∷ qs) rl =
    let rest = allowed ip qs (allow j now rl).0 in
    if text_eq j ip && (allow j now rl).1 then suc rest else rest

pub asked : Text → List Request → ℕ
asked ip [] = 0
asked ip ((j, now) ∷ qs) = let rest = asked ip qs in if text_eq j ip then suc rest else rest

-- The requests come no later than a time.
abbrev IsBy : ℕ → Request → Type 0
IsBy t q = q.1 ≤ t

abbrev pub min : ℕ → ℕ → ℕ
min a b = if leb a b then a else b

allow-same :
    (ip : Text) (now : ℕ) (rl : RateLimiter) (b : RateBucket)
    → lookup ip rl ≡ some b
    → now ≤ b.reset_at
    → (lookup ip (allow ip now rl).0
        ≡ some (if leb rate_limit_requests b.count then b else record b { count = b.count + 1 }))
      × ((allow ip now rl).1 ≡ not (leb rate_limit_requests b.count))
unfolding allow
allow-same ip now rl b h t =
    rw h
      (ground (arith, lookup-insert ip ip (record b { count = b.count + 1 }) rl, text_eq_refl ip))

allow-other :
    (ip j : Text) (now : ℕ) (rl : RateLimiter)
    → text_eq j ip ≡ false
    → lookup ip (allow j now rl).0 ≡ lookup ip rl
unfolding allow
allow-other ip j now rl d = elim (Option-cases (lookup j rl)) [
  | inl e ↦ rw e (ground (arith, lookup-insert j ip (new_bucket now) rl))
  | inr (b, e) ↦ rw e (
      ground (
        arith,
        lookup-insert j ip (new_bucket now) rl,
        lookup-insert j ip (record b { count = b.count + 1 }) rl,
      ))
]

-- Until an address's window has passed, exactly its first requests are let through, as many as its
-- count leaves of ten, whatever the other addresses ask in between.
pub allowed-window :
    (ip : Text) (qs : List Request) (rl : RateLimiter) (b : RateBucket)
    → lookup ip rl ≡ some b
    → All (IsBy b.reset_at) qs
    → allowed ip qs rl ≡ min (asked ip qs) (rate_limit_requests - b.count)
unfolding allowed asked
allowed-window ip [] rl b h t = ground arith
allowed-window ip ((j, now) ∷ qs) rl b h t = elim (Bool-cases (text_eq j ip)) [
  | inl e ↦
      let j_ip : j ≡ ip = (text_eq_iff j ip).0 e in
      let (next, passed) = allow-same j now rl b (ap (λ k. lookup k rl) j_ip ∙ h) t.0 in
      elim (Bool-cases (leb rate_limit_requests b.count)) [
        | inl f ↦
            let rest = allowed-window ip qs (allow j now rl).0 b (ground arith) t.1 in
            ground (arith, rest)
        | inr f ↦
            let rest =
              allowed-window ip qs (allow j now rl).0 (record b { count = b.count + 1 })
                (ground arith) t.1 in
            ground (arith, rest)
      ]
  | inr e ↦ rw e (allowed-window ip qs (allow j now rl).0 b (allow-other ip j now rl e ∙ h) t.1)
]
