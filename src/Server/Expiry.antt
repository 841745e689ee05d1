-- ===== src/Server/Expiry.antt =====
-- The expiry of a token that is asked for in seconds.
use rdw.Common.{
  leb, if◌then◌else◌, Bool-cases, pos_part, ltb_ℤ, pos, Text, ℕ, ◌+◌, ◌*◌, ◌≤◌, ◌<◌, ◌≡◌, ap, ◌∙◌,
  inl, inr, false, none, some, arith,
}
use rdw.Config.{}
use rdw.Auth.{CreateOptions, token_id_of, create}
use rdw.Server.{Server, Env, token_body}
use rdw.Server.Tokens.{TokenBody, duration_of, expiry_of, create_token, handle_token_create}

-- The largest number of seconds whose nanoseconds are a signed 64-bit integer, and the largest whose
-- nanoseconds are below 2^64.
abbrev max_seconds : ℕ
max_seconds = 9223372036

abbrev max_pattern : ℕ
max_pattern = 18446744073

duration_of-small : (n : ℕ) → n ≤ max_seconds → duration_of (pos n) ≡ pos (n * 1000000000)
unfolding duration_of
duration_of-small n h = ground arith

duration_of-wraps :
    (n : ℕ) → max_seconds < n → n ≤ max_pattern → ltb_ℤ (pos 0) (duration_of (pos n)) ≡ false
unfolding duration_of
duration_of-wraps n h k = ground arith

-- A token that is created over the interface, for a positive number of seconds: up to 9223372036 it
-- expires that much later, and from there up to 18446744073 it never expires.
pub handle_token_create-expiry :
    (env : Env) (b : TokenBody) (secret : Text) (s : Server) (n : ℕ)
    → env.secret ≡ some secret
    → b.expiry_seconds ≡ pos n
    → 0 < n
    → n ≤ max_pattern
    → (handle_token_create env (some b) s).1.body
      ≡ token_body secret (record {
        id = token_id_of (env.digest secret);
        hash = env.digest secret;
        created_at = env.now;
        expires_at = if leb n max_seconds then some (env.now + n * 1000000000) else none;
        panes = b.panes;
        windows = b.windows;
      })
unfolding handle_token_create create
handle_token_create-expiry env b secret s n e k lo hi =
    let asked : expiry_of b.expiry_seconds ≡ duration_of (pos n) =
      ap expiry_of k ∙ (unfold expiry_of in ground arith) in
    let opts : CreateOptions = record {
      expiry = duration_of (pos n);
      panes = b.panes;
      windows = b.windows;
    } in
    ap (λ o. (create_token env b o s).1.body) e
    ∙ ap
        (λ z.
          token_body secret
            (create env.digest secret env.now
              (record { expiry = z; panes = b.panes; windows = b.windows }) s.token_store).1)
        asked
    ∙ ap
        (λ x. token_body secret (record {
          id = token_id_of (env.digest secret);
          hash = env.digest secret;
          created_at = env.now;
          expires_at = x;
          panes = b.panes;
          windows = b.windows;
        }))
        (expires env.now n lo hi)
  where
    expires :
        (now n : ℕ)
        → 0 < n
        → n ≤ max_pattern
        → (if ltb_ℤ (pos 0) (duration_of (pos n))
            then some (now + pos_part (duration_of (pos n)))
            else none)
          ≡ (if leb n max_seconds then some (now + n * 1000000000) else none)
    expires now n lo hi = elim (Bool-cases (leb n max_seconds)) [
      | inl q ↦ rw (duration_of-small n (ground arith)) (ground arith)
      | inr q ↦ let late = duration_of-wraps n (ground arith) hi in ground arith
    ]
