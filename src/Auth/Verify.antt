-- ===== src/Auth/Verify.antt =====
-- What internal/auth/auth.go accepts: a created secret until it expires or is revoked.
use rdw.Common.{
  leb, if◌then◌else◌, All, pos_part, leb_ℤ, ℤ, pos, lookup, remove, lookup-insert, lookup-remove,
  Text, text_eq, text_eq_refl, text_eq_iff, ℕ, ◌+◌, ◌≡◌, refl, ◌≢◌, Bool, ◌&&◌, ◌||◌, none, some,
  List, [], ◌∷◌, arith,
}
use rdw.Auth.{is_expired, TokenStore, CreateOptions, token_id_of, create, verify, revoke}

-- Whether a time is within the expiry of a token created at a time.
abbrev pub is_within : ℕ → ℕ → ℤ → Bool
is_within now created expiry = leb_ℤ expiry (pos 0) || leb now (created + pos_part expiry)

module _ (digest : Text → Text) where
  -- After a token is created, a secret with its identifier is accepted, with that token, exactly if
  -- it has the same digest and the expiry has not passed, where it is positive: the created secret
  -- until its expiry. Every secret with another identifier is accepted or refused as before.
  pub verify-create :
      (secret other : Text) (created now : ℕ) (opts : CreateOptions) (s : TokenStore)
      → verify digest other now (create digest secret created opts s).0 ≡ (
          if text_eq (token_id_of (digest secret)) (token_id_of (digest other))
          then (if text_eq (digest secret) (digest other) && is_within now created opts.expiry
              then some (create digest secret created opts s).1
              else none)
          else verify digest other now s)
  unfolding verify create is_expired
  verify-create secret other created now opts s = ground (
    arith,
    lookup-insert (token_id_of (digest secret)) (token_id_of (digest other))
        (create digest secret created opts s).1 s,
  )

  -- A client's calls.
  pub data Call : Type 0 where
    create_call : Text → ℕ → CreateOptions → Call
    revoke_call : Text → Call

  unfoldable pub call : Call → TokenStore → TokenStore
  call (create_call secret now opts) s = (create digest secret now opts s).0
  call (revoke_call id) s = (revoke id s).0

  unfoldable pub calls : List Call → TokenStore → TokenStore
  calls [] s = s
  calls (c ∷ cs) s = calls cs (call c s)

  -- A call that creates no token under the identifier.
  abbrev IsOther : Text → Call → Type 0
  IsOther id (create_call secret now opts) = token_id_of (digest secret) ≢ id
  IsOther id (revoke_call j) = Unit

  stays_absent :
      (id : Text) (cs : List Call) (s : TokenStore)
      → All (IsOther id) cs
      → lookup id s ≡ none
      → lookup id (calls cs s) ≡ none
  unfolding calls call create revoke
  stays_absent id [] s o h = h
  stays_absent id (create_call secret now opts ∷ cs) s o h =
      stays_absent id cs (create digest secret now opts s).0 o.1 (
        ground (
          arith,
          lookup-insert (token_id_of (digest secret)) id (create digest secret now opts s).1 s,
          text_eq_iff (token_id_of (digest secret)) id,
        ))
  stays_absent id (revoke_call j ∷ cs) s o h =
      stays_absent id cs (remove j s) o.1 (ground (arith, lookup-remove j id s))

  -- Once an identifier is revoked, a secret that has it is refused at every time and after any
  -- calls, as long as none of them creates a token with the identifier again.
  pub revoke-final :
      (secret : Text) (now : ℕ) (cs : List Call) (s : TokenStore)
      → All (IsOther (token_id_of (digest secret))) cs
      → verify digest secret now (calls cs (revoke (token_id_of (digest secret)) s).0) ≡ none
  unfolding verify revoke
  revoke-final secret now cs s o =
      let gone =
        stays_absent (token_id_of (digest secret)) cs (remove (token_id_of (digest secret)) s) o (
          ground (
            arith,
            lookup-remove (token_id_of (digest secret)) (token_id_of (digest secret)) s,
            text_eq_refl (token_id_of (digest secret)),
          )) in
      rw gone refl
