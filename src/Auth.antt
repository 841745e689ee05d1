-- ===== src/Auth.antt =====
-- internal/auth/auth.go: the store of access tokens. `crypto/rand` and SHA-256 are not under this
-- repository: a section parameter `digest` is `sha256Hex`, and a created secret is an argument, the
-- hexadecimal text of the random bytes that were read. Times and durations are in nanoseconds.
pub mod Verify
use rdw.Common.{
  ltb, ◌==◌, if◌then◌else◌, is_present, length, take, keep_if, pos_part, ltb_ℤ, ℤ, pos, Dict,
  lookup, insert, remove, Text, text_eq, ℕ, ◌+◌, Bool, true, false, not, Option, none, some, List,
  [], ◌∷◌, map,
}

pub record Token : Type 0 where
  pub id : Text
  pub hash : Text
  pub created_at : ℕ
  -- `none` is the zero time, which never passes.
  pub expires_at : Option ℕ
  pub panes : List Text
  pub windows : List Text

-- `IsExpired` at a time.
abbrev is_past : ℕ → Option ℕ → Bool
is_past now none = false
is_past now (some t) = ltb t now

pub is_expired : ℕ → Token → Bool
is_expired now t = is_past now t.expires_at

abbrev pub is_listed : Text → List Text → Bool
is_listed s [] = false
is_listed s (p ∷ ps) = if text_eq p s then true else is_listed s ps

unfoldable has_pane_access : Text → Token → Bool
has_pane_access pane t = if length t.panes == 0 then true else is_listed pane t.panes

abbrev pub TokenStore : Type 0
TokenStore = Dict Token

abbrev pub new_token_store : TokenStore
new_token_store = []

pub record CreateOptions : Type 0 where
  pub expiry : ℤ
  pub panes : List Text
  pub windows : List Text

-- `hash[:16]`
abbrev pub token_id_of : Text → Text
token_id_of hash = take 16 hash

module _ (digest : Text → Text) where
  unfoldable pub create : Text → ℕ → CreateOptions → TokenStore → TokenStore × Token
  create secret now opts s =
      let hash : Text = digest secret in
      let tok : Token = record {
        id = token_id_of hash;
        hash = hash;
        created_at = now;
        expires_at = if ltb_ℤ (pos 0) opts.expiry then some (now + pos_part opts.expiry) else none;
        panes = opts.panes;
        windows = opts.windows;
      } in
      (insert (token_id_of hash) tok s, tok)

  abbrev check_token : ℕ → Text → Option Token → Option Token
  check_token now hash none = none
  check_token now hash (some tok) =
      if not (text_eq tok.hash hash) then none else if is_expired now tok then none else some tok

  pub verify : Text → ℕ → TokenStore → Option Token
  verify secret now s = check_token now (digest secret) (lookup (token_id_of (digest secret)) s)

pub revoke : Text → TokenStore → TokenStore × Bool
revoke id s = (remove id s, is_present (lookup id s))

unfoldable pub list : ℕ → TokenStore → List Token
list now s = keep_if (λ t. not (is_expired now t)) (map (λ e. e.1) s)

unfoldable pub len : TokenStore → ℕ
len s = length s
