-- ===== src/Server/Access.antt =====
-- Who gets past the guards.
use mathlib.Core.Path.{subst}
use rdw.Common.{
  if◌then◌else◌, length, length-append, drop-append, Text, codes, is_empty, after_prefix,
  after_prefix-append, after_prefix_sound, ◌≡◌, refl, sym, ap, ◌∙◌, ◌⊎◌, inl, inr, Bool, true,
  false, Option, none, some, [], ◌∷◌, ◌++◌, arith,
}
use rdw.Auth.{Token, verify}
use rdw.Server.{Server, Env, said, Answer, api_error}
use rdw.Server.Tokens.{ws_secret, ws_token}
use rdw.Server.Guards.{
  Caller, Handler, bearer, checked, with_secret, auth_middleware, authed, guard,
}
use rdw.Server.Requests.{
  Request, get_ping, get_bindings, get_formatters, get_connections, guard_of, handle, serve,
}

-- A header `Bearer` with the secret of a token of the store that has not expired.
abbrev HasToken : Env → Text → Server → Type 0
HasToken env header s =
    (plain : Text) × (tok : Token) × (header ≡ bearer ++ plain)
    × (verify env.digest plain env.now s.token_store ≡ some tok)

abbrev pub IsGranted : Env → Caller → Server → Type 0
IsGranted env c s = (s.config.auth.no_auth ≡ true) ⊎ HasToken env c.header s

-- What a guard makes of a handler: its answer, or a refusal of the server as it is.
abbrev Passes : Env → Caller → Handler → Server → Answer → Type 0
Passes env c next s a =
    (IsGranted env c s × (a ≡ next s))
    ⊎ ((¬ IsGranted env c s) × (m : Text) × (a ≡ api_error 401 (said m) s))

-- The one secret that a header has.
HasToken-found :
    (env : Env) (header : Text) (s : Server)
    → HasToken env header s
    → ((plain : Text) × (tok : Token) × (after_prefix bearer header ≡ some plain)
        × (verify env.digest plain env.now s.token_store ≡ some tok))
HasToken-found env header s (plain, tok, h, t) =
    (plain, tok, ap (after_prefix bearer) h ∙ after_prefix-append bearer plain, t)

checked-Passes :
    (env : Env) (c : Caller) (next : Handler) (s : Server) (plain : Text)
    → s.config.auth.no_auth ≡ false
    → after_prefix bearer c.header ≡ some plain
    → (o : Option Token) → verify env.digest plain env.now s.token_store ≡ o
    → Passes env c next s (checked o next s)
checked-Passes env c next s plain off e none k = inr (out, codes "invalid or expired token", refl)
  where
    out : ¬ IsGranted env c s
    out (inl h) = absurd (ground arith)
    out (inr t) =
        let (p, tok, h, v) = HasToken-found env c.header s t in
        let same_secret : plain ≡ p = ground arith in
        let v' = ap (λ q. verify env.digest q env.now s.token_store) same_secret in
        absurd (ground arith)
checked-Passes env c next s plain off e (some tok) k =
    inl (inr (plain, tok, after_prefix_sound bearer c.header e, k), refl)

with_secret-Passes :
    (env : Env) (c : Caller) (next : Handler) (s : Server)
    → s.config.auth.no_auth ≡ false
    → (o : Option Text) → after_prefix bearer c.header ≡ o
    → Passes env c next s (with_secret env o next s)
with_secret-Passes env c next s off none e = inr (out, codes "bearer token required", refl)
  where
    out : ¬ IsGranted env c s
    out (inl h) = absurd (ground arith)
    out (inr t) = let (p, tok, h, v) = HasToken-found env c.header s t in absurd (ground arith)
with_secret-Passes env c next s off (some plain) e =
    checked-Passes env c next s plain off e (verify env.digest plain env.now s.token_store) refl

headerless-refused :
    (env : Env) (c : Caller) (s : Server)
    → s.config.auth.no_auth ≡ false
    → c.header ≡ []
    → ¬ IsGranted env c s
headerless-refused env c s off e (inl h) = absurd (ground arith)
headerless-refused env c s off e (inr (plain, tok, h, t)) = absurd (ground arith)

is_empty-eq : (t : Text) → is_empty t ≡ true → t ≡ []
is_empty-eq [] h = refl
is_empty-eq (x ∷ t) h = absurd (ground arith)

headed-Passes :
    (env : Env) (c : Caller) (next : Handler) (s : Server)
    → s.config.auth.no_auth ≡ false
    → (b : Bool) → is_empty c.header ≡ b
    → Passes env c next s (
        if b
        then api_error 401 (said (codes "authorization header required")) s
        else with_secret env (after_prefix bearer c.header) next s)
headed-Passes env c next s off true k = inr (
  headerless-refused env c s off (is_empty-eq c.header k),
  codes "authorization header required",
  refl,
)
headed-Passes env c next s off false k =
    with_secret-Passes env c next s off (after_prefix bearer c.header) refl

auth_middleware-Passes :
    (env : Env) (c : Caller) (next : Handler) (s : Server) (b : Bool)
    → s.config.auth.no_auth ≡ b
    → Passes env c next s (auth_middleware env c b next s)
unfolding auth_middleware
auth_middleware-Passes env c next s true e = inl (inl e, refl)
auth_middleware-Passes env c next s false e = headed-Passes env c next s e (is_empty c.header) refl

-- The requests that anyone may make, and that of the administrator, which has a further guard.
abbrev NeedsToken : Request → Type 0
NeedsToken get_ping = ⊥
NeedsToken get_bindings = ⊥
NeedsToken get_formatters = ⊥
NeedsToken get_connections = ⊥
NeedsToken _ = Unit

guard_of-authed : (q : Request) → NeedsToken q → guard_of q ≡ authed
unfolding guard_of
guard_of-authed get_ping h = absurd h
guard_of-authed get_bindings h = absurd h
guard_of-authed get_formatters h = absurd h
guard_of-authed get_connections h = absurd h
guard_of-authed _ h = refl

-- Each request of the model, but for the health probe, the key bindings, the formatter names and the
-- administrator's connection count, is handled exactly where authentication is off or the header is
-- `Bearer` with the secret of a stored token that has not expired; otherwise the answer is 401 and the
-- server is as before. The panes and windows of the token play no part.
pub serve-guarded :
    (env : Env) (c : Caller) (q : Request) (s : Server)
    → NeedsToken q
    → Passes env c (handle env q) s (serve env c q s)
unfolding serve guard
serve-guarded env c q s a =
    subst (λ g. Passes env c (handle env q) s (guard env c g (handle env q) s))
      (sym (guard_of-authed q a))
      (auth_middleware-Passes env c (handle env q) s s.config.auth.no_auth refl)

-- A WebSocket is opened with any seven bytes before the secret: the answer is that of the header
-- `Bearer` with the same secret.
pub ws_token-any_scheme :
    (env : Env) (scheme plain : Text) (s : Server)
    → length scheme ≡ 7
    → ws_token env (scheme ++ plain) s ≡ ws_token env (bearer ++ plain) s
unfolding ws_token
ws_token-any_scheme env scheme plain s h =
    let cut = drop-append 7 scheme plain h in
    let size = length-append scheme plain in
    let size' = length-append bearer plain in
    let same_size : length (scheme ++ plain) ≡ length (bearer ++ plain) = ground arith in
    let same_cut = cut ∙ sym (drop-append 7 bearer plain refl) in
    λ i. ws_secret env (same_size i) (same_cut i) s
