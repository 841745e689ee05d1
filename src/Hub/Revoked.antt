-- ===== src/Hub/Revoked.antt =====
-- Exactly what `RevokeToken` of internal/server/hub.go does to the connections.
use mathlib.Core.Path.{subst}
use rdw.Common.{
  if◌then◌else◌, ==_iff, Bool-cases, keep_if, All, Text, text_eq, ℕ, ◌≡◌, refl, sym, ap, ◌∙◌, inl,
  inr, not, List, [], ◌∷◌, arith,
}
use rdw.Hub.{
  Conn, Chan, closed_chan, Hub, without_conn, close_conn, with_token, close_all, without_all,
  revoke_token,
}
use rdw.Hub.Broadcast.{IsFresh, HasDistinctIds, IsValid}

without_conn-fresh : (n : ℕ) (cs : List Conn) → IsFresh n cs → without_conn n cs ≡ cs
without_conn-fresh n [] f = refl
without_conn-fresh n (c ∷ cs) f = let d = f.0 in ground (arith, without_conn-fresh n cs f.1)

without_all-cons :
    (c : Conn) (vs cs : List Conn)
    → IsFresh c.id vs
    → without_all vs (c ∷ cs) ≡ c ∷ without_all vs cs
without_all-cons c [] cs f = refl
without_all-cons c (v ∷ vs) cs f =
    let d = f.0 in
    let kept : without_conn v.id (c ∷ cs) ≡ c ∷ without_conn v.id cs = ground arith in
    ap (without_all vs) kept ∙ without_all-cons c vs (without_conn v.id cs) f.1

with_token-IsFresh :
    (n : ℕ) (t : Text) (cs : List Conn) → IsFresh n cs → IsFresh n (with_token t cs)
with_token-IsFresh n t [] f = tt
with_token-IsFresh n t (c ∷ cs) f = elim (Bool-cases (text_eq c.token_id t)) [
  | inl e ↦ rw e (f.0, with_token-IsFresh n t cs f.1)
  | inr e ↦ rw e (with_token-IsFresh n t cs f.1)
]

-- The connections of other tokens.
abbrev pub others : Text → List Conn → List Conn
others t = keep_if (λ c. not (text_eq c.token_id t))

without_all-others :
    (t : Text) (cs : List Conn) → HasDistinctIds cs → without_all (with_token t cs) cs ≡ others t cs
without_all-others t [] d = refl
without_all-others t (c ∷ cs) d =
    let later = without_all-others t cs d.1 in
    elim (Bool-cases (text_eq c.token_id t)) [
      | inl e ↦
          let gone : without_conn c.id (c ∷ cs) ≡ cs =
            (let same = without_conn-fresh c.id cs d.0 in ground (arith, same, ==_iff c.id c.id)) in
          rw e (ap (without_all (with_token t cs)) gone ∙ later)
      | inr e ↦ rw e (
          without_all-cons c (with_token t cs) cs (with_token-IsFresh c.id t cs d.0)
          ∙ ap (◌∷◌ c) later)
    ]

close_all-fresh :
    (n : ℕ) (vs : List Conn) (h : Hub) → IsFresh n vs → (close_all vs h).chans n ≡ h.chans n
unfolding close_conn
close_all-fresh n [] h f = refl
close_all-fresh n (v ∷ vs) h f =
    let d = f.0 in
    close_all-fresh n vs (close_conn v h) f.1 ∙ (unfold close_conn in ground (arith, ==_iff n v.id))

pub close_all-closed :
    (n : ℕ) (vs : List Conn) (h : Hub)
    → h.chans n ≡ closed_chan
    → (close_all vs h).chans n ≡ closed_chan
unfolding close_conn
close_all-closed n [] h e = e
close_all-closed n (v ∷ vs) h e = close_all-closed n vs (close_conn v h) (ground arith)

-- Closed where the token is the one, and as before otherwise.
abbrev pub IsCut : Text → Hub → (ℕ → Chan) → Conn → Type 0
IsCut t h f c = f c.id ≡ (if text_eq c.token_id t then closed_chan else h.chans c.id)

recut :
    (t : Text) (c : Conn) (h : Hub) (f : ℕ → Chan) (cs : List Conn)
    → IsFresh c.id cs
    → All (IsCut t (close_conn c h) f) cs
    → All (IsCut t h f) cs
unfolding close_conn
recut t c h f [] d a = tt
recut t c h f (x ∷ cs) d a =
    let apart = d.0 in let now = a.0 in (ground (arith, ==_iff x.id c.id), recut t c h f cs d.1 a.1)

close_all-IsCut :
    (t : Text) (cs : List Conn) (h : Hub)
    → HasDistinctIds cs
    → All (IsCut t h (close_all (with_token t cs) h).chans) cs
close_all-IsCut t [] h d = tt
close_all-IsCut t (c ∷ cs) h d = elim (Bool-cases (text_eq c.token_id t)) [
  | inl e ↦
      let vs : with_token t (c ∷ cs) ≡ c ∷ with_token t cs = ground arith in
      let shut : (close_conn c h).chans c.id ≡ closed_chan =
        unfold close_conn in ground (arith, ==_iff c.id c.id) in
      let first = close_all-closed c.id (with_token t cs) (close_conn c h) shut in
      subst (λ l. All (IsCut t h (close_all l h).chans) (c ∷ cs)) (sym vs)
        (ground arith, recut t c h _ cs d.0 (close_all-IsCut t cs (close_conn c h) d.1))
  | inr e ↦
      let vs : with_token t (c ∷ cs) ≡ with_token t cs = ground arith in
      let first = close_all-fresh c.id (with_token t cs) h (with_token-IsFresh c.id t cs d.0) in
      subst (λ l. All (IsCut t h (close_all l h).chans) (c ∷ cs)) (sym vs)
        (ground arith, close_all-IsCut t cs h d.1)
]

close_all-keeps :
    (vs : List Conn) (h : Hub)
    → ((close_all vs h).conns ≡ h.conns) × ((close_all vs h).revoked_tokens ≡ h.revoked_tokens)
unfolding close_conn
close_all-keeps [] h = (refl, refl)
close_all-keeps (v ∷ vs) h = close_all-keeps vs (close_conn v h)

-- Revoking a token of a valid hub takes exactly the connections that have it out of the hub and
-- closes their channels, and no other connection's; the empty token, which the owner's connections
-- have, is no exception.
pub revoke_token-exact :
    (t : Text) (h : Hub)
    → IsValid h
    → ((revoke_token t h).conns ≡ others t h.conns)
      × All (IsCut t h (revoke_token t h).chans) h.conns
unfolding revoke_token
revoke_token-exact t h v =
    let left : Hub = record h {
      revoked_tokens = t ∷ h.revoked_tokens;
      conns = without_all (with_token t h.conns) h.conns;
    } in
    (
      (close_all-keeps (with_token t h.conns) left).0 ∙ without_all-others t h.conns v.distinct,
      close_all-IsCut t h.conns left v.distinct,
    )
