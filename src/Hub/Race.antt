-- ===== src/Hub/Race.antt =====
-- `Broadcast` of internal/server/hub.go and `serveWS` of internal/server/ws.go, with the calls of other
-- goroutines between their steps. The hub's mutex covers the copy of the connections, the look at the
-- revoked tokens, the registration, and each other call; the sends on a connection's channel, that of
-- the broadcast and the first one of `serveWS`, are outside it.
pub mod Calm
pub mod Ready
use mathlib.Core.Path.{subst}
use rdw.Common.{
  text_eq_refl, All, ◌==◌, if◌then◌else◌, ℕ, ◌≡◌, refl, sym, ap, ◌∙◌, ◌≢◌, Bool, true, false, List,
  [], ◌∷◌, ◌++◌, arith,
}
use rdw.Hub.{
  Message, Conn, closed_chan, Hub, deregister, without_conn, close_conn, is_revoked, offer,
  with_token, close_all, without_all, revoke_token, add_conn, greet_on, greet,
}
use rdw.Hub.Broadcast.{IsFresh}
use rdw.Hub.Revoked.{close_all-closed}
use rdw.Hub.Revoke.{Call, broadcast_call, revoke_call, register_call, deregister_call, call}

-- Where a broadcast is: not begun, before a connection, past the check of one whose frame is not sent
-- yet, or at its end.
pub data Phase : Type 0 where
  idle : Phase
  before_each : List Conn → Phase
  at_send : Conn → List Conn → Phase
  finished : Phase

-- The connections that the loop has before it.
abbrev pub todo : Phase → List Conn
todo idle = []
todo (before_each cs) = cs
todo (at_send c cs) = c ∷ cs
todo finished = []

-- The hub, the broadcast, and the connections that are registered and whose first frame `serveWS` has
-- not sent yet.
pub record Moment : Type 0 where
  pub hub : Hub
  pub phase : Phase
  pub greeting : List Conn

pub data IsIn (c : Conn) : List Conn → Type 0 where
  first : {cs : List Conn} → IsIn c (c ∷ cs)
  further : {d : Conn} {cs : List Conn} → IsIn c cs → IsIn c (d ∷ cs)

-- A pointer that is new: no connection that anything still holds.
pub record IsNew (c : Conn) (m : Moment) : Type 0 where
  pub not_registered : IsFresh c.id m.hub.conns
  pub not_todo : IsFresh c.id (todo m.phase)
  pub not_greeting : IsFresh c.id m.greeting

-- A call that the mutex makes one step; an arrival is two.
abbrev pub IsWhole : Call → Type 0
IsWhole (register_call c) = ⊥
IsWhole _ = Unit

-- The steps of a broadcast of a frame, and those of the calls of others of which `P` holds.
pub data Step (msg : Message) (P : Call → Type 0) : Moment → Moment → Type 0 where
  snapshot_step :
      {h : Hub} {gs : List Conn}
      → Step msg P
          (record { hub = h; phase = idle; greeting = gs })
          (record { hub = h; phase = before_each h.conns; greeting = gs })
  revoked_step :
      {h : Hub} {c : Conn} {cs gs : List Conn}
      → is_revoked c.token_id h ≡ true
      → Step msg P
          (record { hub = h; phase = before_each (c ∷ cs); greeting = gs })
          (record { hub = close_conn c (deregister c h); phase = before_each cs; greeting = gs })
  check_step :
      {h : Hub} {c : Conn} {cs gs : List Conn}
      → is_revoked c.token_id h ≡ false
      → Step msg P
          (record { hub = h; phase = before_each (c ∷ cs); greeting = gs })
          (record { hub = h; phase = at_send c cs; greeting = gs })
  send_step :
      {h : Hub} {c : Conn} {cs gs : List Conn}
      → Step msg P
          (record { hub = h; phase = at_send c cs; greeting = gs })
          (record { hub = offer msg c (h.chans c.id) h; phase = before_each cs; greeting = gs })
  finish_step :
      {h : Hub} {gs : List Conn}
      → Step msg P
          (record { hub = h; phase = before_each []; greeting = gs })
          (record { hub = h; phase = finished; greeting = gs })
  arrive_step :
      {m : Moment} (c : Conn)
      → P (register_call c)
      → IsNew c m
      → Step msg P m (record { hub = add_conn c m.hub; phase = m.phase; greeting = c ∷ m.greeting })
  greet_step :
      {m : Moment} (c : Conn)
      → IsIn c m.greeting
      → Step msg P m
          (record { hub = greet c m.hub; phase = m.phase; greeting = without_conn c.id m.greeting })
  other_step :
      {m : Moment} (k : Call) → P k → IsWhole k → Step msg P m (record m { hub = call k m.hub })

pub data Run (msg : Message) (P : Call → Type 0) (m : Moment) : Moment → Type 0 where
  here : Run msg P m m
  next : {m1 m2 : Moment} → Run msg P m m1 → Step msg P m1 m2 → Run msg P m m2

-- A broadcast that has not begun, on a hub where every arrival has its first frame.
abbrev pub at_rest : Hub → Moment
at_rest h = record { hub = h; phase = idle; greeting = [] }

-- The channel of a registered connection is closed when its token is revoked.
revoke_token-closes :
    (c : Conn) (cs : List Conn) (h : Hub)
    → h.conns ≡ c ∷ cs
    → (revoke_token c.token_id h).chans c.id ≡ closed_chan
unfolding revoke_token close_conn
revoke_token-closes c cs h e =
    let t = c.token_id in
    let victims : with_token t h.conns ≡ c ∷ with_token t cs =
      ap (with_token t) e ∙ (rw (text_eq_refl t) refl) in
    let left : Hub = record h {
      revoked_tokens = t ∷ h.revoked_tokens;
      conns = without_all (with_token t h.conns) h.conns;
    } in
    subst (λ vs. (close_all vs left).chans c.id ≡ closed_chan) (sym victims)
      (close_all-closed c.id (with_token t cs) (close_conn c left) (closed_now c left))
  where
    closed_now : (c : Conn) (g : Hub) → (close_conn c g).chans c.id ≡ closed_chan
    closed_now c g = ground arith

-- Between the check of the first connection's token and the send of its frame that token can be
-- revoked: the channel is closed by then, and the send panics.
pub revoke-panics :
    (msg : Message) (h : Hub) (c : Conn) (cs : List Conn)
    → h.conns ≡ c ∷ cs
    → is_revoked c.token_id h ≡ false
    → (m : Moment) × Run msg (λ k. k ≡ revoke_call c.token_id) (at_rest h) m
      × (m.hub.has_faulted ≡ true)
unfolding call
revoke-panics msg h c cs e r =
    let P = λ (k : Call). k ≡ revoke_call c.token_id in
    let revoked = revoke_token c.token_id h in
    let taken : Run msg P (at_rest h)
        (record { hub = h; phase = before_each (c ∷ cs); greeting = [] }) =
      subst (λ l. Run msg P (at_rest h) (record { hub = h; phase = before_each l; greeting = [] }))
        e (next here snapshot_step) in
    (
      record {
        hub = offer msg c (revoked.chans c.id) revoked;
        phase = before_each cs;
        greeting = [];
      },
      next (next (next taken (check_step r)) (other_step (revoke_call c.token_id) refl tt))
          send_step,
      ap (λ ch. (offer msg c ch revoked).has_faulted) (revoke_token-closes c cs h e),
    )

-- A connection whose token was revoked before it came, on a hub without another one: the broadcast that
-- comes between its registration and its first frame closes its channel, and `serveWS` panics.
pub arrival-panics :
    (msg : Message) (h : Hub) (c : Conn)
    → h.conns ≡ []
    → is_revoked c.token_id h ≡ true
    → (m : Moment) × Run msg (λ k. k ≡ register_call c) (at_rest h) m × (m.hub.has_faulted ≡ true)
unfolding add_conn is_revoked greet close_conn deregister
arrival-panics msg h c e r =
    let P = λ (k : Call). k ≡ register_call c in
    let arrived = add_conn c h in
    let closed = close_conn c (deregister c arrived) in
    let new : IsNew c (at_rest h) = record {
      not_registered = subst (IsFresh c.id) (sym e) tt;
      not_todo = tt;
      not_greeting = tt;
    } in
    let taken : Run msg P (at_rest h)
        (record { hub = arrived; phase = before_each (c ∷ []); greeting = c ∷ [] }) =
      subst
        (λ l.
          Run msg P (at_rest h)
            (record { hub = arrived; phase = before_each l; greeting = c ∷ [] }))
        (ap (λ l. l ++ c ∷ []) e) (next (next here (arrive_step c refl new)) snapshot_step) in
    (
      record {
        hub = greet c closed;
        phase = before_each [];
        greeting = without_conn c.id (c ∷ []);
      },
      next (next taken (revoked_step r)) (greet_step c first),
      ground arith,
    )
