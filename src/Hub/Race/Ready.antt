-- ===== src/Hub/Race/Ready.antt =====
-- A connection of internal/server/ws.go between its registration and its first frame, while a broadcast
-- of internal/server/hub.go is under way.
use mathlib.Core.Path.{subst}
use rdw.Common.{
  ==_iff, ltb, ◌==◌, Bool-cases, length, All, All-append, ℕ, ◌≤◌, ◌≡◌, refl, sym, ap, ◌∙◌, ◌≢◌, inl,
  inr, true, false, List, [], ◌∷◌, ◌++◌, arith,
}
use rdw.Hub.{
  Message, send_buf_size, Conn, Chan, open_chan, closed_chan, Hub, set_chan, without_conn,
  deregister, close_conn, is_revoked, offer,
}
use rdw.Hub.Broadcast.{IsFresh}
use rdw.Hub.Revoke.{without_conn-All}
use rdw.Hub.Race.{Phase, idle, before_each, at_send, finished, todo}

-- The connections that the broadcast can still come to.
abbrev pub pending : Phase → List Conn → List Conn
pending idle conns = conns
pending (before_each cs) conns = cs
pending (at_send c cs) conns = c ∷ cs
pending finished conns = []

-- The broadcast has yet to come to the connection: nothing is queued on it, and its token stands.
abbrev pub IsUntouched : Hub → List Message → ℕ → Conn → Type 0
IsUntouched h0 q n d = d.id ≡ n → (q ≡ []) × (is_revoked d.token_id h0 ≡ false)

-- A connection whose first frame is to come has an open channel with the broadcast's frame at most.
pub record IsReady (h0 : Hub) (chans : ℕ → Chan) (ds : List Conn) (c : Conn) : Type 0 where
  pub queue : List Message
  pub opened : chans c.id ≡ open_chan queue
  pub short : length queue ≤ 1
  pub untouched : All (IsUntouched h0 queue c.id) ds

-- What happens to another channel, and to the connections to come, changes nothing.
IsReady-other :
    (h0 : Hub) (f g : ℕ → Chan) (ds es : List Conn) (c : Conn)
    → g c.id ≡ f c.id
    → ((q : List Message) → All (IsUntouched h0 q c.id) ds → All (IsUntouched h0 q c.id) es)
    → IsReady h0 f ds c
    → IsReady h0 g es c
IsReady-other h0 f g ds es c e k v = record {
  queue = v.queue;
  opened = e ∙ v.opened;
  short = v.short;
  untouched = k v.queue v.untouched;
}

-- Connections with other numbers are no matter.
fresh-IsUntouched :
    (h0 : Hub) (q : List Message) (n : ℕ) (ds : List Conn)
    → IsFresh n ds
    → All (IsUntouched h0 q n) ds
fresh-IsUntouched h0 q n [] f = tt
fresh-IsUntouched h0 q n (d ∷ ds) f = ((λ e. absurd (f.0 e)), fresh-IsUntouched h0 q n ds f.1)

offer-other :
    (msg : Message) (d : Conn) (ch : Chan) (h : Hub) (n : ℕ)
    → d.id ≢ n
    → (offer msg d ch h).chans n ≡ h.chans n
unfolding close_conn deregister
offer-other msg d closed_chan h n e = refl
offer-other msg d (open_chan q) h n e = elim (Bool-cases (ltb (length q) send_buf_size)) [
  | inl t ↦ rw t (ground arith)
  | inr t ↦ rw t (ground arith)
]

-- The frame goes to the connection, or is sent past it.
pub offer-IsReady :
    (h0 : Hub) (msg : Message) (h : Hub) (d : Conn) (ds : List Conn) (c : Conn)
    → IsFresh d.id ds
    → IsReady h0 h.chans (d ∷ ds) c
    → IsReady h0 (offer msg d (h.chans d.id) h).chans ds c
offer-IsReady h0 msg h d ds c f v = elim (Bool-cases (d.id == c.id)) [
  | inl e ↦
      let same : d.id ≡ c.id = (==_iff d.id c.id).0 e in
      let empty : h.chans d.id ≡ open_chan [] =
        ap h.chans same ∙ v.opened ∙ ap open_chan (v.untouched.0 same).0 in
      record {
        queue = msg ∷ [];
        opened = ap (λ ch. (offer msg d ch h).chans c.id) empty ∙ ground arith;
        short = omega arith;
        untouched = fresh-IsUntouched h0 (msg ∷ []) c.id ds (subst (λ n. IsFresh n ds) same f);
      }
  | inr e ↦
      let other : d.id ≢ c.id = λ k. ground (arith, (==_iff d.id c.id).1 k, e) in
      IsReady-other h0 h.chans _ (d ∷ ds) ds c (offer-other msg d (h.chans d.id) h c.id other)
        (λ q u. u.1) v
]

-- Nothing but the loop's own connection is closed.
pub dropped-IsReady :
    (h0 : Hub) (h : Hub) (d : Conn) (ds : List Conn) (c : Conn)
    → is_revoked d.token_id h0 ≡ true
    → IsReady h0 h.chans (d ∷ ds) c
    → IsReady h0 (set_chan d.id closed_chan h.chans) ds c
dropped-IsReady h0 h d ds c r v =
    let other : d.id ≢ c.id = λ e. ground (arith, (v.untouched.0 e).1, r) in
    IsReady-other h0 h.chans _ (d ∷ ds) ds c (ground arith) (λ q u. u.1) v

-- An arrival, seen by the others.
arrived-IsReady :
    (h0 : Hub) (p : Phase) (h : Hub) (n c : Conn)
    → n.id ≢ c.id
    → IsReady h0 h.chans (pending p h.conns) c
    → IsReady h0 (set_chan n.id (open_chan []) h.chans) (pending p (h.conns ++ n ∷ [])) c
arrived-IsReady h0 idle h n c e v =
    IsReady-other h0 h.chans _ h.conns (h.conns ++ n ∷ []) c (ground arith)
      (λ q u. All-append _ h.conns (n ∷ []) u ((λ k. absurd (e k)), tt)) v
arrived-IsReady h0 (before_each cs) h n c e v =
    IsReady-other h0 h.chans _ cs cs c (ground arith) (λ q u. u) v
arrived-IsReady h0 (at_send d cs) h n c e v =
    IsReady-other h0 h.chans _ (d ∷ cs) (d ∷ cs) c (ground arith) (λ q u. u) v
arrived-IsReady h0 finished h n c e v =
    IsReady-other h0 h.chans _ [] [] c (ground arith) (λ q u. u) v

-- The arrival itself.
pub new-IsReady :
    (h0 : Hub) (p : Phase) (h : Hub) (c : Conn)
    → is_revoked c.token_id h0 ≡ false
    → IsFresh c.id h.conns
    → IsFresh c.id (todo p)
    → IsReady h0 (set_chan c.id (open_chan []) h.chans) (pending p (h.conns ++ c ∷ [])) c
new-IsReady h0 p h c r f g = record {
  queue = [];
  opened = ground arith;
  short = omega arith;
  untouched = at p g;
}
  where
    at :
        (p : Phase)
        → IsFresh c.id (todo p)
        → All (IsUntouched h0 [] c.id) (pending p (h.conns ++ c ∷ []))
    at idle g =
        All-append _ h.conns (c ∷ []) (fresh-IsUntouched h0 [] c.id h.conns f)
          ((λ k. (refl, r)), tt)
    at (before_each cs) g = fresh-IsUntouched h0 [] c.id cs g
    at (at_send d cs) g = fresh-IsUntouched h0 [] c.id (d ∷ cs) g
    at finished g = tt

-- A departure.
pub left-IsReady :
    (h0 : Hub) (p : Phase) (h : Hub) (n : ℕ) (c : Conn)
    → IsReady h0 h.chans (pending p h.conns) c
    → IsReady h0 h.chans (pending p (without_conn n h.conns)) c
left-IsReady h0 idle h n c v =
    IsReady-other h0 h.chans h.chans h.conns (without_conn n h.conns) c refl
      (λ q u. without_conn-All _ n h.conns u) v
left-IsReady h0 (before_each cs) h n c v = v
left-IsReady h0 (at_send d cs) h n c v = v
left-IsReady h0 finished h n c v = v

-- The greeting of one connection, seen by the others.
pub greeted-IsReady :
    (h0 : Hub) (ds : List Conn) (q : List Message) (n : ℕ) (f : ℕ → Chan) (gs : List Conn)
    → IsFresh n gs
    → All (IsReady h0 f ds) gs
    → All (IsReady h0 (set_chan n (open_chan q) f) ds) gs
greeted-IsReady h0 ds q n f [] k a = tt
greeted-IsReady h0 ds q n f (g ∷ gs) k a = (
  IsReady-other h0 f _ ds ds g (ground arith) (λ r u. u) a.0,
  greeted-IsReady h0 ds q n f gs k.1 a.1,
)

pub arrived-All :
    (h0 : Hub) (p : Phase) (h : Hub) (n : Conn) (gs : List Conn)
    → IsFresh n.id gs
    → All (IsReady h0 h.chans (pending p h.conns)) gs
    → All (IsReady h0 (set_chan n.id (open_chan []) h.chans) (pending p (h.conns ++ n ∷ []))) gs
arrived-All h0 p h n [] f a = tt
arrived-All h0 p h n (g ∷ gs) f a =
    (arrived-IsReady h0 p h n g (λ e. f.0 (sym e)) a.0, arrived-All h0 p h n gs f.1 a.1)
