-- ===== src/Hub/Revoke.antt =====
-- The other calls of internal/server/hub.go, and all of them in any order.
use rdw.Common.{
  ◌==◌, ltb, length, true, Bool-cases, All, All-append, Text, ℕ, ◌≡◌, refl, sym, ◌∙◌, ◌≢◌, inl, inr,
  List, [], ◌∷◌, ◌++◌, arith,
}
use rdw.Hub.{
  Message, reconnect, Conn, Chan, open_chan, closed_chan, Hub, set_chan, without_conn, deregister,
  close_conn, broadcast, with_token, close_all, without_all, revoke_token, register, add_conn,
  greet_on, greet, send_buf_size,
}
use rdw.Hub.Broadcast.{IsFresh, HasDistinctIds, IsOpenIn, IsValid, is_open, broadcast-delivers}

-- The calls on a hub, one after the other. A connection that arrives has a new number.
pub data Call : Type 0 where
  broadcast_call : Message → Call
  revoke_call : Text → Call
  register_call deregister_call : Conn → Call

unfoldable pub call : Call → Hub → Hub
call (broadcast_call msg) h = broadcast msg h
call (revoke_call t) h = revoke_token t h
call (register_call c) h = register c h
call (deregister_call c) h = deregister c h

-- Only an arrival asks for something: a number that no registered connection has.
abbrev IsAllowed : Call → Hub → Type 0
IsAllowed (register_call c) h = IsFresh c.id h.conns
IsAllowed _ h = Unit

-- A sequence of allowed calls from one hub to another.
pub data Reaches (h : Hub) : Hub → Type 0 where
  start : Reaches h h
  later : {h1 : Hub} (c : Call) → Reaches h h1 → IsAllowed c h1 → Reaches h (call c h1)

without_conn-IsFresh : (n k : ℕ) (cs : List Conn) → IsFresh n cs → IsFresh n (without_conn k cs)
without_conn-IsFresh n k [] f = tt
without_conn-IsFresh n k (c ∷ cs) f = ground (arith, without_conn-IsFresh n k cs f.1)

pub without_conn-HasDistinctIds :
    (n : ℕ) (cs : List Conn) → HasDistinctIds cs → HasDistinctIds (without_conn n cs)
without_conn-HasDistinctIds n [] d = tt
without_conn-HasDistinctIds n (c ∷ cs) d =
    ground (arith, without_conn-HasDistinctIds n cs d.1, without_conn-IsFresh c.id n cs d.0)

pub without_conn-gone : (n : ℕ) (cs : List Conn) → IsFresh n (without_conn n cs)
without_conn-gone n [] = tt
without_conn-gone n (c ∷ cs) = elim (Bool-cases (c.id == n)) [
  | inl e ↦ rw e (without_conn-gone n cs)
  | inr e ↦ rw e ((λ q. ground (arith, q)), without_conn-gone n cs)
]

pub without_conn-All {κ} :
    (P : Conn → Type κ) (n : ℕ) (cs : List Conn) → All P cs → All P (without_conn n cs)
without_conn-All P n [] a = tt
without_conn-All P n (c ∷ cs) a = elim (Bool-cases (c.id == n)) [
  | inl e ↦ rw e (without_conn-All P n cs a.1)
  | inr e ↦ rw e (a.0, without_conn-All P n cs a.1)
]

pub deregister-IsValid : (c : Conn) (h : Hub) → IsValid h → IsValid (deregister c h)
unfolding deregister
deregister-IsValid c h v = record {
  distinct = without_conn-HasDistinctIds c.id h.conns v.distinct;
  all_open = without_conn-All (IsOpenIn h.chans) c.id h.conns v.all_open;
  no_fault = v.no_fault;
}

-- A channel that is closed or opened under a number that is not registered.
pub still_open :
    (n : ℕ) (ch : Chan) (f : ℕ → Chan) (cs : List Conn)
    → IsFresh n cs
    → All (IsOpenIn f) cs
    → All (IsOpenIn (set_chan n ch f)) cs
still_open n ch f [] g a = tt
still_open n ch f (c ∷ cs) g a = (ground arith, still_open n ch f cs g.1 a.1)

snoc-IsFresh :
    (n : ℕ) (cs : List Conn) (c : Conn) → IsFresh n cs → c.id ≢ n → IsFresh n (cs ++ c ∷ [])
snoc-IsFresh n cs c f d = All-append (λ x. x.id ≢ n) cs (c ∷ []) f (d, tt)

snoc-HasDistinctIds :
    (cs : List Conn) (c : Conn)
    → IsFresh c.id cs
    → HasDistinctIds cs
    → HasDistinctIds (cs ++ c ∷ [])
snoc-HasDistinctIds [] c f d = (tt, tt)
snoc-HasDistinctIds (x ∷ cs) c f d =
    (snoc-IsFresh x.id cs c d.0 (λ e. f.0 (sym e)), snoc-HasDistinctIds cs c f.1 d.1)

pub add_conn-IsValid :
    (c : Conn) (h : Hub) → IsFresh c.id h.conns → IsValid h → IsValid (add_conn c h)
unfolding add_conn
add_conn-IsValid c h f v = record {
  distinct = snoc-HasDistinctIds h.conns c f v.distinct;
  all_open =
      All-append (IsOpenIn (set_chan c.id (open_chan []) h.chans)) h.conns (c ∷ [])
        (still_open c.id (open_chan []) h.chans h.conns f v.all_open) (ground arith, tt);
  no_fault = v.no_fault;
}

-- Opening a channel that may be a registered one's.
pub set_open :
    (n : ℕ) (q : List Message) (f : ℕ → Chan) (cs : List Conn)
    → All (IsOpenIn f) cs
    → All (IsOpenIn (set_chan n (open_chan q) f)) cs
set_open n q f [] a = tt
set_open n q f (c ∷ cs) a = (ground arith, set_open n q f cs a.1)

greet_on-IsValid :
    (c : Conn) (ch : Chan) (h : Hub) → is_open ch ≡ true → IsValid h → IsValid (greet_on c ch h)
greet_on-IsValid c closed_chan h o v = absurd (ground arith)
greet_on-IsValid c (open_chan q) h o v = elim (Bool-cases (ltb (length q) send_buf_size)) [
  | inl e ↦ rw e (record {
    distinct = v.distinct;
    all_open = set_open c.id (q ++ reconnect ∷ []) h.chans h.conns v.all_open;
    no_fault = v.no_fault;
  })
  | inr e ↦ rw e v
]

register-IsValid : (c : Conn) (h : Hub) → IsFresh c.id h.conns → IsValid h → IsValid (register c h)
unfolding register greet
register-IsValid c h f v =
    greet_on-IsValid c ((add_conn c h).chans c.id) (add_conn c h) (unfold add_conn in ground arith)
      (add_conn-IsValid c h f v)

-- Closing the channel of a connection that has left.
pub close_conn-IsValid :
    (c : Conn) (h : Hub) → IsFresh c.id h.conns → IsValid h → IsValid (close_conn c h)
unfolding close_conn
close_conn-IsValid c h f v = record {
  distinct = v.distinct;
  all_open = still_open c.id closed_chan h.chans h.conns f v.all_open;
  no_fault = v.no_fault;
}

without_all-IsFresh : (n : ℕ) (vs cs : List Conn) → IsFresh n cs → IsFresh n (without_all vs cs)
without_all-IsFresh n [] cs f = f
without_all-IsFresh n (v ∷ vs) cs f =
    without_all-IsFresh n vs (without_conn v.id cs) (without_conn-IsFresh n v.id cs f)

-- The victims have left, and none of their channels is a registered one's.
without_all-gone : (vs cs : List Conn) → All (λ v. IsFresh v.id (without_all vs cs)) vs
without_all-gone [] cs = tt
without_all-gone (v ∷ vs) cs = (
  without_all-IsFresh v.id vs (without_conn v.id cs) (without_conn-gone v.id cs),
  without_all-gone vs (without_conn v.id cs),
)

without_all-HasDistinctIds :
    (vs cs : List Conn) → HasDistinctIds cs → HasDistinctIds (without_all vs cs)
without_all-HasDistinctIds [] cs d = d
without_all-HasDistinctIds (v ∷ vs) cs d =
    without_all-HasDistinctIds vs (without_conn v.id cs) (without_conn-HasDistinctIds v.id cs d)

without_all-All {κ} : (P : Conn → Type κ) (vs cs : List Conn) → All P cs → All P (without_all vs cs)
without_all-All P [] cs a = a
without_all-All P (v ∷ vs) cs a =
    without_all-All P vs (without_conn v.id cs) (without_conn-All P v.id cs a)

close_all-IsValid :
    (vs : List Conn) (h : Hub)
    → All (λ v. IsFresh v.id h.conns) vs
    → IsValid h
    → IsValid (close_all vs h)
close_all-IsValid [] h f v = v
close_all-IsValid (c ∷ cs) h f v =
    close_all-IsValid cs (close_conn c h) (unfold close_conn in f.1) (close_conn-IsValid c h f.0 v)

close_all-conns : (vs : List Conn) (h : Hub) → (close_all vs h).conns ≡ h.conns
close_all-conns [] h = refl
close_all-conns (v ∷ vs) h = close_all-conns vs (close_conn v h) ∙ (unfold close_conn in refl)

revoke_token-IsValid : (t : Text) (h : Hub) → IsValid h → IsValid (revoke_token t h)
unfolding revoke_token
revoke_token-IsValid t h v =
    let victims = with_token t h.conns in
    close_all-IsValid victims _ (without_all-gone victims h.conns) (record {
      distinct = without_all-HasDistinctIds victims h.conns v.distinct;
      all_open = without_all-All (IsOpenIn h.chans) victims h.conns v.all_open;
      no_fault = v.no_fault;
    })

call-IsValid : (c : Call) (h : Hub) → IsAllowed c h → IsValid h → IsValid (call c h)
unfolding call
call-IsValid (broadcast_call msg) h a v = (broadcast-delivers msg h v).0
call-IsValid (revoke_call t) h a v = revoke_token-IsValid t h v
call-IsValid (register_call c) h a v = register-IsValid c h a v
call-IsValid (deregister_call c) h a v = deregister-IsValid c h v

-- Where the calls come one after the other, no sequence of them that starts from a valid hub sends on
-- a closed channel: the hub stays valid, every registered connection's channel is open, and none
-- is registered twice.
pub Reaches-IsValid : (h h' : Hub) → IsValid h → Reaches h h' → IsValid h'
Reaches-IsValid h h' v start = v
Reaches-IsValid h _ v (later {h1} c r a) = call-IsValid c h1 a (Reaches-IsValid h h1 v r)
