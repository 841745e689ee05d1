-- ===== src/Hub/Race/Calm.antt =====
-- A broadcast of internal/server/hub.go while connections come and go.

use rdw.Common.{
  lt→ltb, ltb, if◌then◌else◌, Bool-cases, length, All, All-imp, is_empty, Text, ◌≡◌, refl, sym, ap,
  ◌∙◌, inl, inr, true, false, List, [], ◌∷◌, ◌++◌, arith,
}
use rdw.Hub.{
  Message, reconnect, send_buf_size, Conn, Chan, open_chan, closed_chan, Hub, without_conn,
  deregister, close_conn, is_listed, is_revoked, offer, add_conn, greet,
}
use rdw.Hub.Broadcast.{IsFresh, HasDistinctIds, is_open, IsOpenIn, IsValid}
use rdw.Hub.Revoke.{
  Call, broadcast_call, revoke_call, register_call, deregister_call, call, without_conn-gone,
  without_conn-HasDistinctIds, without_conn-All, deregister-IsValid, still_open, set_open,
  add_conn-IsValid, close_conn-IsValid,
}
use rdw.Hub.Race.{
  before_each, at_send, todo, Moment, IsIn, first, further, IsNew, IsWhole, Step, snapshot_step,
  revoked_step, check_step, send_step, finish_step, arrive_step, greet_step, other_step, Run, here,
  next, at_rest,
}
use rdw.Hub.Race.Ready.{
  offer-IsReady, dropped-IsReady, new-IsReady, left-IsReady, greeted-IsReady, arrived-All, pending,
  IsReady,
}

-- An arrival whose token is not revoked on the hub `h`, or a departure.
abbrev pub IsCalmCall : Hub → Call → Type 0
IsCalmCall h (broadcast_call msg) = ⊥
IsCalmCall h (revoke_call t) = ⊥
IsCalmCall h (register_call c) = is_revoked c.token_id h ≡ false
IsCalmCall h (deregister_call c) = Unit

record IsCalm (h0 : Hub) (m : Moment) : Type 0 where
  same_tokens : m.hub.revoked_tokens ≡ h0.revoked_tokens
  hub_valid : IsValid m.hub
  todo_distinct : HasDistinctIds (todo m.phase)
  todo_open : All (IsOpenIn m.hub.chans) (todo m.phase)
  greeting_distinct : HasDistinctIds m.greeting
  greeting_ready : All (IsReady h0 m.hub.chans (pending m.phase m.hub.conns)) m.greeting

same_revoked :
    (t : Text) (g h : Hub) → g.revoked_tokens ≡ h.revoked_tokens → is_revoked t g ≡ is_revoked t h
unfolding is_revoked
same_revoked t g h e = ap (λ ts. if is_empty t then false else is_listed t ts) e

ready_of : (P : Conn → Type 0) (c : Conn) (gs : List Conn) → IsIn c gs → All P gs → P c
ready_of P c _ first a = a.0
ready_of P c _ (further i) a = ready_of P c _ i a.1

-- What `offer` leaves of a valid hub.
record IsOffered (h : Hub) (cs : List Conn) (g : Hub) : Type 0 where
  tokens : g.revoked_tokens ≡ h.revoked_tokens
  valid : IsValid g
  rest_open : All (IsOpenIn g.chans) cs

offer-IsOffered :
    (msg : Message) (c : Conn) (cs : List Conn) (h : Hub) (ch : Chan)
    → is_open ch ≡ true
    → IsValid h
    → IsFresh c.id cs
    → All (IsOpenIn h.chans) cs
    → IsOffered h cs (offer msg c ch h)
unfolding close_conn deregister
offer-IsOffered msg c cs h closed_chan o v f a = absurd (ground arith)
offer-IsOffered msg c cs h (open_chan q) o v f a =
    elim (Bool-cases (ltb (length q) send_buf_size)) [
      | inl e ↦ rw e (record {
        tokens = refl;
        valid = record {
          distinct = v.distinct;
          all_open = set_open c.id (q ++ msg ∷ []) h.chans h.conns v.all_open;
          no_fault = v.no_fault;
        };
        rest_open = set_open c.id (q ++ msg ∷ []) h.chans cs a;
      })
      | inr e ↦ rw e (record {
        tokens = refl;
        valid =
            close_conn-IsValid c (deregister c h) (without_conn-gone c.id h.conns)
              (deregister-IsValid c h v);
        rest_open = still_open c.id closed_chan h.chans cs f a;
      })
    ]

-- What `offer` does to a hub, and to the connections that are still to come.
offered-IsCalm :
    (h0 : Hub) (msg : Message) (c : Conn) (cs gs : List Conn) (h : Hub)
    → IsCalm h0 (record { hub = h; phase = at_send c cs; greeting = gs })
    → IsCalm h0
        (record { hub = offer msg c (h.chans c.id) h; phase = before_each cs; greeting = gs })
offered-IsCalm h0 msg c cs gs h v =
    let o =
      offer-IsOffered msg c cs h (h.chans c.id) v.todo_open.0 v.hub_valid v.todo_distinct.0
        v.todo_open.1 in
    record {
      same_tokens = o.tokens ∙ v.same_tokens;
      hub_valid = o.valid;
      todo_distinct = v.todo_distinct.1;
      todo_open = o.rest_open;
      greeting_distinct = v.greeting_distinct;
      greeting_ready =
          All-imp (λ g. offer-IsReady h0 msg h c cs g v.todo_distinct.0) gs v.greeting_ready;
    }

dropped-IsCalm :
    (h0 : Hub) (c : Conn) (cs gs : List Conn) (h : Hub)
    → is_revoked c.token_id h ≡ true
    → IsCalm h0 (record { hub = h; phase = before_each (c ∷ cs); greeting = gs })
    → IsCalm h0
        (record { hub = close_conn c (deregister c h); phase = before_each cs; greeting = gs })
unfolding close_conn deregister
dropped-IsCalm h0 c cs gs h r v = record {
  same_tokens = v.same_tokens;
  hub_valid =
      close_conn-IsValid c (deregister c h) (without_conn-gone c.id h.conns)
        (deregister-IsValid c h v.hub_valid);
  todo_distinct = v.todo_distinct.1;
  todo_open = still_open c.id closed_chan h.chans cs v.todo_distinct.0 v.todo_open.1;
  greeting_distinct = v.greeting_distinct;
  greeting_ready =
      All-imp
        (λ g. dropped-IsReady h0 h c cs g (sym (same_revoked c.token_id h h0 v.same_tokens) ∙ r)) gs
        v.greeting_ready;
}

arrive-IsCalm :
    (h0 : Hub) (c : Conn) (m : Moment)
    → is_revoked c.token_id h0 ≡ false
    → IsNew c m
    → IsCalm h0 m
    → IsCalm h0 (record { hub = add_conn c m.hub; phase = m.phase; greeting = c ∷ m.greeting })
unfolding add_conn
arrive-IsCalm h0 c m r n v = record {
  same_tokens = v.same_tokens;
  hub_valid = add_conn-IsValid c m.hub n.not_registered v.hub_valid;
  todo_distinct = v.todo_distinct;
  todo_open = set_open c.id [] m.hub.chans (todo m.phase) v.todo_open;
  greeting_distinct = (n.not_greeting, v.greeting_distinct);
  greeting_ready = (
    new-IsReady h0 m.phase m.hub c r n.not_registered n.not_todo,
    arrived-All h0 m.phase m.hub c m.greeting n.not_greeting v.greeting_ready,
  );
}

greet-IsCalm :
    (h0 : Hub) (c : Conn) (m : Moment)
    → IsIn c m.greeting
    → IsCalm h0 m
    → IsCalm h0
        (record { hub = greet c m.hub; phase = m.phase; greeting = without_conn c.id m.greeting })
unfolding greet
greet-IsCalm h0 c m i v =
    let r =
      ready_of (IsReady h0 m.hub.chans (pending m.phase m.hub.conns)) c m.greeting i
        v.greeting_ready in
    let room : ltb (length r.queue) send_buf_size ≡ true = lt→ltb _ _ (omega (arith, r.short)) in
    rw (r.opened, room)
      (record {
        same_tokens = v.same_tokens;
        hub_valid = record {
          distinct = v.hub_valid.distinct;
          all_open =
              set_open c.id (r.queue ++ reconnect ∷ []) m.hub.chans m.hub.conns
                v.hub_valid.all_open;
          no_fault = v.hub_valid.no_fault;
        };
        todo_distinct = v.todo_distinct;
        todo_open =
            set_open c.id (r.queue ++ reconnect ∷ []) m.hub.chans (todo m.phase) v.todo_open;
        greeting_distinct = without_conn-HasDistinctIds c.id m.greeting v.greeting_distinct;
        greeting_ready =
            greeted-IsReady h0 (pending m.phase m.hub.conns) (r.queue ++ reconnect ∷ []) c.id
              m.hub.chans (without_conn c.id m.greeting) (without_conn-gone c.id m.greeting)
              (without_conn-All (IsReady h0 m.hub.chans (pending m.phase m.hub.conns)) c.id
                m.greeting v.greeting_ready);
      })

leave-IsCalm :
    (h0 : Hub) (c : Conn) (m : Moment)
    → IsCalm h0 m
    → IsCalm h0 (record m { hub = deregister c m.hub })
unfolding deregister
leave-IsCalm h0 c m v = record {
  same_tokens = v.same_tokens;
  hub_valid = deregister-IsValid c m.hub v.hub_valid;
  todo_distinct = v.todo_distinct;
  todo_open = v.todo_open;
  greeting_distinct = v.greeting_distinct;
  greeting_ready = All-imp (λ g. left-IsReady h0 m.phase m.hub c.id g) m.greeting v.greeting_ready;
}

other-IsCalm :
    (h0 : Hub) (k : Call) (m : Moment)
    → IsCalmCall h0 k
    → IsWhole k
    → IsCalm h0 m
    → IsCalm h0 (record m { hub = call k m.hub })
unfolding call
other-IsCalm h0 (broadcast_call msg) m n w v = absurd n
other-IsCalm h0 (revoke_call t) m n w v = absurd n
other-IsCalm h0 (register_call c) m n w v = absurd w
other-IsCalm h0 (deregister_call c) m n w v = leave-IsCalm h0 c m v

step-IsCalm :
    (h0 : Hub) (msg : Message) (m m' : Moment)
    → Step msg (IsCalmCall h0) m m'
    → IsCalm h0 m
    → IsCalm h0 m'
step-IsCalm h0 msg _ _ (snapshot_step {h} {gs}) v = record {
  same_tokens = v.same_tokens;
  hub_valid = v.hub_valid;
  todo_distinct = v.hub_valid.distinct;
  todo_open = v.hub_valid.all_open;
  greeting_distinct = v.greeting_distinct;
  greeting_ready = v.greeting_ready;
}
step-IsCalm h0 msg _ _ (revoked_step {h} {c} {cs} {gs} r) v = dropped-IsCalm h0 c cs gs h r v
step-IsCalm h0 msg _ _ (check_step {h} {c} {cs} {gs} r) v = record {
  same_tokens = v.same_tokens;
  hub_valid = v.hub_valid;
  todo_distinct = v.todo_distinct;
  todo_open = v.todo_open;
  greeting_distinct = v.greeting_distinct;
  greeting_ready = v.greeting_ready;
}
step-IsCalm h0 msg _ _ (send_step {h} {c} {cs} {gs}) v = offered-IsCalm h0 msg c cs gs h v
step-IsCalm h0 msg _ _ (finish_step {h} {gs}) v = record {
  same_tokens = v.same_tokens;
  hub_valid = v.hub_valid;
  todo_distinct = tt;
  todo_open = tt;
  greeting_distinct = v.greeting_distinct;
  greeting_ready = v.greeting_ready;
}
step-IsCalm h0 msg _ _ (arrive_step {m} c r n) v = arrive-IsCalm h0 c m r n v
step-IsCalm h0 msg _ _ (greet_step {m} c i) v = greet-IsCalm h0 c m i v
step-IsCalm h0 msg _ _ (other_step {m} k n w) v = other-IsCalm h0 k m n w v

run-IsCalm :
    (msg : Message) (h : Hub) (m : Moment)
    → IsValid h
    → Run msg (IsCalmCall h) (at_rest h) m
    → IsCalm h m
run-IsCalm msg h _ v here = record {
  same_tokens = refl;
  hub_valid = v;
  todo_distinct = tt;
  todo_open = tt;
  greeting_distinct = tt;
  greeting_ready = tt;
}
run-IsCalm msg h m v (next {m1} r st) = step-IsCalm h msg m1 m st (run-IsCalm msg h m1 v r)

-- Where the only calls of others meanwhile are arrivals whose tokens are not revoked and departures,
-- one broadcast on a valid hub does not panic, and neither does the first send of an arrival, at
-- whatever points the registration, that send and the departures come in.
pub run-calm :
    (msg : Message) (h : Hub) (m : Moment)
    → IsValid h
    → Run msg (IsCalmCall h) (at_rest h) m
    → m.hub.has_faulted ≡ false
run-calm msg h m v r = (run-IsCalm msg h m v r).hub_valid.no_fault
