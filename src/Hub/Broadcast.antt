-- ===== src/Hub/Broadcast.antt =====
-- `Broadcast` and `RevokeToken` of internal/server/hub.go, one call after the other.
use mathlib.Core.List.{append_assoc}
use mathlib.Core.Path.{subst}
use rdw.Common.{
  ltb, if◌then◌else◌, Bool-cases, length, keep_if, All, All-append, All-imp, ℕ, ◌≡◌, refl, sym, ap,
  ◌∙◌, ◌≢◌, inl, inr, Bool, true, false, not, ◌&&◌, List, [], ◌∷◌, ◌++◌, arith,
}
use rdw.Hub.{
  Message, send_buf_size, Conn, Chan, open_chan, closed_chan, Hub, set_chan, without_conn,
  deregister, close_conn, is_revoked, send_to, broadcast_to, broadcast,
}

-- No number is registered twice.
abbrev pub IsFresh : ℕ → List Conn → Type 0
IsFresh n = All (λ c. c.id ≢ n)

abbrev pub HasDistinctIds : List Conn → Type 0
HasDistinctIds [] = Unit
HasDistinctIds (c ∷ cs) = IsFresh c.id cs × HasDistinctIds cs

abbrev pub is_open : Chan → Bool
is_open closed_chan = false
is_open (open_chan q) = true

-- The channels of the registered connections are open.
abbrev pub IsOpenIn : (ℕ → Chan) → Conn → Type 0
IsOpenIn chans c = is_open (chans c.id) ≡ true

pub record IsValid (h : Hub) : Type 0 where
  pub distinct : HasDistinctIds h.conns
  pub all_open : All (IsOpenIn h.chans) h.conns
  pub no_fault : h.has_faulted ≡ false

Chan-cases : (c : Chan) → is_open c ≡ true → (q : List Message) × (c ≡ open_chan q)
Chan-cases closed_chan h = absurd (ground arith)
Chan-cases (open_chan q) h = (q, refl)

-- Whether a connection gets a message: its token stands, and its channel has room.
abbrev has_room : Chan → Bool
has_room closed_chan = false
has_room (open_chan q) = ltb (length q) send_buf_size

abbrev pub takes : Hub → Conn → Bool
takes h c = not (is_revoked c.token_id h) && has_room (h.chans c.id)

abbrev queued : Message → Chan → Chan
queued msg closed_chan = closed_chan
queued msg (open_chan q) = open_chan (q ++ msg ∷ [])

-- The channel of a connection after a broadcast.
abbrev pub chan_after : Message → Hub → Conn → Chan
chan_after msg h c = if takes h c then queued msg (h.chans c.id) else closed_chan

abbrev conns_after : Hub → Conn → List Conn → List Conn
conns_after h c cs = if takes h c then cs else without_conn c.id cs

send_to_lem :
    (msg : Message) (c : Conn) (h : Hub)
    → IsOpenIn h.chans c
    → send_to msg c h ≡ record h {
      conns = conns_after h c h.conns;
      chans = set_chan c.id (chan_after msg h c) h.chans;
    }
unfolding send_to close_conn deregister
send_to_lem msg c h o =
    let (q, e) = Chan-cases (h.chans c.id) o in
    elim (Bool-cases (is_revoked c.token_id h)) [
      | inl r ↦ rw (r) refl
      | inr r ↦ elim (Bool-cases (ltb (length q) send_buf_size)) [
        | inl l ↦ rw (r, e, l) refl
        | inr l ↦ rw (r, e, l) refl
      ]
    ]

-- A step of the loop leaves the other connections' answers as they are.
other_chan :
    (msg : Message) (c : Conn) (h : Hub) (n : ℕ)
    → IsOpenIn h.chans c
    → c.id ≢ n
    → (send_to msg c h).chans n ≡ h.chans n
other_chan msg c h n o d = rw (send_to_lem msg c h o) (ground arith)

without_conn-fresh : (n : ℕ) (cs : List Conn) → IsFresh n cs → without_conn n cs ≡ cs
without_conn-fresh n [] f = refl
without_conn-fresh n (c ∷ cs) f = ground (arith, without_conn-fresh n cs f.1)

without_conn-append :
    (n : ℕ) (xs ys : List Conn) → without_conn n (xs ++ ys) ≡ without_conn n xs ++ without_conn n ys
without_conn-append n [] ys = refl
without_conn-append n (x ∷ xs) ys = ground (arith, without_conn-append n xs ys)

-- The registered connections once the loop has been over `cs`.
abbrev conns_left : Hub → List Conn → List Conn → List Conn
conns_left h [] conns = conns
conns_left h (c ∷ cs) conns = conns_left h cs (conns_after h c conns)

-- No number of the first list is in the second.
abbrev IsApart : List Conn → List Conn → Type 0
IsApart pre cs = All (λ p. IsFresh p.id cs) pre

conns_left-keep_if :
    (h : Hub) (pre cs : List Conn)
    → IsApart pre cs
    → HasDistinctIds cs
    → conns_left h cs (pre ++ cs) ≡ pre ++ keep_if (takes h) cs
conns_left-keep_if h pre [] a d = refl
conns_left-keep_if h pre (c ∷ cs) a d = elim (Bool-cases (takes h c)) [
  | inl t ↦ rw t (
      ap (conns_left h cs) (sym (append_assoc pre (c ∷ []) cs))
      ∙ conns_left-keep_if h (pre ++ c ∷ []) cs
          (All-append (λ p. IsFresh p.id cs) pre (c ∷ []) (All-imp (λ p f. f.1) pre a) (d.0, tt))
          d.1
      ∙ append_assoc pre (c ∷ []) (keep_if (takes h) cs))
  | inr t ↦ rw t (
      ap (conns_left h cs) (
        without_conn-append c.id pre (c ∷ cs)
        ∙ ap (λ x. x ++ without_conn c.id (c ∷ cs))
            (without_conn-fresh c.id pre (All-imp (λ p f e. f.0 (sym e)) pre a))
        ∙ ap (λ x. pre ++ x) (head_left c cs d.0))
      ∙ conns_left-keep_if h pre cs (All-imp (λ p f. f.1) pre a) d.1)
]
  where
    head_left : (c : Conn) (cs : List Conn) → IsFresh c.id cs → without_conn c.id (c ∷ cs) ≡ cs
    head_left c cs f = ground (arith, without_conn-fresh c.id cs f)

takes_same :
    (h1 h : Hub) (c : Conn)
    → h1.revoked_tokens ≡ h.revoked_tokens
    → h1.chans c.id ≡ h.chans c.id
    → takes h1 c ≡ takes h c
unfolding is_revoked
takes_same h1 h c t e = rw (t, e) refl

chan_after_same :
    (msg : Message) (h1 h : Hub) (c : Conn)
    → h1.revoked_tokens ≡ h.revoked_tokens
    → h1.chans c.id ≡ h.chans c.id
    → chan_after msg h1 c ≡ chan_after msg h c
chan_after_same msg h1 h c t e = rw (takes_same h1 h c t e, e) refl

-- Two hubs answer alike for a list of connections.
abbrev IsAlike : Hub → Hub → List Conn → Type 0
IsAlike h1 h = All (λ c. h1.chans c.id ≡ h.chans c.id)

conns_left_same :
    (h1 h : Hub) (cs conns : List Conn)
    → h1.revoked_tokens ≡ h.revoked_tokens
    → IsAlike h1 h cs
    → conns_left h1 cs conns ≡ conns_left h cs conns
conns_left_same h1 h [] conns t a = refl
conns_left_same h1 h (c ∷ cs) conns t a =
    ap (λ b. conns_left h1 cs (if b then conns else without_conn c.id conns))
      (takes_same h1 h c t a.0)
    ∙ conns_left_same h1 h cs (conns_after h c conns) t a.1

chans_after_same :
    (msg : Message) (h1 h : Hub) (f : ℕ → Chan) (cs : List Conn)
    → h1.revoked_tokens ≡ h.revoked_tokens
    → IsAlike h1 h cs
    → All (λ c. f c.id ≡ chan_after msg h1 c) cs
    → All (λ c. f c.id ≡ chan_after msg h c) cs
chans_after_same msg h1 h f [] t a r = tt
chans_after_same msg h1 h f (c ∷ cs) t a r =
    (r.0 ∙ chan_after_same msg h1 h c t a.0, chans_after_same msg h1 h f cs t a.1 r.1)

All-map2 {κ μ ν} :
    {P : Conn → Type κ} {Q : Conn → Type μ} {R : Conn → Type ν} (f : (c : Conn) → P c → Q c → R c)
    (cs : List Conn)
    → All P cs
    → All Q cs
    → All R cs
All-map2 f [] p q = tt
All-map2 f (c ∷ cs) p q = (f c p.0 q.0, All-map2 f cs p.1 q.1)

record IsBroadcast (msg : Message) (cs : List Conn) (h h' : Hub) : Type 0 where
  no_fault : h'.has_faulted ≡ false
  same_tokens : h'.revoked_tokens ≡ h.revoked_tokens
  conns_are : h'.conns ≡ conns_left h cs h.conns
  others_kept : (n : ℕ) → IsFresh n cs → h'.chans n ≡ h.chans n
  chans_are : All (λ c. h'.chans c.id ≡ chan_after msg h c) cs

-- The loop of `Broadcast` over connections whose channels are open: it does not fault, changes no
-- other channel, and leaves each connection's channel and registration as its answer says.
broadcast_to_lem :
    (msg : Message) (cs : List Conn) (h : Hub)
    → HasDistinctIds cs
    → All (IsOpenIn h.chans) cs
    → h.has_faulted ≡ false
    → IsBroadcast msg cs h (broadcast_to msg cs h)
unfolding broadcast_to
broadcast_to_lem msg [] h d o f = record {
  no_fault = f;
  same_tokens = refl;
  conns_are = refl;
  others_kept = λ n g. refl;
  chans_are = tt;
}
broadcast_to_lem msg (c ∷ cs) h d o f =
    let h1 : Hub = send_to msg c h in
    let step = send_to_lem msg c h o.0 in
    let tokens : h1.revoked_tokens ≡ h.revoked_tokens = ap (λ x. x.revoked_tokens) step in
    let alike : IsAlike h1 h cs =
      All-imp (λ x n. other_chan msg c h x.id o.0 (λ e. n (sym e))) cs d.0 in
    let opened : All (IsOpenIn h1.chans) cs = All-map2 (λ x a k. ap is_open a ∙ k) cs alike o.1 in
    let faultless = ap (λ x. x.has_faulted) step ∙ f in
    let ih = broadcast_to_lem msg cs h1 d.1 opened faultless in
    let now : h1.chans c.id ≡ chan_after msg h c = ap (λ x. x.chans c.id) step ∙ ground arith in
    let looped : broadcast_to msg (c ∷ cs) h ≡ broadcast_to msg cs h1 =
      ap (λ b. if b then h1 else broadcast_to msg cs h1) faultless in
    subst (IsBroadcast msg (c ∷ cs) h) (sym looped) (record {
      no_fault = ih.no_fault;
      same_tokens = ih.same_tokens ∙ tokens;
      conns_are =
          ih.conns_are
          ∙ ap (conns_left h1 cs) (ap (λ x. x.conns) step)
          ∙ conns_left_same h1 h cs (conns_after h c h.conns) tokens alike;
      others_kept = λ n g. ih.others_kept n g.1 ∙ other_chan msg c h n o.0 g.0;
      chans_are =
          (ih.others_kept c.id d.0 ∙ now, chans_after_same msg h1 h _ cs tokens alike ih.chans_are);
    })

keep_if-IsFresh :
    (p : Conn → Bool) (n : ℕ) (cs : List Conn) → IsFresh n cs → IsFresh n (keep_if p cs)
keep_if-IsFresh p n [] f = tt
keep_if-IsFresh p n (c ∷ cs) f = ground (arith, keep_if-IsFresh p n cs f.1)

keep_if-HasDistinctIds :
    (p : Conn → Bool) (cs : List Conn) → HasDistinctIds cs → HasDistinctIds (keep_if p cs)
keep_if-HasDistinctIds p [] d = tt
keep_if-HasDistinctIds p (c ∷ cs) d =
    ground (arith, keep_if-HasDistinctIds p cs d.1, keep_if-IsFresh p c.id cs d.0)

takes-open :
    (msg : Message) (h : Hub) (c : Conn) → takes h c ≡ true → is_open (chan_after msg h c) ≡ true
takes-open msg h c t = rw t (opened (h.chans c.id) (ground arith))
  where
    opened : (ch : Chan) → has_room ch ≡ true → is_open (queued msg ch) ≡ true
    opened closed_chan r = cc
    opened (open_chan q) r = refl

kept_open :
    (msg : Message) (h h' : Hub) (cs : List Conn)
    → All (λ c. h'.chans c.id ≡ chan_after msg h c) cs
    → All (IsOpenIn h'.chans) (keep_if (takes h) cs)
kept_open msg h h' [] r = tt
kept_open msg h h' (c ∷ cs) r = elim (Bool-cases (takes h c)) [
  | inl t ↦ rw t (ap is_open r.0 ∙ takes-open msg h c t, kept_open msg h h' cs r.1)
  | inr t ↦ rw t (kept_open msg h h' cs r.1)
]

-- A broadcast to a valid hub does not fault and leaves it valid. The connections that stay are exactly
-- those whose token is not revoked and whose channel has room, in their order; each of them has
-- the message as the last of its channel, and the channel of each other one is closed.
pub broadcast-delivers :
    (msg : Message) (h : Hub)
    → IsValid h
    → IsValid (broadcast msg h)
      × ((broadcast msg h).conns ≡ keep_if (takes h) h.conns)
      × All (λ c. (broadcast msg h).chans c.id ≡ chan_after msg h c) h.conns
unfolding broadcast
broadcast-delivers msg h v =
    let b = broadcast_to_lem msg h.conns h v.distinct v.all_open v.no_fault in
    let kept = b.conns_are ∙ conns_left-keep_if h [] h.conns tt v.distinct in
    (
      record {
        distinct =
            subst HasDistinctIds (sym kept) (keep_if-HasDistinctIds (takes h) h.conns v.distinct);
        all_open =
            subst (All (IsOpenIn (broadcast_to msg h.conns h).chans)) (sym kept)
              (kept_open msg h (broadcast_to msg h.conns h) h.conns b.chans_are);
        no_fault = b.no_fault;
      },
      kept,
      b.chans_are,
    )
