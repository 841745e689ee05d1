-- ===== src/Server/SwapLaws.antt =====
-- What `handlePaneSwap` makes of the identifiers of a session: the same ones, elsewhere. A session is
-- seen here as the lists of identifiers of its windows.
use mathlib.Core.Path.{subst}
use rdw.Common.{
  if◌then◌else◌, Bool-cases, Option-cases, get_elem?, text_eq, text_eq_iff, ℕ, zero, suc, ◌+◌, ◌≡◌,
  refl, sym, ap, ◌∙◌, ◌≢◌, inl, inr, true, false, none, some, List, [], ◌∷◌, ◌++◌, map, arith,
}
use rdw.Session.TargetId.{TargetId}
use rdw.Session.Manager.{PaneState, WindowState, pane_in, find_pane_in, pane_ids, window_pane_ids}
use rdw.Session.Manager.Panes.{contains}
use rdw.Session.Manager.Counts.{same, count, count-append}
use rdw.Server.{update_pane_in, update_pane}
use rdw.Server.Swap.{pane_window, update_at, placed, swap_places, put_pane, swap_panes}

abbrev rows : List WindowState → List (List TargetId)
rows = map (λ w. pane_ids w.panes)

abbrev flat : List (List TargetId) → List TargetId
flat [] = []
flat (r ∷ rs) = r ++ flat rs

window_pane_ids-flat : (ws : List WindowState) → window_pane_ids ws ≡ flat (rows ws)
unfolding window_pane_ids
window_pane_ids-flat [] = refl
window_pane_ids-flat (w ∷ ws) = ap (◌++◌ (pane_ids w.panes)) (window_pane_ids-flat ws)

unfoldable change :
    ℕ → (List TargetId → List TargetId) → List (List TargetId) → List (List TargetId)
change i f [] = []
change zero f (r ∷ rs) = f r ∷ rs
change (suc i) f (r ∷ rs) = r ∷ change i f rs

-- The first occurrence of one identifier replaced by another.
unfoldable replace_first : TargetId → TargetId → List TargetId → List TargetId
replace_first a b [] = []
replace_first a b (x ∷ xs) = if text_eq x a then b ∷ xs else x ∷ replace_first a b xs

count-replace_first :
    (x a b : TargetId) (xs : List TargetId)
    → contains a xs ≡ true
    → count x (replace_first a b xs) + same a x ≡ count x xs + same b x
unfolding replace_first count contains
count-replace_first x a b [] h = absurd (ground arith)
count-replace_first x a b (y ∷ ys) h = elim (Bool-cases (text_eq y a)) [
  | inl e ↦ let k : y ≡ a = (text_eq_iff y a).0 e in rw e (rw (ap (λ t. same t x) k) (omega arith))
  | inr e ↦ rw e (omega (arith, count-replace_first x a b ys (ground arith)))
]

count-change :
    (x : TargetId) (i : ℕ) (f : List TargetId → List TargetId) (rs : List (List TargetId))
    {r : List TargetId}
    → get_elem? rs i ≡ some r
    → count x (flat (change i f rs)) + count x r ≡ count x (flat rs) + count x (f r)
unfolding change
count-change x i f [] h = absurd (ground arith)
count-change x zero f (q ∷ rs) {r} h =
    let k : q ≡ r = ground arith in
    rw (← k) (omega (arith, count-append x q (flat rs), count-append x (f q) (flat rs)))
count-change x (suc i) f (q ∷ rs) h = omega (
  arith,
  count-append x q (flat rs),
  count-append x q (flat (change i f rs)),
  count-change x i f rs h,
)

get_elem?-change :
    (i j : ℕ) (f : List TargetId → List TargetId) (rs : List (List TargetId))
    → i ≢ j
    → get_elem? (change i f rs) j ≡ get_elem? rs j
unfolding change
get_elem?-change i j f [] h = refl
get_elem?-change zero zero f (r ∷ rs) h = absurd (h refl)
get_elem?-change zero (suc j) f (r ∷ rs) h = refl
get_elem?-change (suc i) zero f (r ∷ rs) h = refl
get_elem?-change (suc i) (suc j) f (r ∷ rs) h = get_elem?-change i j f rs (λ e. h (ap suc e))

-- Two windows that exchange a pane each.
count-exchange :
    (x a b : TargetId) (i j : ℕ) (rs : List (List TargetId)) {r q : List TargetId}
    → get_elem? rs i ≡ some r
    → get_elem? rs j ≡ some q
    → i ≢ j
    → contains a r ≡ true
    → contains b q ≡ true
    → count x (flat (change j (replace_first b a) (change i (replace_first a b) rs)))
      ≡ count x (flat rs)
count-exchange x a b i j rs {r} {q} hi hj d ca cb =
    let first = count-change x i (replace_first a b) rs hi in
    let second =
      count-change x j (replace_first b a) (change i (replace_first a b) rs)
        (get_elem?-change i j (replace_first a b) rs d ∙ hj) in
    omega (arith, first, second, count-replace_first x a b r ca, count-replace_first x b a q cb)

-- Writes through a pointer that leave the identifier alone.
rows-update_pane_in :
    (id : TargetId) (f : PaneState → PaneState) (ps : List PaneState)
    → ((p : PaneState) → (f p).target_id ≡ p.target_id)
    → pane_ids (update_pane_in id f ps) ≡ pane_ids ps
unfolding update_pane_in
rows-update_pane_in id f [] h = refl
rows-update_pane_in id f (p ∷ ps) h = ground (arith, h p, rows-update_pane_in id f ps h)

rows-update_pane :
    (id : TargetId) (f : PaneState → PaneState) (ws : List WindowState)
    → ((p : PaneState) → (f p).target_id ≡ p.target_id)
    → rows (update_pane id f ws) ≡ rows ws
unfolding update_pane
rows-update_pane id f [] h = refl
rows-update_pane id f (w ∷ ws) h =
    ground (arith, rows-update_pane_in id f w.panes h, rows-update_pane id f ws h)

pub ids-update_pane :
    (id : TargetId) (f : PaneState → PaneState) (ws : List WindowState)
    → ((p : PaneState) → (f p).target_id ≡ p.target_id)
    → window_pane_ids (update_pane id f ws) ≡ window_pane_ids ws
ids-update_pane id f ws h =
    window_pane_ids-flat (update_pane id f ws)
    ∙ ap flat (rows-update_pane id f ws h)
    ∙ sym (window_pane_ids-flat ws)

put_pane-ids :
    (a : TargetId) (p : PaneState) (ps : List PaneState)
    → pane_ids (update_pane_in a (λ q. p) ps) ≡ replace_first a p.target_id (pane_ids ps)
unfolding update_pane_in replace_first
put_pane-ids a p [] = refl
put_pane-ids a p (q ∷ ps) = ground (arith, put_pane-ids a p ps)

rows-update_at :
    (i : ℕ) (a : TargetId) (p : PaneState) (ws : List WindowState)
    → rows (update_at i (put_pane a p) ws) ≡ change i (replace_first a p.target_id) (rows ws)
unfolding update_at change
rows-update_at i a p [] = refl
rows-update_at zero a p (w ∷ ws) = ground (arith, put_pane-ids a p w.panes)
rows-update_at (suc i) a p (w ∷ ws) = ground (arith, rows-update_at i a p ws)

pane_in-found :
    (id : TargetId) (ps : List PaneState) {p : PaneState}
    → pane_in id ps ≡ some p
    → (contains id (pane_ids ps) ≡ true) × (p.target_id ≡ id)
unfolding pane_in contains
pane_in-found id [] e = absurd (ground arith)
pane_in-found id (q ∷ ps) {p} e = elim (Bool-cases (text_eq q.target_id id)) [
  | inl k ↦
      let found : q ≡ p = ground arith in
      (ground arith, ap (λ r. r.target_id) (sym found) ∙ (text_eq_iff q.target_id id).0 k)
  | inr k ↦
      let e' : pane_in id ps ≡ some p = ground arith in
      let later = pane_in-found id ps {p = p} e' in (ground arith, later.1)
]

abbrev IsAt : TargetId → ℕ → List WindowState → WindowState → PaneState → Type 0
IsAt id i ws w p =
    (get_elem? ws i ≡ some w)
    × (get_elem? (rows ws) i ≡ some (pane_ids w.panes))
    × (contains id (pane_ids w.panes) ≡ true)
    × (p.target_id ≡ id)

-- Where `FindPane` finds a pane.
found-IsAt :
    (id : TargetId) (ws : List WindowState) {w : WindowState} {p : PaneState}
    → find_pane_in id ws ≡ some (w, p)
    → IsAt id (pane_window id ws) ws w p
unfolding find_pane_in pane_window
found-IsAt id [] e = absurd (ground arith)
found-IsAt id (v ∷ ws) {w} {p} e = elim (Option-cases (pane_in id v.panes)) [
  | inl k ↦ rw k (found-IsAt id ws (later k))
  | inr (q, k) ↦
      let both : ◌≡◌ {A = WindowState × PaneState} (v, q) (w, p) = here q k in
      let found = pane_in-found id v.panes k in
      rw k (subst (λ z. IsAt id 0 (v ∷ ws) z.0 z.1) both (refl, refl, found.0, found.1))
]
  where
    later : pane_in id v.panes ≡ none → find_pane_in id ws ≡ some (w, p)
    later k = ground arith

    here :
        (q : PaneState)
        → pane_in id v.panes ≡ some q
        → ◌≡◌ {A = WindowState × PaneState} (v, q) (w, p)
    here q k = ground arith

ids-swap_places : (a b : PaneState) (ws : List WindowState) → rows (swap_places a b ws) ≡ rows ws
unfolding swap_places
ids-swap_places a b ws =
    rows-update_pane a.target_id (placed b.split b.size)
      (update_pane b.target_id (placed a.split a.size) ws) (λ p. refl)
    ∙ rows-update_pane b.target_id (placed a.split a.size) ws (λ p. refl)

count-rows :
    (x : TargetId) (ws vs : List WindowState)
    → rows ws ≡ rows vs
    → count x (window_pane_ids ws) ≡ count x (window_pane_ids vs)
count-rows x ws vs e =
    ap (count x) (window_pane_ids-flat ws ∙ ap flat e ∙ sym (window_pane_ids-flat vs))

apart_places :
    {i j : ℕ} (ws : List WindowState) {v w : WindowState}
    → get_elem? ws i ≡ some v
    → get_elem? ws j ≡ some w
    → text_eq v.name w.name ≡ false
    → i ≢ j
apart_places {i} {j} ws {v} {w} hv hw d e =
    let k : some v ≡ some w = sym hv ∙ ap (get_elem? ws) e ∙ hw in
    let n : v.name ≡ w.name = ground arith in absurd (ground (arith, text_eq_iff v.name w.name))

count-moved :
    (x : TargetId) (ws : List WindowState) (a b : PaneState) {wa wb : WindowState} (i j : ℕ)
    → IsAt a.target_id i ws wa a
    → IsAt b.target_id j ws wb b
    → i ≢ j
    → count x (
        window_pane_ids (
          update_at j
            (put_pane b.target_id (placed b.split b.size a))
            (update_at i (put_pane a.target_id (placed a.split a.size b)) (swap_places a b ws))))
      ≡ count x (window_pane_ids ws)
count-moved x ws a b i j at_a at_b d =
    let moved =
      rows-update_at j b.target_id (placed b.split b.size a)
        (update_at i (put_pane a.target_id (placed a.split a.size b)) (swap_places a b ws))
      ∙ ap (change j (replace_first b.target_id a.target_id)) (
          rows-update_at i a.target_id (placed a.split a.size b) (swap_places a b ws)
          ∙ ap (change i (replace_first a.target_id b.target_id)) (ids-swap_places a b ws)) in
    ap (count x) (window_pane_ids-flat _ ∙ ap flat moved)
    ∙ count-exchange x a.target_id b.target_id i j (rows ws) at_a.1 at_b.1 d at_a.2 at_b.2
    ∙ ap (count x) (sym (window_pane_ids-flat ws))

-- A swap keeps how often each identifier is in the session.
pub count-swap_panes :
    (x i j : TargetId) (ws : List WindowState) (a b : WindowState × PaneState)
    → find_pane_in i ws ≡ some a
    → find_pane_in j ws ≡ some b
    → count x (window_pane_ids (swap_panes a b ws)) ≡ count x (window_pane_ids ws)
unfolding swap_panes
count-swap_panes x i j ws (wa, a) (wb, b) ea eb =
    let ia = (found-IsAt i ws ea).3 in
    let ib = (found-IsAt j ws eb).3 in
    let at_a =
      found-IsAt a.target_id ws (subst (λ t. find_pane_in t ws ≡ some (wa, a)) (sym ia) ea) in
    let at_b =
      found-IsAt b.target_id ws (subst (λ t. find_pane_in t ws ≡ some (wb, b)) (sym ib) eb) in
    elim (Bool-cases (text_eq wa.name wb.name)) [
      | inl e ↦ rw e (count-rows x (swap_places a b ws) ws (ids-swap_places a b ws))
      | inr e ↦
          let apart = apart_places ws at_a.0 at_b.0 e in
          rw e (
            count-moved x ws a b (pane_window a.target_id ws) (pane_window b.target_id ws) at_a at_b
              apart)
    ]
