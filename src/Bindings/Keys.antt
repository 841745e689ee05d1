-- ===== src/Bindings/Keys.antt =====
-- The keys of internal/bindings/bindings.go: overrides, and maps without a conflict.
use rdw.Common.{
  is_present, Bool-cases, Option-cases, Dict, lookup, insert, remove, IsDistinct, lookup-insert,
  lookup-remove, Text, text_eq, text_eq_iff, ◌≡◌, refl, sym, ap, ◌∙◌, inl, inr, true, Option, none,
  some, List, [], ◌∷◌, ◌++◌, arith,
}
use rdw.Bindings.{
  Action, Bindings, merge, normalise_key, Conflict, seen_after, validate_keys, validate_all,
  validate_bindings, has_key, lookup_action,
}

-- What an action is bound to after an override.
abbrev overridden : Option (List Text) → Option (List Text) → Option (List Text)
overridden none base = base
overridden (some []) base = none
overridden (some (k ∷ ks)) base = some (k ∷ ks)

-- An override replaces the action's keys, an empty one removes the action, and every other action
-- keeps its keys, whatever the order of the overrides, in which no action comes twice.
lookup-merge :
    (action : Action) (base overrides : Bindings)
    → IsDistinct overrides
    → lookup action (merge base overrides)
      ≡ overridden (lookup action overrides) (lookup action base)
unfolding merge lookup
lookup-merge action base [] d = refl
lookup-merge action base ((other, []) ∷ rest) d = ground (
  arith,
  lookup-merge action (remove other base) rest d.1,
  lookup-remove other action base,
  text_eq_iff other action,
)
lookup-merge action base ((other, k ∷ ks) ∷ rest) d = ground (
  arith,
  lookup-merge action (insert other (k ∷ ks) base) rest d.1,
  lookup-insert other action (k ∷ ks) base,
  text_eq_iff other action,
)

-- A key that was seen stays so.
stays_seen :
    (q : Text) (action : Action) (ks : List Text) (seen : Dict Action)
    → is_present (lookup q seen) ≡ true
    → is_present (lookup q (validate_keys action ks seen).1) ≡ true
unfolding validate_keys
stays_seen q action [] seen h = h
stays_seen q action (k ∷ ks) seen h =
    stays_seen q action ks
      (seen_after (normalise_key k) action (lookup (normalise_key k) seen) seen) still
  where
    still :
        is_present
          (lookup q (seen_after (normalise_key k) action (lookup (normalise_key k) seen) seen))
        ≡ true
    still = elim (Option-cases (lookup (normalise_key k) seen)) [
      | inl e ↦ rw e (ground (arith, lookup-insert (normalise_key k) q action seen))
      | inr (a, e) ↦ rw e h
    ]

-- A key of an action without a conflict is new, and is seen after it.
clean_keys :
    (q : Text) (action : Action) (ks : List Text) (seen : Dict Action)
    → (validate_keys action ks seen).0 ≡ []
    → has_key q ks ≡ true
    → (lookup q seen ≡ none) × (is_present (lookup q (validate_keys action ks seen).1) ≡ true)
unfolding validate_keys has_key
clean_keys q action [] seen c h = absurd (ground arith)
clean_keys q action (k ∷ ks) seen c h = elim (Option-cases (lookup (normalise_key k) seen)) [
  | inr (a, e) ↦
      let again : (validate_keys action (k ∷ ks) seen).0
          ≡ record { key = normalise_key k; first = a; second = action }
            ∷ (validate_keys action ks seen).0 =
        rw e refl in
      absurd (some_conflict (sym again ∙ c))
  | inl e ↦
      let after : Dict Action = insert (normalise_key k) action seen in
      let step : validate_keys action (k ∷ ks) seen ≡ validate_keys action ks after = rw e refl in
      let later : (validate_keys action ks after).0 ≡ [] = ap (λ t. t.0) (sym step) ∙ c in
      let kept = ap (λ t. is_present (lookup q t.1)) step in
      let inserted = lookup-insert (normalise_key k) q action seen in
      elim (Bool-cases (text_eq (normalise_key k) q)) [
        | inl f ↦
            let seen_now : is_present (lookup q after) ≡ true = ground (arith, inserted) in
            (
              ap (λ j. lookup j seen) (sym ((text_eq_iff (normalise_key k) q).0 f)) ∙ e,
              kept ∙ stays_seen q action ks after seen_now,
            )
        | inr f ↦
            let (fresh, found) = clean_keys q action ks after later (ground arith) in
            (ground (arith, inserted, fresh), kept ∙ found)
      ]
]
  where
    some_conflict : {x : Conflict} {xs : List Conflict} → x ∷ xs ≡ [] → ⊥
    some_conflict h = ground arith

nil_parts : {A : Type 0} (xs ys : List A) → xs ++ ys ≡ [] → (xs ≡ []) × (ys ≡ [])
nil_parts [] ys h = (refl, h)
nil_parts (x ∷ xs) ys h = absurd (ground arith)

-- In a map without a conflict the keys of its actions were not seen before.
clean_map :
    (q : Text) (action : Action) (keys : List Text) (b : Bindings) (seen : Dict Action)
    → validate_all b seen ≡ []
    → lookup action b ≡ some keys
    → has_key q keys ≡ true
    → lookup q seen ≡ none
unfolding validate_all lookup
clean_map q action keys [] seen c l h = absurd (ground arith)
clean_map q action keys ((other, ks) ∷ b) seen c l h =
    let (head, tail) = nil_parts _ _ c in
    elim (Bool-cases (text_eq other action)) [
      | inl f ↦
          let same : ks ≡ keys = ground arith in
          (clean_keys q other ks seen head (ap (has_key q) same ∙ h)).0
      | inr f ↦
          let unseen =
            clean_map q action keys b (validate_keys other ks seen).1 tail (ground arith) h in
          elim (Option-cases (lookup q seen)) [
            | inl e ↦ e
            | inr (a, e) ↦
                let still = stays_seen q other ks seen (ap is_present e) in
                absurd (ground (arith, still, unseen))
          ]
    ]

clean_lookup :
    (key : Text) (action : Action) (keys : List Text) (b : Bindings) (seen : Dict Action)
    → validate_all b seen ≡ []
    → lookup action b ≡ some keys
    → has_key (normalise_key key) keys ≡ true
    → lookup_action b key ≡ some action
unfolding validate_all lookup lookup_action
clean_lookup key action keys [] seen c l h = absurd (ground arith)
clean_lookup key action keys ((other, ks) ∷ b) seen c l h =
    let (head, tail) = nil_parts _ _ c in
    elim (Bool-cases (text_eq other action)) [
      | inl f ↦
          let same : ks ≡ keys = ground arith in
          rw (ap (has_key (normalise_key key)) same ∙ h) (ap some ((text_eq_iff other action).0 f))
      | inr f ↦
          let found : lookup action b ≡ some keys = ground arith in
          elim (Bool-cases (has_key (normalise_key key) ks)) [
            | inl g ↦
                let unseen =
                  clean_map (normalise_key key) action keys b (validate_keys other ks seen).1 tail
                    found h in
                let taken = (clean_keys (normalise_key key) other ks seen head g).1 in
                absurd (ground (arith, taken, unseen))
            | inr g ↦
                rw g (clean_lookup key action keys b (validate_keys other ks seen).1 tail found h)
          ]
    ]

-- A key of an action of the map is looked up as some action.
lookup_action-found :
    (key : Text) (action : Action) (keys : List Text) (b : Bindings)
    → lookup action b ≡ some keys
    → has_key (normalise_key key) keys ≡ true
    → is_present (lookup_action b key) ≡ true
unfolding lookup lookup_action
lookup_action-found key action keys [] l h = absurd (ground arith)
lookup_action-found key action keys ((other, ks) ∷ b) l h =
    elim (Bool-cases (has_key (normalise_key key) ks)) [
      | inl g ↦ rw g refl
      | inr g ↦ elim (Bool-cases (text_eq other action)) [
        | inl f ↦
            let same : ks ≡ keys = ground arith in
            absurd (ground (arith, g, ap (has_key (normalise_key key)) same ∙ h))
        | inr f ↦ rw g (lookup_action-found key action keys b (ground arith) h)
      ]
    ]

-- The action that a key is looked up as has the key, where no action comes twice.
lookup_action_sound :
    (key : Text) (action : Action) (b : Bindings)
    → IsDistinct b
    → lookup_action b key ≡ some action
    → (keys : List Text) × (lookup action b ≡ some keys) × (has_key (normalise_key key) keys ≡ true)
unfolding lookup lookup_action
lookup_action_sound key action [] d l = absurd (ground arith)
lookup_action_sound key action ((other, ks) ∷ b) d l =
    elim (Bool-cases (has_key (normalise_key key) ks)) [
      | inl g ↦ (ks, ground (arith, text_eq_iff other action), g)
      | inr g ↦
          let (keys, found, has) = lookup_action_sound key action b d.1 (ground arith) in
          elim (Bool-cases (text_eq other action)) [
            | inl f ↦
                let same = ap (λ a. lookup a b) ((text_eq_iff other action).0 f) in
                absurd (ground (arith, d.0, same, found))
            | inr f ↦ (keys, rw f found, has)
          ]
    ]

-- Go walks a map in a new order each time: `walk` is the order of `Validate` and `walk'` that of
-- `Lookup`, two walks of one map. Where `Validate` finds no conflict, a key that is bound to an
-- action, spaces around it aside, is looked up as that action.
pub validate_bindings-lookup_action :
    (key : Text) (action : Action) (keys : List Text) (walk walk' : Bindings)
    → IsDistinct walk'
    → ((a : Action) → lookup a walk' ≡ lookup a walk)
    → validate_bindings walk ≡ []
    → lookup action walk ≡ some keys
    → has_key (normalise_key key) keys ≡ true
    → lookup_action walk' key ≡ some action
unfolding validate_bindings
validate_bindings-lookup_action key action keys walk walk' d same c l h =
    let found = lookup_action-found key action keys walk' (same action ∙ l) h in
    elim (Option-cases (lookup_action walk' key)) [
      | inl e ↦ absurd (ground (arith, found, e))
      | inr (a, e) ↦
          let (ks, bound, has) = lookup_action_sound key a walk' d e in
          let other = clean_lookup key a ks walk [] c (sym (same a) ∙ bound) has in
          e ∙ sym other ∙ clean_lookup key action keys walk [] c l h
    ]
