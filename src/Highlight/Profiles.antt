-- ===== src/Highlight/Profiles.antt =====
-- What the store of internal/highlight/highlight.go holds.
use rdw.Common.{
  is_present, Bool-cases, All, lookup, AllEntries, insert-AllEntries, remove-AllEntries,
  Result-cases, ok, Text, is_empty, ℕ, suc, ◌≡◌, refl, ◌≢◌, inl, inr, Bool, true, List, [], ◌∷◌,
  arith,
}
use rdw.Highlight.{Rule, Profile, ProfileStore, check_rules, add_profile, remove_profile}

module _ (compiles : Text → Bool) where
  abbrev IsRule : Rule → Type 0
  IsRule r = (compiles r.pattern ≡ true) × (r.css_class ≢ [])

  -- A profile under its own, non-empty name, whose patterns compile and whose classes are not empty.
  pub record IsProfile (name : Text) (p : Profile) : Type 0 where
    pub own_name : p.name ≡ name
    pub named : p.name ≢ []
    pub rules_compile : All IsRule p.rules

  check_rules-ok : (i : ℕ) (rs : List Rule) → check_rules compiles i rs ≡ ok tt → All IsRule rs
  unfolding check_rules
  check_rules-ok i [] h = tt
  check_rules-ok i (r ∷ rs) h = elim (Bool-cases (compiles r.pattern)) [
    | inl e ↦ ((e, λ z. ground (arith, h, e, z)), check_rules-ok (suc i) rs (ground arith))
    | inr e ↦ absurd (ground arith)
  ]

  -- Adding or removing a profile keeps every stored profile under its own, non-empty name, with
  -- patterns that compile and classes that are not empty, whether it succeeds or is refused.
  add_profile-IsProfile :
      (p : Profile) (name : Text) (s : ProfileStore)
      → AllEntries IsProfile s
      → AllEntries IsProfile (add_profile compiles p s).0
        × AllEntries IsProfile (remove_profile name s).0
  unfolding add_profile remove_profile
  add_profile-IsProfile p name s v = (added, removed)
    where
      removed : AllEntries IsProfile (remove_profile name s).0
      removed = elim (Bool-cases (is_present (lookup name s))) [
        | inl e ↦ rw e (remove-AllEntries IsProfile name s v)
        | inr e ↦ rw e v
      ]

      added : AllEntries IsProfile (add_profile compiles p s).0
      added = elim (Bool-cases (is_empty p.name)) [
        | inl e ↦ rw e v
        | inr e ↦ elim (Result-cases (check_rules compiles 0 p.rules)) [
          | inr (x, f) ↦ rw (e, f) v
          | inl (tt, f) ↦
              rw (e, f)
                (insert-AllEntries IsProfile p.name p s
                  (record {
                    own_name = refl;
                    named = λ z. ground (arith, e, z);
                    rules_compile = check_rules-ok 0 p.rules f;
                  })
                  v)
        ]
      ]
