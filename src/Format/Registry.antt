-- ===== src/Format/Registry.antt =====
-- The registry of formatters (internal/format/format.go).
use rdw.Common.{
  Bool-cases, text_eq, text_eq→eq, Text, lookup, lookup-insert, lookup-remove, ◌∙◌, is_present, ℕ,
  ◌≡◌, arith, refl, true, false, inl, inr, [], ◌∷◌, List,
}
use rdw.Format.{Formatters, is_builtin_name, register_formatter, unregister_formatter}

-- A call that changes the registry.
pub data Change : Type 0 where
  register : Text → ℕ → Change
  unregister : Text → Change

module _ (to_lower : Text → Text) where
  unfoldable pub change : Change → Formatters → Formatters
  change (register name f) fs = (register_formatter to_lower name f fs).0
  change (unregister name) fs = (unregister_formatter to_lower name fs).0

  unfoldable change_all : List Change → Formatters → Formatters
  change_all [] fs = fs
  change_all (c ∷ cs) fs = change_all cs (change c fs)

  -- A name that is no built-in one is another than a built-in one.
  other_name :
      (m n : Text) → is_builtin_name m ≡ false → is_builtin_name n ≡ true → text_eq m n ≡ false
  other_name m n hm hn = elim (Bool-cases (text_eq m n)) [
    | inr e ↦ e
    | inl e ↦ let same = text_eq→eq m n e in absurd (ground arith)
  ]

  registered :
      (name : Text) (f : ℕ) (fs : Formatters) (n : Text)
      → is_builtin_name n ≡ true
      → lookup n (register_formatter to_lower name f fs).0 ≡ lookup n fs
  unfolding register_formatter
  registered name f fs n h = elim (Bool-cases (is_builtin_name (to_lower name))) [
    | inl e ↦ rw e refl
    | inr e ↦ rw (e, lookup-insert (to_lower name) n f fs, other_name (to_lower name) n e h) refl
  ]

  unregistered :
      (name : Text) (fs : Formatters) (n : Text)
      → is_builtin_name n ≡ true
      → lookup n (unregister_formatter to_lower name fs).0 ≡ lookup n fs
  unfolding unregister_formatter
  unregistered name fs n h = elim (Bool-cases (is_builtin_name (to_lower name))) [
    | inl e ↦ rw e refl
    | inr e ↦ elim (Bool-cases (is_present (lookup (to_lower name) fs))) [
      | inl p ↦ rw (e, p, lookup-remove (to_lower name) n fs, other_name (to_lower name) n e h) refl
      | inr p ↦ rw (e, p) refl
    ]
  ]

  -- A built-in formatter stays what it is under its name, whatever is registered and unregistered.
  change_all-builtin :
      (cs : List Change) (fs : Formatters) (n : Text)
      → is_builtin_name n ≡ true
      → lookup n (change_all cs fs) ≡ lookup n fs
  unfolding change_all change
  change_all-builtin [] fs n h = refl
  change_all-builtin (register name f ∷ cs) fs n h =
      change_all-builtin cs (register_formatter to_lower name f fs).0 n h ∙ registered name f fs n h
  change_all-builtin (unregister name ∷ cs) fs n h =
      change_all-builtin cs (unregister_formatter to_lower name fs).0 n h ∙ unregistered name fs n h
