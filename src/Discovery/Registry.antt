-- ===== src/Discovery/Registry.antt =====
-- The entries of the registry of internal/discovery/discovery.go, and the port that is resolved.
use mathlib.Core.List.{append-nil}
use rdw.Common.{
  ◌==◌, if◌then◌else◌, Bool-cases, length, ltb_ℤ, ℤ, pos, ok, err, ◌≡◌, refl, sym, ap, ◌∙◌, ◌↔◌,
  inl, inr, Bool, true, false, List, [], ◌∷◌, ◌++◌, arith,
}
use rdw.Discovery.{
  ServerInfo, default_port, RegistryFile, not_written, eqb_ℤ, read_registry, write_registry,
  without_port, register_server, deregister_server, resolve,
}

-- The entries of a port.
at_port : ℤ → List ServerInfo → List ServerInfo
at_port port [] = []
at_port port (s ∷ ss) = let rest = at_port port ss in if eqb_ℤ s.port port then s ∷ rest else rest

eqb_ℤ_sound : (a b : ℤ) → eqb_ℤ a b ≡ true → a ≡ b
eqb_ℤ_sound a b h = ground arith

differs : (a p q : ℤ) → eqb_ℤ a p ≡ false → eqb_ℤ a q ≡ true → eqb_ℤ p q ≡ false
differs a p q e g = ground arith

at_port-without :
    (p q : ℤ) (ss : List ServerInfo)
    → at_port q (without_port p ss) ≡ (if eqb_ℤ p q then [] else at_port q ss)
unfolding at_port
at_port-without p q [] = ground arith
at_port-without p q (s ∷ ss) = elim (Bool-cases (eqb_ℤ s.port p)) [
  | inl e ↦ elim (Bool-cases (eqb_ℤ p q)) [
    | inl f ↦ rw (e, f) (at_port-without p q ss ∙ (rw f refl))
    | inr f ↦
        let g : eqb_ℤ s.port q ≡ false = ap (λ t. eqb_ℤ t q) (eqb_ℤ_sound s.port p e) ∙ f in
        rw (e, g, f) (at_port-without p q ss ∙ (rw f refl))
  ]
  | inr e ↦ elim (Bool-cases (eqb_ℤ s.port q)) [
    | inl g ↦
        let f : eqb_ℤ p q ≡ false = differs s.port p q e g in
        rw (e, g, f) (ap (λ t. s ∷ t) (at_port-without p q ss ∙ (rw f refl)))
    | inr g ↦ rw (e, g) (at_port-without p q ss)
  ]
]

at_port-end :
    (q : ℤ) (ss : List ServerInfo) (info : ServerInfo)
    → at_port q (ss ++ info ∷ []) ≡ at_port q ss ++ (if eqb_ℤ info.port q then info ∷ [] else [])
unfolding at_port
at_port-end q [] info = refl
at_port-end q (s ∷ ss) info = ground (arith, at_port-end q ss info)

-- Where the file can be written, a registered server is then the only entry of its port, a deregistered
-- port has none, and the entries of every other port are as before. Where it cannot, both report
-- that and leave the file as it is.
register_server-at_port :
    (info : ServerInfo) (q : ℤ) (file : RegistryFile)
    → (at_port q (read_registry (register_server true info file).0)
        ≡ (if eqb_ℤ info.port q then info ∷ [] else at_port q (read_registry file)))
      × (at_port q (read_registry (deregister_server true info.port file).0)
          ≡ (if eqb_ℤ info.port q then [] else at_port q (read_registry file)))
      × (register_server false info file ≡ (file, err not_written))
      × (deregister_server false info.port file ≡ (file, err not_written))
unfolding register_server deregister_server write_registry
register_server-at_port info q file =
    let rest = at_port-without info.port q (read_registry file) in
    let last = at_port-end q (without_port info.port (read_registry file)) info in
    unfold read_registry in
    (
      elim (Bool-cases (eqb_ℤ info.port q)) [
        | inl e ↦ last ∙ (rw (rest, e) refl)
        | inr e ↦ last ∙ (rw (rest, e) (append-nil (at_port q (read_registry file))))
      ],
      rest,
      refl,
      refl,
    )

-- A port is resolved exactly when its server answers, and it is the one that was asked for, or the
-- default port where none was; a port is never taken from the registry.
resolve-probed :
    (probe : ℤ → Bool) (port found : ℤ) (file : RegistryFile)
    → (resolve probe port file ≡ ok found)
      ↔ ((probe found ≡ true) × (found ≡ (if ltb_ℤ (pos 0) port then port else default_port)))
unfolding resolve
resolve-probed probe port found file = elim (Bool-cases (ltb_ℤ (pos 0) port)) [
  | inl e ↦ elim (Bool-cases (probe port)) [
    | inl f ↦
        rw (e, f)
          (
            λ h. let same : port ≡ found = ground arith in (ap probe (sym same) ∙ f, sym same),
            λ h. ap ok (sym h.1),
          )
    | inr f ↦
        rw (e, f)
          (λ h. absurd (ground arith), λ h. absurd (false_true (sym f ∙ ap probe (sym h.1) ∙ h.0)))
  ]
  | inr e ↦ elim (Bool-cases (probe default_port)) [
    | inl f ↦
        rw (e, f)
          (
            λ h.
                let same : default_port ≡ found = ground arith in
                (ap probe (sym same) ∙ f, sym same),
            λ h. ap ok (sym h.1),
          )
    | inr f ↦ elim (Bool-cases (length (read_registry file) == 0)) [
      | inl g ↦
          rw (e, f, g)
            (
              λ h. absurd (ground arith),
              λ h. absurd (false_true (sym f ∙ ap probe (sym h.1) ∙ h.0)),
            )
      | inr g ↦
          rw (e, f, g)
            (
              λ h. absurd (ground arith),
              λ h. absurd (false_true (sym f ∙ ap probe (sym h.1) ∙ h.0)),
            )
    ]
  ]
]
  where
    false_true : false ≡ true → ⊥
    false_true h = ground arith
