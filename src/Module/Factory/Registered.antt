-- ===== src/Module/Factory/Registered.antt =====
-- pip/skmap/src/skmap/module.py: the classes that `ModuleFactory` finds.
use hdlskel.Base.{
  ℕ, ==_iff, ◌==◌, ◌&&◌, if◌then◌else◌, ◌≡◌, ◌↔◌, refl, sym, ap, ◌∙◌, arith, Bool, true, false,
  Option, none, some, List, [], ◌∷◌, ◌++◌, inl, inr, Bool-cases,
}
use hdlskel.Base.Result.{ok, err, assertion_error}
use hdlskel.Head.{Head}
use hdlskel.Module.Factory.{
  ModuleClass, Lookup, find_version, find_id, set_version, find_class, register_module,
  matching_class,
}

module _ {F A : Type 0} where
  find_version-append :
      (v w : ℕ) (c : ModuleClass F A) (vs : List (ℕ × ModuleClass F A))
      → find_version w (vs ++ ((v, c) ∷ []))
        ≡ (elim (find_version w vs) [ none ↦ if w == v then some c else none | some d ↦ some d ])
  unfolding find_version
  find_version-append v w c [] = refl
  find_version-append v w c ((u, d) ∷ vs) = elim (Bool-cases (w == u)) [
    | inl t ↦ rw t refl
    | inr t ↦ rw t (find_version-append v w c vs)
  ]

module _ {F A : Type 0} where
  at_version :
      (c : ModuleClass F A) (w : ℕ) (vs : List (ℕ × ModuleClass F A))
      → find_version c.version vs ≡ none
      → find_version w (vs ++ ((c.version, c) ∷ []))
        ≡ (if w == c.version then some c else find_version w vs)
  at_version c w vs h = find_version-append c.version w c vs ∙ elim (Bool-cases (w == c.version)) [
    | inl t ↦
        let same : find_version w vs ≡ none =
          ap (λ u. find_version u vs) ((==_iff w c.version).0 t) ∙ h in
        ground (arith, t, same)
    | inr t ↦ ground (arith, t)
  ]

module _ {A : Type 0} (same_id : A → A → Bool)
    (same_iff : (a b : A) → (same_id a b ≡ true) ↔ (a ≡ b)) where
  same_swap : (a b c : A) → same_id c b ≡ true → same_id a b ≡ same_id a c
  same_swap a b c t = ap (same_id a) (sym ((same_iff c b).0 t))

  same_other : (a b c : A) → same_id c b ≡ false → same_id a b ≡ true → same_id a c ≡ false
  same_other a b c t u = elim (Bool-cases (same_id a c)) [
    | inr e ↦ e
    | inl e ↦
        let mixed : false ≡ true = sym t ∙ ap (λ x. same_id x b) (sym ((same_iff a c).0 e)) ∙ u in
        absurd (cc)
  ]

module _ {F A : Type 0} (same_id : A → A → Bool)
    (same_iff : (a b : A) → (same_id a b ≡ true) ↔ (a ≡ b)) where
  abbrev pub found : A → ℕ → Lookup F A → Option (ModuleClass F A)
  found a w lookup = find_class same_id a w lookup

  found-cons :
      (a b : A) (w : ℕ) (vs : List (ℕ × ModuleClass F A)) (rest : Lookup F A)
      → found a w ((b, vs) ∷ rest) ≡ (if same_id a b then find_version w vs else found a w rest)
  unfolding find_class find_id
  found-cons a b w vs rest = elim (Bool-cases (same_id a b)) [
    | inl t ↦ ground (arith, t)
    | inr t ↦ ground (arith, t)
  ]

  found-nil : (a : A) (w : ℕ) → found a w [] ≡ none
  unfolding find_class find_id find_version
  found-nil a w = refl

  single_version :
      (v w : ℕ) (c : ModuleClass F A)
      → find_version w ((v, c) ∷ []) ≡ (if w == v then some c else none)
  unfolding find_version
  single_version v w c = refl

  find_class-set_version :
      (c : ModuleClass F A) (a : A) (w : ℕ) (lookup : Lookup F A)
      → found c.id c.version lookup ≡ none
      → found a w (set_version same_id c lookup)
        ≡ (if same_id a c.id && (w == c.version) then some c else found a w lookup)
  unfolding set_version
  find_class-set_version c a w [] h = ground (
    arith,
    found-cons a c.id w ((c.version, c) ∷ []) [],
    found-nil a w,
    single_version c.version w c,
  )
  find_class-set_version c a w ((b, vs) ∷ rest) h =
      let here = found-cons c.id b c.version vs rest in
      elim (Bool-cases (same_id c.id b)) [
        | inl t ↦
            let first : find_version c.version vs ≡ none = ground (arith, t, here, h) in
            rw t (
              ground (
                arith,
                same_swap same_id same_iff a b c.id t,
                found-cons a b w vs rest,
                found-cons a b w (vs ++ ((c.version, c) ∷ [])) rest,
                at_version c w vs first,
              ))
        | inr t ↦
            let later : found c.id c.version rest ≡ none = ground (arith, t, here, h) in
            rw t (
              ground (
                arith,
                same_other same_id same_iff a b c.id t,
                found-cons a b w vs rest,
                found-cons a b w vs (set_version same_id c rest),
                find_class-set_version c a w rest later,
              ))
      ]

  -- A class whose id and version are new is registered. After that, the class for a head is this one
  -- where the head has its id, version and checksum, none where it has the id and the version but
  -- another checksum, and the one that it was before for any other head. A class whose id and version
  -- are there already is refused.
  pub matching_class-register_module :
      (c : ModuleClass F A) (lookup : Lookup F A)
      → ((found c.id c.version lookup ≡ none)
          → (lookup' : Lookup F A) × (register_module same_id c lookup ≡ ok lookup')
            × ((head : Head A)
                → matching_class same_id head lookup' ≡ (
                    if same_id head.id c.id && (head.version == c.version)
                    then (if head.checksum == c.checksum then some c else none)
                    else matching_class same_id head lookup)))
        × ((d : ModuleClass F A)
            → found c.id c.version lookup ≡ some d
            → register_module same_id c lookup ≡ err assertion_error)
  unfolding register_module matching_class
  matching_class-register_module c lookup = (
    λ new. (
      set_version same_id c lookup,
      ground (arith, new),
      λ head. ground (arith, find_class-set_version c head.id head.version lookup new),
    ),
    λ d old. ground (arith, old),
  )
