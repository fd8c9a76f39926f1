-- ===== src/Module/Factory.antt =====
-- pip/skmap/src/skmap/module.py: `ModuleFactory`. A module class is its id, version, checksum and
-- the methods that add its registers and set up its external memories. Log messages, the version checks that only log, and the
-- singleton are not modelled.
pub mod Registered
use hdlskel.Base.{
  ℕ, ◌+◌, ◌-◌, ◌*◌, ◌==◌, if◌then◌else◌, Bool, true, false, Option, none, some, List, [], ◌∷◌, ◌++◌,
}
use hdlskel.Base.Result.{Result, ok, err, assertion_error, exception, map_ok}
use hdlskel.Base.Exec.{Exec, ◌>>=◌, ◌>>◌, pure, lift}
use hdlskel.Head.{Head, size_word, parse, module_size}
use hdlskel.Module.Init.{MemEntry, Built, init}
use hdlskel.Module.Layout.{Layout, unknown_map_k, unknown_map_var}
use hdlskel.Regio.{Regio, read}

-- `SIZE_HEAD`
abbrev pub size_head : ℕ
size_head = 4 * size_word

-- The parts of `Type[Module]` that are used; the methods take the base address of the instance.
pub record ModuleClass (F A : Type 0) : Type 0 where
  pub id : A
  pub version : ℕ
  pub checksum : ℕ
  pub init_reg_map_k : ℕ → Head A → Layout F → Result (Layout F)
  pub init_reg_map_var : ℕ → Head A → Layout F → Result (Layout F)
  pub init_external_mem : List MemEntry → Result (List MemEntry)

-- The module made: its class, or an unknown one.
pub record Made (F A : Type 0) : Type 0 where
  pub module_class : Option (ModuleClass F A)
  pub head : Head A
  pub cache : List ℕ
  pub built : Built F

-- `self.lookup`: by id, then by version.
abbrev pub Lookup : Type 0 → Type 0 → Type 0
Lookup F A = List (A × List (ℕ × ModuleClass F A))

module _ {F A : Type 0} where
  unfoldable pub find_version : ℕ → List (ℕ × ModuleClass F A) → Option (ModuleClass F A)
  find_version v [] = none
  find_version v ((w, c) ∷ rest) = if v == w then some c else find_version v rest

module _ {F A : Type 0} (same_id : A → A → Bool) where
  unfoldable pub find_id : A → Lookup F A → Option (List (ℕ × ModuleClass F A))
  find_id a [] = none
  find_id a ((b, versions) ∷ rest) = if same_id a b then some versions else find_id a rest

  -- `lookup[id][version] = module_class`, where the id is there or is added.
  unfoldable pub set_version : ModuleClass F A → Lookup F A → Lookup F A
  set_version c [] = (c.id, (c.version, c) ∷ []) ∷ []
  set_version c ((b, versions) ∷ rest) =
      if same_id c.id b
      then (b, versions ++ ((c.version, c) ∷ [])) ∷ rest
      else (b, versions) ∷ set_version c rest

  abbrev pub versions_of : A → Lookup F A → List (ℕ × ModuleClass F A)
  versions_of a lookup = elim (find_id a lookup) [ none ↦ [] | some versions ↦ versions ]

  unfoldable pub find_class : A → ℕ → Lookup F A → Option (ModuleClass F A)
  unfolding find_version find_id
  find_class a v lookup = find_version v (versions_of a lookup)

  unfoldable pub register_module : ModuleClass F A → Lookup F A → Result (Lookup F A)
  unfolding find_class set_version
  register_module c lookup = elim (find_class c.id c.version lookup) [
    | none ↦ ok (set_version c lookup)
    | some other ↦ err assertion_error
  ]

  -- The class that `make_module` uses: one of that id and version, with the same checksum.
  unfoldable pub matching_class : Head A → Lookup F A → Option (ModuleClass F A)
  unfolding find_class
  matching_class head lookup = elim (find_class head.id head.version lookup) [
    | none ↦ none
    | some c ↦ if head.checksum == c.checksum then some c else none
  ]

  -- The instance of a class, or of `ModuleUnkowen` where that is allowed.
  unfoldable pub instantiate :
      ℕ → Head A → List ℕ → ℕ → Bool → Option (ModuleClass F A) → Result (Made F A)
  unfolding init unknown_map_k unknown_map_var
  instantiate addr head bytes max_cache allow_unknown (some c) =
      map_ok (λ b. record { module_class = some c; head = head; cache = bytes; built = b })
        (init (c.init_reg_map_k addr head) (c.init_reg_map_var addr head) c.init_external_mem addr
          head bytes max_cache)
  instantiate addr head bytes max_cache false none = err exception
  instantiate addr head bytes max_cache true none =
      map_ok (λ b. record { module_class = none; head = head; cache = bytes; built = b })
        (init (unknown_map_k addr head.len_k) (unknown_map_var addr head.len_var) ok addr head bytes
          max_cache)

  module _ {S : Type 0} (decode : List ℕ → Result A) (regio : Regio S) (lookup : Lookup F A) where
    unfoldable pub make_module : ℕ → Bool → ℕ → Exec S (Made F A)
    unfolding parse matching_class instantiate module_size read
    make_module addr allow_unknown max_cache = do
      head_data ← read regio addr size_head
      head ← lift (parse decode head_data)
      rest ← read regio (addr + size_head) (module_size head - size_head)
      lift (
          instantiate addr head (head_data ++ rest) max_cache allow_unknown
            (matching_class head lookup))
