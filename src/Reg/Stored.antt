-- ===== src/Reg/Stored.antt =====
-- pip/skmap/src/skmap/reg.py: what a write of a register leaves in the module's cache.
use hdlskel.Base.{
  ℕ, ◌+◌, ◌-◌, ◌*◌, ◌%◌, ◌^◌, ◌≤◌, ◌<◌, ◌==◌, ◌≡◌, refl, sym, ap, ◌∙◌, arith, true, some, List,
  length, get_elem?, ◌⊎◌, inl, inr, Bool-cases, get_elem?-none,
}
use hdlskel.Base.Bytes.{}
use hdlskel.Base.Powers.{pow_256, pow_256_split, pow_pos, negated_mod}
use hdlskel.Base.Result.{ok}
use hdlskel.Cache.{splice}
use hdlskel.Cache.Splice.{get_elem?-stored, slice-splice}
use hdlskel.Module.Access.{Module, ModuleState, cache_addr}
use hdlskel.Module.Access
use hdlskel.Reg.Values.{Reg, mask_width, may_write}
use hdlskel.Reg.{read_bytes_cached, write_bytes_cached}
use native.Mathlib.Nat.{mod-eq_of_lt}

-- The bits that a value of `width` bits keeps in `size` bytes.
module _ (size width : ℕ) (wide : width ≤ 8 * size) where
  pub mask_width-mod : (x : ℕ) → x < 256 ^ size → mask_width size width x ≡ x % 2 ^ width
  unfolding mask_width
  mask_width-mod x h = elim (Bool-cases (width == size * 8)) [
    | inl e ↦
        let full : 256 ^ size ≡ 2 ^ width = pow_256 size ∙ ap (λ t. 2 ^ t) (ground arith) in
        let small : x % 2 ^ width ≡ x = mod-eq_of_lt (omega arith) in rw e (sym small)
    | inr e ↦ rw e refl
  ]

  pub fits_size : (v : ℕ) → v < 2 ^ width → v < 256 ^ size
  fits_size v h = grind (arith, pow_256_split size width wide, pow_pos (8 * size - width))

  pub mask_width-small : (v : ℕ) → v < 2 ^ width → mask_width size width v ≡ v
  mask_width-small v h = mask_width-mod v (fits_size v h) ∙ mod-eq_of_lt h

  -- A negative value, in two's complement on all the bytes.
  pub mask_width-negated :
      (v : ℕ) → 0 < v → v ≤ 2 ^ width → mask_width size width (256 ^ size - v) ≡ 2 ^ width - v
  mask_width-negated v p h =
      mask_width-mod (256 ^ size - v) (omega (arith, pow_pos_256))
      ∙ negated_mod size width v wide p h
      ∙ mod-eq_of_lt (omega (arith, pow_pos width))
    where
      pow_pos_256 : 0 < 256 ^ size
      pow_pos_256 = fits_size 0 (pow_pos width)

module _ {F S : Type 0} (m : Module S) (r : Reg F) where
  -- The register has its address, is as wide as its value, and lies inside the cache.
  pub record IsPlaced (addr : ℕ) (s : ModuleState S) : Type 0 where
    pub addr_set : r.addr ≡ some addr
    pub wide : r.value_type.width ≤ 8 * r.size
    pub inside : cache_addr m addr + r.size ≤ length s.cache

  -- The state after `b` was stored at `addr`.
  abbrev pub with_bytes : ℕ → List ℕ → ModuleState S → ModuleState S
  with_bytes addr b s = record s { cache = splice s.cache (cache_addr m addr) b }

  module _ {addr : ℕ} {s : ModuleState S} (p : IsPlaced addr s) where
    pub write_bytes_cached-stored :
        (b : List ℕ)
        → may_write r.acc b ≡ true
        → length b ≡ r.size
        → write_bytes_cached m r b s ≡ (ok tt, with_bytes addr b s)
    unfolding write_bytes_cached Access.write_bytes_cached
    write_bytes_cached-stored b may len =
        let t : (length b == r.size) ≡ true = ground arith in rw (p.addr_set, may, t) refl

    pub read_cached-stored :
        (b : List ℕ)
        → length b ≡ r.size
        → Access.read_cached m addr r.size (with_bytes addr b s) ≡ (ok b, with_bytes addr b s)
    unfolding Access.read_cached
    read_cached-stored b len = rw (sym len) (
        ap (λ t. (ok t, with_bytes addr b s))
          (slice-splice s.cache (cache_addr m addr) b (omega (arith, p.inside))))

    pub read_bytes_cached-stored :
        (b : List ℕ)
        → length b ≡ r.size
        → read_bytes_cached m r (with_bytes addr b s) ≡ (ok b, with_bytes addr b s)
    unfolding read_bytes_cached
    read_bytes_cached-stored b len = rw p.addr_set (read_cached-stored b len)

    -- No other address of the cache has changed.
    pub other_bytes :
        (b : List ℕ) (x : ℕ)
        → length b ≡ r.size
        → (x < cache_addr m addr) ⊎ (cache_addr m addr + r.size ≤ x)
        → get_elem? (with_bytes addr b s).cache x ≡ get_elem? s.cache x
    other_bytes b x len h =
        get_elem?-stored s.cache (cache_addr m addr) b x (omega (arith, p.inside))
        ∙ ground (arith, h, get_elem?-none b (x - cache_addr m addr))
