-- ===== src/Module/Init/Memories.antt =====
-- pip/skmap/src/skmap/module.py: the external memories that the sub-header of a module names.
use hdlskel.Base.{
  ℕ, zero, suc, ◌+◌, ◌*◌, ltb, leb, ◌==◌, if◌then◌else◌, ◌≡◌, refl, sym, ap, arith, Bool, true,
  false, none, ◌||◌, All, All-append, List, [], ◌∷◌, ◌++◌, Bool-cases, inl, inr,
}
use hdlskel.Base.Result.{Exn, Result, ok, err, assertion_error, exception, traverse, ◌>>=◌}
use hdlskel.Head.{size_word, at}
use hdlskel.Types.{Acc}
use hdlskel.Module.Init.{
  MemEntry, SubHead, acc_of, word_at, cast_to_derived, read_mem_entry, read_align, scan_sub_head,
}
use mathlib.Core.Path.{subst}

-- Whether one of the memories has a cache.
abbrev pub has_cached : List MemEntry → Bool
has_cached [] = false
has_cached (e ∷ es) = e.cached || has_cached es

pub cast_uncached :
    (es : List MemEntry) → has_cached es ≡ false → traverse cast_to_derived es ≡ ok es
unfolding cast_to_derived
cast_uncached [] h = refl
cast_uncached (e ∷ es) h =
    let first : e.cached ≡ false = ground arith in
    let others : has_cached es ≡ false = ground arith in rw (first, cast_uncached es others) refl

-- Without a value type.
abbrev pub Untyped : List MemEntry → Type 0
Untyped = All (λ e. e.value_type ≡ none)

pub cast_cached :
    (es : List MemEntry)
    → Untyped es
    → has_cached es ≡ true
    → traverse cast_to_derived es ≡ err assertion_error
unfolding cast_to_derived
cast_cached [] u h = absurd (cc)
cast_cached (e ∷ es) (t, u) h = elim (Bool-cases e.cached) [
  | inl c ↦ rw (c, t) refl
  | inr c ↦ rw (c, cast_cached es u (rw c at h)) refl
]

Result-bind-inverse :
    {A B : Type 0} (r : Result A) (k : A → Result B) (b : B)
    → (r >>= k) ≡ ok b
    → (a : A) × (r ≡ ok a) × (k a ≡ ok b)
Result-bind-inverse (ok a) k b e = (a, refl, e)
Result-bind-inverse (err x) k b e = absurd (cc)

err_ne_ok : {A B : Type 0} {x : Exn} {b : B} → err x ≡ ok b → A
err_ne_ok e = absurd (cc)

same_head :
    (h sub : SubHead) → Untyped h.arr_external_mem → ok h ≡ ok sub → Untyped sub.arr_external_mem
same_head h sub u e = let q : h ≡ sub = cc in subst (λ t. Untyped t.arr_external_mem) q u

module _ (module_data : List ℕ) (max_cache sub_end : ℕ) where
  abbrev entry : ℕ → Acc → MemEntry
  entry idx acc = record {
    base_addr = word_at module_data (idx + 4);
    size = word_at module_data (idx + 8);
    acc = acc;
    cached = leb (word_at module_data (idx + 8)) max_cache;
    value_type = none;
    is_mem_vec = false;
  }

  read_mem_entry-Untyped :
      (idx : ℕ) (e : MemEntry)
      → read_mem_entry module_data max_cache idx ≡ ok e
      → e.value_type ≡ none
  unfolding read_mem_entry
  read_mem_entry-Untyped idx e h =
      let (n, _, h1) =
        Result-bind-inverse (at module_data (idx + 1)) (λ n. acc_of n >>= λ acc. ok (entry idx acc))
          e h in
      let (acc, _, h2) = Result-bind-inverse (acc_of n) (λ acc. ok (entry idx acc)) e h1 in
      let q : entry idx acc ≡ e = cc in sym (ap (λ t. t.value_type) q)

  -- The scan gives no memory a value type.
  pub scan-Untyped :
      (fuel idx : ℕ) (h sub : SubHead)
      → Untyped h.arr_external_mem
      → scan_sub_head fuel module_data max_cache idx sub_end h ≡ ok sub
      → Untyped sub.arr_external_mem
  unfolding scan_sub_head
  scan-Untyped zero idx h sub u e = elim (Bool-cases (ltb idx sub_end)) [
    | inl t ↦ err_ne_ok (rw t at e)
    | inr t ↦ same_head h sub u (rw t at e)
  ]
  scan-Untyped (suc fuel) idx h sub u e = elim (Bool-cases (ltb idx sub_end)) [
    | inr t ↦ same_head h sub u (rw t at e)
    | inl t ↦
        let align = λ (a : ℕ).
          scan_sub_head fuel module_data max_cache (idx + size_word) sub_end
            (record h { sub_byte_align = a }) in
        let mem = λ (m : MemEntry).
          scan_sub_head fuel module_data max_cache (idx + 3 * size_word) sub_end
            (record h { arr_external_mem = h.arr_external_mem ++ (m ∷ []) }) in
        let branch = λ (sub_id : ℕ).
          if sub_id == 0x00
          then ok h
          else if sub_id == 0x1A
          then read_align module_data idx >>= align
          else if sub_id == 0x3B
          then read_mem_entry module_data max_cache idx >>= mem
          else err exception in
        let (sub_id, _, e1) = Result-bind-inverse (at module_data idx) branch sub (rw t at e) in
        elim (Bool-cases (sub_id == 0x00)) [
          | inl t0 ↦ same_head h sub u (rw t0 at e1)
          | inr t0 ↦ elim (Bool-cases (sub_id == 0x1A)) [
            | inl t1 ↦
                let (a, _, e2) =
                  Result-bind-inverse (read_align module_data idx) align sub (rw (t0, t1) at e1) in
                scan-Untyped fuel (idx + size_word) (record h { sub_byte_align = a }) sub u e2
            | inr t1 ↦ elim (Bool-cases (sub_id == 0x3B)) [
              | inl t2 ↦
                  let (m, em, e2) =
                    Result-bind-inverse (read_mem_entry module_data max_cache idx) mem sub
                      (rw (t0, t1, t2) at e1) in
                  scan-Untyped fuel (idx + 3 * size_word)
                    (record h { arr_external_mem = h.arr_external_mem ++ (m ∷ []) }) sub
                    (All-append (λ t. t.value_type ≡ none) h.arr_external_mem (m ∷ []) u
                      (read_mem_entry-Untyped idx m em, tt))
                    e2
              | inr t2 ↦ err_ne_ok (rw (t0, t1, t2) at e1)
            ]
          ]
        ]
  ]
