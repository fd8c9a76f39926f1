-- ===== src/Reg/Keeps.antt =====
-- pip/skmap/src/skmap/reg.py: the reads from the cache and the asserts.
use hdlskel.Base.{ℕ, ◌==◌, refl, List, [], ◌∷◌}
use hdlskel.Base.Result.{assertion_error}
use hdlskel.Base.Exec.{lift, check}
use hdlskel.Base.Effects.{Keeps, bind-Keeps, if-Keeps}
use hdlskel.Types.{Ass, ValueKind}
use hdlskel.Module.Access.{Module}
use hdlskel.Module.Access
use hdlskel.Reg.{
  read_bytes_cached, read_uint_cached, read_sint_cached, read_char_cached, read_bool_cached,
  read_of_kind, read_value_cached, read_converted_cached, ass_check_limit_cached, ass_check_cached,
  ass_check_read,
}
use hdlskel.Reg.Values.{Reg, has_limit, is_unset}
use hdlskel.Reg.Vec.{
  RegVec, max_bool, width, idx_elem_offset, read_list_bool_cached, read_idx_bytes_cached,
  read_idx_uint_cached, read_idx_sint_cached, read_idx_bool_cached, read_idx_char_cached,
  read_idx_of_kind, read_idx_value_cached, read_converted_idx_cached,
}
use hdlskel.Reg.Vec.Write.{range_from}
use hdlskel.Reg.Vec.Asserts.{ass_check_limits}
use hdlskel.Reg.Vec.Asserts
use hdlskel.Reg.Refusals.{read_bytes_cached-Keeps}

module _ {F S : Type 0} (m : Module S) (r : Reg F) where
  pub read_uint_cached-Keeps : Keeps (read_uint_cached m r)
  unfolding read_uint_cached
  read_uint_cached-Keeps =
      bind-Keeps (read_bytes_cached m r) _ (read_bytes_cached-Keeps m r) (λ b s. refl)

  sint-Keeps : Keeps (read_sint_cached m r)
  unfolding read_sint_cached
  sint-Keeps = bind-Keeps (read_uint_cached m r) _ read_uint_cached-Keeps (λ v s. refl)

  char-Keeps : Keeps (read_char_cached m r)
  unfolding read_char_cached
  char-Keeps =
      bind-Keeps (check (r.value_type.width == 8) assertion_error) (λ _. read_uint_cached m r)
        (λ s. refl) (λ _. read_uint_cached-Keeps)

  kind-Keeps : (k : ValueKind) → Keeps (read_of_kind m r k)
  kind-Keeps ValueKind.uint =
      bind-Keeps (read_uint_cached m r) _ read_uint_cached-Keeps (λ v s. refl)
  kind-Keeps ValueKind.sint = bind-Keeps (read_sint_cached m r) _ sint-Keeps (λ v s. refl)
  kind-Keeps ValueKind.bits =
      bind-Keeps (read_uint_cached m r) _ read_uint_cached-Keeps (λ v s. refl)
  kind-Keeps ValueKind.flag =
      bind-Keeps (read_uint_cached m r) _ read_uint_cached-Keeps (λ v s. refl)
  kind-Keeps ValueKind.char = bind-Keeps (read_char_cached m r) _ char-Keeps (λ v s. refl)

  converted-Keeps : Keeps (read_converted_cached m r)
  unfolding read_converted_cached read_value_cached
  converted-Keeps =
      bind-Keeps (read_of_kind m r r.value_type.kind) _ (kind-Keeps r.value_type.kind) (λ v s. refl)

  limit-Keeps : Keeps (ass_check_limit_cached m r)
  unfolding ass_check_limit_cached
  limit-Keeps = bind-Keeps (read_converted_cached m r) _ converted-Keeps (λ v s. refl)

  bool-Keeps : Keeps (read_bool_cached m r)
  unfolding read_bool_cached
  bool-Keeps = bind-Keeps (read_uint_cached m r) _ read_uint_cached-Keeps (λ v s. refl)

  pub ass_check_cached-Keeps : (log_ass : Ass) → Keeps (ass_check_cached m r log_ass)
  unfolding ass_check_cached
  ass_check_cached-Keeps log_ass =
      if-Keeps (has_limit r) _ _
        (bind-Keeps (ass_check_limit_cached m r) _ limit-Keeps (λ v s. refl))
        (if-Keeps (is_unset r.ass) _ _ (λ s. refl)
          (bind-Keeps (read_bool_cached m r) _ bool-Keeps (λ v s. refl)))

module _ {F S : Type 0} (m : Module S) (r : RegVec F) where
  idx_bytes-Keeps : (idx : ℕ) → Keeps (read_idx_bytes_cached m r idx)
  unfolding read_idx_bytes_cached Access.read_cached
  idx_bytes-Keeps idx = bind-Keeps (lift (idx_elem_offset m r idx)) _ (λ s. refl) (λ a s. refl)

  idx_uint-Keeps : (idx : ℕ) → Keeps (read_idx_uint_cached m r idx)
  unfolding read_idx_uint_cached
  idx_uint-Keeps idx =
      bind-Keeps (read_idx_bytes_cached m r idx) _ (idx_bytes-Keeps idx) (λ b s. refl)

  idx_kind-Keeps : (k : ValueKind) (idx : ℕ) → Keeps (read_idx_of_kind m r k idx)
  unfolding read_idx_sint_cached read_idx_bool_cached read_idx_char_cached
  idx_kind-Keeps ValueKind.uint idx =
      bind-Keeps (read_idx_uint_cached m r idx) _ (idx_uint-Keeps idx) (λ v s. refl)
  idx_kind-Keeps ValueKind.sint idx =
      bind-Keeps (read_idx_sint_cached m r idx) _
        (bind-Keeps (read_idx_uint_cached m r idx) _ (idx_uint-Keeps idx) (λ v s. refl))
        (λ v s. refl)
  idx_kind-Keeps ValueKind.bits idx =
      bind-Keeps (read_idx_uint_cached m r idx) _ (idx_uint-Keeps idx) (λ v s. refl)
  idx_kind-Keeps ValueKind.flag idx =
      bind-Keeps (check (width r == 1) assertion_error) _ (λ s. refl)
        λ _.
          bind-Keeps (read_idx_bool_cached m r idx) _
            (bind-Keeps (read_idx_uint_cached m r idx) _ (idx_uint-Keeps idx) (λ v s. refl))
            (λ v s. refl)
  idx_kind-Keeps ValueKind.char idx =
      bind-Keeps (read_idx_char_cached m r idx) _
        (bind-Keeps (check (width r == 8) assertion_error) _ (λ s. refl) (λ _. idx_uint-Keeps idx))
        (λ v s. refl)

  idx_converted-Keeps : (idx : ℕ) → Keeps (read_converted_idx_cached m r idx)
  unfolding read_converted_idx_cached read_idx_value_cached
  idx_converted-Keeps idx =
      bind-Keeps (read_idx_of_kind m r r.reg.value_type.kind idx) _
        (idx_kind-Keeps r.reg.value_type.kind idx) (λ v s. refl)

  limits-Keeps : (ids : List ℕ) (ass : Ass) → Keeps (ass_check_limits m r ids ass)
  unfolding ass_check_limits
  limits-Keeps [] ass = λ s. refl
  limits-Keeps (idx ∷ ids) ass =
      bind-Keeps (read_converted_idx_cached m r idx) _ (idx_converted-Keeps idx)
        λ v. bind-Keeps (lift (ass_check_read r.reg v)) _ (λ s. refl) (λ v_ass. limits-Keeps ids _)

  list_bool-Keeps : Keeps (read_list_bool_cached m r)
  unfolding read_list_bool_cached
  list_bool-Keeps =
      bind-Keeps (read_bytes_cached m r.reg) _ (read_bytes_cached-Keeps m r.reg) (λ b s. refl)

  pub ass_check_vec-Keeps : (log_ass : Ass) → Keeps (Asserts.ass_check_cached m r log_ass)
  unfolding Asserts.ass_check_cached Asserts.ass_check_limit_cached
  ass_check_vec-Keeps log_ass =
      if-Keeps (has_limit r.reg) _ _
        (bind-Keeps (ass_check_limits m r (range_from 0 r.vec_len) Ass.unset) _ (limits-Keeps _ _)
          (λ v s. refl))
        (if-Keeps (is_unset r.reg.ass) _ _ (λ s. refl)
          (bind-Keeps (read_list_bool_cached m r) _ list_bool-Keeps
            λ vs. bind-Keeps (lift (max_bool vs)) _ (λ s. refl) (λ v s. refl)))
