-- ===== src/Reg/Vec/Asserts.antt =====
-- pip/skmap/src/skmap/reg.py: the asserts of `RegVec`.
use hdlskel.Base.{ℕ, ltb, if◌then◌else◌, Bool, false, List, [], ◌∷◌}
use hdlskel.Base.Exec.{Exec, ◌>>=◌, pure, lift}
use hdlskel.Types.{Ass, rank}
use hdlskel.Module.Access.{Module, ModuleState}
use hdlskel.Reg.Values.{is_unset, has_limit}
use hdlskel.Reg.{ass_check_read, is_logged, assert_of, read_bytes}
use hdlskel.Reg.Vec.{
  RegVec, max_bool, read_list_bool_cached, read_converted_idx_cached, read_idx_bool_cached,
  read_idx_bytes,
}
use hdlskel.Reg.Vec.Write.{range_from}

-- The larger of two asserts; of equal ones the first.
abbrev pub max_ass : Ass → Ass → Ass
max_ass a b = if ltb (rank a) (rank b) then b else a

module _ {F S : Type 0} (m : Module S) (r : RegVec F) where
  abbrev Call : Type 0 → Type 0
  Call A = Exec (ModuleState S) A

  unfoldable pub ass_check_limits : List ℕ → Ass → Call Ass
  unfolding read_converted_idx_cached ass_check_read
  ass_check_limits [] ass = pure ass
  ass_check_limits (idx ∷ rest) ass = do
    v ← read_converted_idx_cached m r idx
    v_ass ← lift (ass_check_read r.reg v)
    ass_check_limits rest (max_ass ass v_ass)

  unfoldable pub ass_check_limit_cached : Call Ass
  unfolding ass_check_limits
  ass_check_limit_cached = ass_check_limits (range_from 0 r.vec_len) Ass.unset

  -- The assert, and whether the register is added to the log.
  unfoldable pub ass_check_cached : Ass → Call (Ass × Bool)
  unfolding ass_check_limit_cached read_list_bool_cached has_limit
  ass_check_cached log_ass =
      if has_limit r.reg
      then (do ass ← ass_check_limit_cached; pure (ass, is_logged log_ass ass))
      else if is_unset r.reg.ass
      then pure (Ass.unset, false)
      else (do
        values ← read_list_bool_cached m r
        value ← lift (max_bool values)
        let ass = assert_of r.reg.ass value
        pure (ass, is_logged log_ass ass))

  unfoldable pub ass_check : Ass → Call (Ass × Bool)
  unfolding read_bytes ass_check_cached
  ass_check log_ass = do b ← read_bytes m r.reg; ass_check_cached log_ass

  unfoldable pub ass_check_cached_idx : ℕ → Ass → Call (Ass × Bool)
  unfolding read_converted_idx_cached ass_check_read read_idx_bool_cached has_limit
  ass_check_cached_idx idx log_ass =
      if has_limit r.reg
      then (do
        v ← read_converted_idx_cached m r idx
        ass ← lift (ass_check_read r.reg v)
        pure (ass, is_logged log_ass ass))
      else if is_unset r.reg.ass
      then pure (Ass.unset, false)
      else (do
        value ← read_idx_bool_cached m r idx
        let ass = assert_of r.reg.ass value
        pure (ass, is_logged log_ass ass))

  unfoldable pub ass_check_idx : ℕ → Ass → Call (Ass × Bool)
  unfolding read_idx_bytes ass_check_cached_idx
  ass_check_idx idx log_ass = do b ← read_idx_bytes m r idx; ass_check_cached_idx idx log_ass
