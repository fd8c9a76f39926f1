-- ===== src/Reg/Through.antt =====
-- pip/skmap/src/skmap/reg.py: a user value that is written to the device through a register.
use hdlskel.Base.{
  ℕ, ◌≤◌, ◌*◌, [], some, ◌≡◌, sym, ap, ◌∙◌, arith, true, false, List, length, take, drop,
}
use hdlskel.Base.Bytes.{length-le_bytes}
use hdlskel.Base.Int.{ℤ}
use hdlskel.Base.Result.{Result, ok, map_ok}
use hdlskel.Base.Exec.{continue, lift}
use hdlskel.Basic.Bytes.{code}
use hdlskel.Cache.Splice.{length-splice}
use hdlskel.Regio.Memory.{Memory, IsPlain}
use hdlskel.Types.{Acc}
use hdlskel.Module.Access.{Module, ModuleState, cache_addr}
use hdlskel.Module.Access
use hdlskel.Module.Through.{IsReady, read_bytes-write_bytes}
use hdlskel.Reg.Values.{
  Value, int, FloatOps, ReadValue, num, Reg, may_write, is_k, is_number, check_raw,
  check_value_limit, to_raw, from_raw, from_raw_read,
}
use hdlskel.Reg.{
  read_bytes_cached, read_bytes, read_value_cached, read_converted_cached, read_converted,
  write_cache, write_converted,
}
use hdlskel.Reg.Stored.{IsPlaced, with_bytes, read_cached-stored}
use hdlskel.Reg.RoundTrip.{raw_bytes, converted_written, read_back, Holds, is_sint}

module _ {F S : Type 0} (ops : FloatOps F) (m : Module S) (r : Reg F) (mem : Memory m.regio.device)
    (plain : IsPlain m.regio mem) where
  module _ {addr : ℕ} {s : ModuleState S} (p : IsPlaced m r addr s)
      (may : (b : List ℕ) → may_write r.acc b ≡ true) (z : ℤ) where
    abbrev b : List ℕ
    b = raw_bytes ops m r z

    abbrev stored : ModuleState S
    stored = with_bytes m r addr b s

    length-b : length b ≡ r.size
    length-b = length-le_bytes r.size (code r.size z)

    length-stored : length stored.cache ≡ length s.cache
    length-stored = length-splice s.cache (cache_addr m addr) b (omega (arith, length-b, p.inside))

    ready : IsReady m mem plain addr r.size s → IsReady m mem plain addr (length b) stored
    ready h = record {
      valid = h.valid;
      direct = h.direct;
      align_pos = h.align_pos;
      aligned = h.aligned;
      room = rw length-b (omega (arith, length-stored, h.room));
      below = rw length-b h.below;
    }

    write_cache-sent :
        (s1 : ModuleState S)
        → Access.write_bytes m addr b stored ≡ (ok tt, s1)
        → write_cache m r stored ≡ (ok tt, s1)
    unfolding write_cache
    write_cache-sent s1 e = rw (p.addr_set, read_cached-stored m r p b length-b, may b) e

  cached_stands :
      (t : ModuleState S) (addr : ℕ) (z : ℤ)
      → r.addr ≡ some addr
      → take r.size (drop (cache_addr m addr) t.cache) ≡ raw_bytes ops m r z
      → read_bytes_cached m r t ≡ (ok (raw_bytes ops m r z), t)
  unfolding read_bytes_cached Access.read_cached
  cached_stands t addr z set e = rw set (ap (λ x. (ok x, t)) e)

  by_access : (a : Acc) → ((b : List ℕ) → may_write a b ≡ true) → is_k a ≡ false
  by_access a may = ground (arith, may [])

  -- A register that reads `z` from the device.
  module _ (addr : ℕ) (z : ℤ) (t t' : ModuleState S) (addr_set : r.addr ≡ some addr)
      (not_k : is_k r.acc ≡ false) (number : is_number r.value_type.kind ≡ true)
      (wide : r.value_type.width ≤ 8 * r.size)
      (h : Holds (is_sint r.value_type.kind) r.value_type.width z)
      (fetched : Access.read_bytes m addr r.size t ≡ (ok (raw_bytes ops m r z), t'))
      (stands : read_bytes_cached m r t' ≡ (ok (raw_bytes ops m r z), t')) where
    bytes_fetched : read_bytes m r t ≡ (ok (raw_bytes ops m r z), t')
    unfolding read_bytes
    bytes_fetched = rw (not_k, addr_set) fetched

    read_fetched : read_converted m r t ≡ (map_ok num (from_raw r (int z)), t')
    unfolding read_converted read_converted_cached read_value_cached from_raw_read
    read_fetched =
        ap
          (λ (res : Result (List ℕ) × ModuleState S).
            continue res.0 (λ _. read_converted_cached m r) res.1)
          bytes_fetched
        ∙ ap
            (λ (res : Result (ReadValue F) × ModuleState S).
              continue res.0 (λ v. lift (from_raw_read r v)) res.1)
            (read_back ops m r t' z wide stands r.value_type.kind number h)

  -- `write_converted` sends a user value to the device under these conditions. The value passes its
  -- check; the conversion turns it into an integer that fits the register; and what that integer is
  -- converted back to passes the check as well. The register is of kind uint, sint or bits, any bytes
  -- may be written to it, and it has an address inside the module's cache and the bytes for its
  -- width. The module does not stay in its cache, and reaches a byte memory through a plain `Regio`;
  -- the address is aligned, and the aligned access ends inside the cache and the memory. Whatever
  -- else of the same length the module's cache then holds, `read_converted` fetches that integer and
  -- gives what it is converted back to.
  pub read_converted-write_converted :
      (s : ModuleState S) (addr : ℕ) (value : Value F) (z : ℤ)
      → IsPlaced m r addr s
      → IsReady m mem plain addr r.size s
      → is_number r.value_type.kind ≡ true
      → ((b : List ℕ) → may_write r.acc b ≡ true)
      → check_value_limit r value ≡ ok tt
      → to_raw ops r value ≡ ok (int z)
      → check_raw ops r (int z) ≡ ok tt
      → (s1 : ModuleState S) × (write_converted ops m r value s ≡ (ok tt, s1))
        × ((c : List ℕ)
            → length c ≡ length s.cache
            → (s2 : ModuleState S) × (read_converted m r (record s1 { cache = c })
                ≡ (map_ok num (from_raw r (int z)), s2)))
  unfolding write_converted
  read_converted-write_converted s addr value z p ready_s number may limit raw passes =
      let (e, h) = converted_written ops m r s addr value z p number may limit raw passes in
      let (s1, e1, set, back) =
        read_bytes-write_bytes m mem plain addr (b p may z) (stored p may z)
          (ready p may z ready_s) in
      (
        s1,
        ap
              (λ (res : Result (Unit {0}) × ModuleState S).
                continue res.0 (λ _. write_cache m r) res.1)
              e
            ∙ write_cache-sent p may z s1 e1,
        λ c len.
            let (s2, e2, stands) = back c (len ∙ sym (length-stored p may z)) in
            (
              s2,
              read_fetched addr z (record s1 { cache = c }) s2 p.addr_set (by_access r.acc may)
                  number p.wide h
                  (ap (λ n. Access.read_bytes m addr n (record s1 { cache = c }))
                      (sym (length-b p may z))
                    ∙ e2)
                  (cached_stands s2 addr z p.addr_set (
                    ap (λ n. take n (drop (cache_addr m addr) s2.cache)) (sym (length-b p may z))
                    ∙ stands)),
            ),
      )
