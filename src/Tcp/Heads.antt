-- ===== src/Tcp/Heads.antt =====
-- pip/regio/src/regio/tcp.py: packing and unpacking heads.
use hdlskel.Base.{ℕ, ◌≤◌, ltb, ◌≡◌, refl, ap, arith}
use hdlskel.Base.{List, ◌++◌, length, false, All}
use hdlskel.Base.Bytes.{le_bytes, from_le-le_bytes, IsByte}
use hdlskel.Base.Result.{ok, err, value_error, ◌>>=◌}
use hdlskel.Tcp.{
  RqstHead, RplyHead, Fields, struct_pack, struct_unpack, unpack_rqst_head, unpack_rply_head,
  pack_rqst_head, pack_rply_head, size_max, addr_max, rqst_head_size, rqst_sync, rply_sync, rqst_of,
  rply_of,
}

-- Fields that fit their places.
pub record IsWire (f : Fields) : Type 0 where
  pub sync_fits : f.sync ≤ 0xFF
  pub flag_fits : f.flag ≤ 0xFF
  pub size_fits : f.size ≤ size_max
  pub addr_fits : f.addr ≤ addr_max

-- The bytes of a head.
abbrev pub wire : Fields → List ℕ
wire f = le_bytes 1 f.sync ++ (le_bytes 1 f.flag ++ (le_bytes 2 f.size ++ le_bytes 4 f.addr))

pub struct_pack-wire : (f : Fields) → IsWire f → struct_pack f ≡ ok (wire f)
unfolding struct_pack
struct_pack-wire f h =
    let a : ltb 0xFF f.sync ≡ false = ground (arith, h.sync_fits) in
    let b : ltb 0xFF f.flag ≡ false = ground (arith, h.flag_fits) in
    let c : ltb size_max f.size ≡ false = ground (arith, h.size_fits) in
    let d : ltb addr_max f.addr ≡ false = ground (arith, h.addr_fits) in rw (a, b, c, d) refl

pub struct_unpack-wire : (f : Fields) → IsWire f → struct_unpack (wire f) ≡ ok f
unfolding struct_unpack
struct_unpack-wire f h =
    rw
      (
        from_le-le_bytes 1 f.sync (omega (arith, h.sync_fits)),
        from_le-le_bytes 1 f.flag (omega (arith, h.flag_fits)),
        from_le-le_bytes 2 f.size (omega (arith, h.size_fits)),
        from_le-le_bytes 4 f.addr (omega (arith, h.addr_fits)),
      )
      refl

pub wire-IsByte : (f : Fields) → All IsByte (wire f)
wire-IsByte f = omega arith

abbrev pub rqst_fields : RqstHead → Fields
rqst_fields h = record { sync = rqst_sync; flag = h.flag_we; size = h.size; addr = h.addr }

abbrev pub rply_fields : RplyHead → Fields
rply_fields h = record { sync = rply_sync; flag = h.flag_error; size = h.size; addr = h.addr }

pub unpack_rqst_head-wire :
    (h : RqstHead) → IsWire (rqst_fields h) → unpack_rqst_head (wire (rqst_fields h)) ≡ ok h
unfolding unpack_rqst_head
unpack_rqst_head-wire h w = ap (λ t. t >>= rqst_of) (struct_unpack-wire (rqst_fields h) w)

pub unpack_rply_head-wire :
    (h : RplyHead) → IsWire (rply_fields h) → unpack_rply_head (wire (rply_fields h)) ≡ ok h
unfolding unpack_rply_head
unpack_rply_head-wire h w = ap (λ t. t >>= rply_of) (struct_unpack-wire (rply_fields h) w)

-- A request head whose fields fit their places on the wire is packed to eight bytes, and unpacking
-- these gives the head back.
pub unpack-pack_rqst_head :
    (h : RqstHead)
    → IsWire (rqst_fields h)
    → (bs : List ℕ) × (pack_rqst_head h ≡ ok bs)
      × (length bs ≡ rqst_head_size)
      × (unpack_rqst_head bs ≡ ok h)
unfolding pack_rqst_head
unpack-pack_rqst_head h w =
    (wire (rqst_fields h), struct_pack-wire (rqst_fields h) w, refl, unpack_rqst_head-wire h w)

-- A reply head whose fields fit their places on the wire is packed to eight bytes, and unpacking
-- these gives the head back.
pub unpack-pack_rply_head :
    (h : RplyHead)
    → IsWire (rply_fields h)
    → (bs : List ℕ) × (pack_rply_head h ≡ ok bs)
      × (length bs ≡ rqst_head_size)
      × (unpack_rply_head bs ≡ ok h)
unfolding pack_rply_head
unpack-pack_rply_head h w =
    (wire (rply_fields h), struct_pack-wire (rply_fields h) w, refl, unpack_rply_head-wire h w)

-- A head of one kind is refused where the other kind is read.
pub unpack_rqst_head-rply :
    (h : RplyHead)
    → IsWire (rply_fields h)
    → unpack_rqst_head (wire (rply_fields h)) ≡ err value_error
unfolding unpack_rqst_head
unpack_rqst_head-rply h w = ap (λ t. t >>= rqst_of) (struct_unpack-wire (rply_fields h) w)
