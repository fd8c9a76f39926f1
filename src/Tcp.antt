-- ===== src/Tcp.antt =====
-- pip/regio/src/regio/tcp.py: the heads of requests and replies on the wire. A flag is the byte
-- that is on the wire: `unpack` gives the integer, and `pack` writes True as 1.
pub mod Heads
pub mod Server
pub mod Segments
pub mod Client
pub mod Loopback
pub mod Exchange
pub mod Remote
pub mod Single
mod Tests
use hdlskel.Base.{
  ℕ, ◌+◌, ◌*◌, ltb, ◌==◌, if◌then◌else◌, not, ◌||◌, Bool, List, ◌++◌, length, take, drop,
}
use hdlskel.Base.Bytes.{le_bytes, from_le}
use hdlskel.Base.Result.{Result, ok, err, struct_error, value_error, ◌>>=◌}

abbrev pub rqst_sync : ℕ
rqst_sync = 0x9A

abbrev pub rply_sync : ℕ
rply_sync = 0x9B

-- `RQST_HEAD_SIZE`, which equals `RPLY_HEAD_SIZE`.
abbrev pub rqst_head_size : ℕ
rqst_head_size = 8

abbrev pub size_max : ℕ
size_max = 0xFFFF

abbrev pub addr_max : ℕ
addr_max = 0xFFFF_FFFF

pub record RqstHead : Type 0 where
  pub flag_we : ℕ
  pub size : ℕ
  pub addr : ℕ

pub record RplyHead : Type 0 where
  pub flag_error : ℕ
  pub size : ℕ
  pub addr : ℕ

-- `has_payload` of a request is its flag as it is, so `int(...)` of it may be above 1.
abbrev pub rqst_payload_size : RqstHead → ℕ
rqst_payload_size h = h.flag_we * h.size

abbrev pub rply_has_payload : RplyHead → Bool
rply_has_payload h = h.flag_error == 0

abbrev pub rply_payload_size : RplyHead → ℕ
rply_payload_size h = if rply_has_payload h then h.size else 0

-- The four fields of the format "<BBHI".
pub record Fields : Type 0 where
  pub sync : ℕ
  pub flag : ℕ
  pub size : ℕ
  pub addr : ℕ

-- `struct.pack(fmt, ...)`
unfoldable pub struct_pack : Fields → Result (List ℕ)
struct_pack f =
    if ltb 0xFF f.sync || (ltb 0xFF f.flag || (ltb size_max f.size || ltb addr_max f.addr))
    then err struct_error
    else ok (le_bytes 1 f.sync ++ (le_bytes 1 f.flag ++ (le_bytes 2 f.size ++ le_bytes 4 f.addr)))

-- `struct.unpack(fmt, data)`
unfoldable pub struct_unpack : List ℕ → Result Fields
struct_unpack bytes =
    if length bytes == rqst_head_size
    then ok (record {
      sync = from_le (take 1 bytes);
      flag = from_le (take 1 (drop 1 bytes));
      size = from_le (take 2 (drop 2 bytes));
      addr = from_le (take 4 (drop 4 bytes));
    })
    else err struct_error

-- The fields, if the first is the sync byte.
abbrev pub rqst_of : Fields → Result RqstHead
rqst_of f =
    if not (f.sync == rqst_sync)
    then err value_error
    else ok (record { flag_we = f.flag; size = f.size; addr = f.addr })

unfoldable pub unpack_rqst_head : List ℕ → Result RqstHead
unfolding struct_unpack
unpack_rqst_head bytes = struct_unpack bytes >>= rqst_of

-- The fields, if the first is the sync byte.
abbrev pub rply_of : Fields → Result RplyHead
rply_of f =
    if not (f.sync == rply_sync)
    then err value_error
    else ok (record { flag_error = f.flag; size = f.size; addr = f.addr })

unfoldable pub unpack_rply_head : List ℕ → Result RplyHead
unfolding struct_unpack
unpack_rply_head bytes = struct_unpack bytes >>= rply_of

unfoldable pub pack_rqst_head : RqstHead → Result (List ℕ)
unfolding struct_pack
pack_rqst_head h =
    struct_pack (record { sync = rqst_sync; flag = h.flag_we; size = h.size; addr = h.addr })

unfoldable pub pack_rply_head : RplyHead → Result (List ℕ)
unfolding struct_pack
pack_rply_head h =
    struct_pack (record { sync = rply_sync; flag = h.flag_error; size = h.size; addr = h.addr })
