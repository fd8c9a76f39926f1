-- ===== src/Cache/Space.antt =====
-- `_validate_addr_size`: the accesses of a 32-bit address space.
use hdlskel.Base.{ℕ, ◌+◌, ◌≤◌, ◌≡◌, arith}
use hdlskel.Base.Int.{ℤ, pos, ◌+ℤ◌, ◌≤ℤ◌}
use hdlskel.Base.Result.{ok, err, value_error}
use hdlskel.Cache.{validate_addr_size, uint32_max}

-- The accesses that the function lets pass, over the integers and for numbers.
abbrev pub IsAccess : ℤ → ℤ → Type 0
IsAccess addr size =
    (pos 0 ≤ℤ addr)
    × (pos 0 ≤ℤ size)
    × (addr ≤ℤ pos uint32_max)
    × (addr +ℤ size ≤ℤ pos (uint32_max + 1))

abbrev pub InSpace : ℕ → ℕ → Type 0
InSpace a size = (a ≤ uint32_max) × (a + size ≤ uint32_max + 1)

pub validate-IsAccess : (addr size : ℤ) → IsAccess addr size → validate_addr_size addr size ≡ ok tt
unfolding validate_addr_size
validate-IsAccess addr size h = ground arith

pub validate_refuses :
    (addr size : ℤ) → ¬ IsAccess addr size → validate_addr_size addr size ≡ err value_error
unfolding validate_addr_size
validate_refuses addr size h = ground arith

pub validate-InSpace : (a size : ℕ) → InSpace a size → validate_addr_size (pos a) (pos size) ≡ ok tt
unfolding validate_addr_size
validate-InSpace a size h = ground arith
