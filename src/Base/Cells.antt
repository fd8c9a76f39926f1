-- ===== src/Base/Cells.antt =====
-- Byte memories with holes: what stands at each address.
use Prim.Native.Nat.{ℕ, ◌-◌}
use mathlib.Core.Option.{Option, none, some}
use mathlib.Core.List.{List}
use hdlskel.Base.Tests.{leb, if◌then◌else◌}
use hdlskel.Base.Lists.{get_elem?}

-- The byte at `x` of a block of bytes that stands at `a`.
abbrev pub byte_at : ℕ → List ℕ → ℕ → Option ℕ
byte_at a bytes x = if leb a x then get_elem? bytes (x - a) else none

abbrev pub or_else : Option ℕ → Option ℕ → Option ℕ
or_else none b = b
or_else (some v) b = some v
