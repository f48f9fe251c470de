-- ===== src/Base/Regs.antt =====
-- A Go `map[uint32]uint32` of registers: a partial function, so that a missing key shows.
use Prim.Native.Nat.{ℕ}
use mathlib.Core.Option.{Option, none, some}
use casio_cg.Base.Tests.{◌==◌, if◌then◌else◌}

abbrev pub RegMap : Type 0
RegMap = ℕ → Option ℕ

abbrev pub no_regs : RegMap
no_regs k = none

-- A register that is missing reads as 0.
abbrev pub value : Option ℕ → ℕ
value none = 0
value (some v) = v

-- `m[k]`
abbrev pub reg : RegMap → ℕ → ℕ
reg m k = value (m k)

-- `m[k] = v`
abbrev pub put : RegMap → ℕ → ℕ → RegMap
put m k v j = if j == k then some v else m j
