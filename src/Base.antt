-- ===== src/Base.antt =====
-- What every component uses: the libraries' names passed on, Boolean tests, native lists, the
-- binary digits behind Go's bit operators, fixed-width words, and Go's register maps.
mod Tests
mod Lists
mod Bits
mod Word
mod Regs
mod Masks
pub use Tests.*
pub use Lists.*
pub use Bits.*
pub use Word.*
pub use Regs.*
pub use Masks.*
pub use Prim.Native.Nat.{ℕ, zero, suc, ◌+◌, ◌-◌, ◌*◌, ◌/◌, ◌%◌, ◌^◌, ◌≤◌, ◌<◌, min, max}
pub use Prim.Native.Nat.{bit_and, bit_or, bit_xor}
pub use mathlib.Core.Path.{◌≡◌, refl, sym, ap, ap₂, ◌∙◌, subst, fun_ext}
pub use mathlib.Core.Logic.{◌≢◌, ◌↔◌, ◌⊎◌, inl, inr}
pub use mathlib.Core.Bool.{Bool, true, false, true≢false, not, ◌&&◌, ◌||◌}
pub use mathlib.Core.Option.{Option, none, some}
pub use mathlib.Core.List.{List, [], ◌∷◌, ◌++◌}
pub use native.Mathlib.Omega.{arith}
