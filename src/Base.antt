-- ===== src/Base.antt =====
-- What every module shares: the libraries' names, the Boolean tests, lists measured by native
-- numbers, and the outcomes of C++ code (a value, an exception, or undefined behaviour).
mod Tests
mod Lists
mod Effects
pub mod Int
pub use Tests.*
pub use Lists.*
unfoldable pub use Lists.{bytes_eq}
pub use Effects.*
pub use Prim.Native.Nat.{ℕ, zero, suc, ◌+◌, ◌-◌, ◌*◌, ◌/◌, ◌%◌, ◌^◌, ◌≤◌, ◌<◌, min}
pub use mathlib.Core.Path.{◌≡◌, refl, sym, ap, ◌∙◌, fun_ext, subst, subst⁻¹}
pub use mathlib.Core.Logic.{◌≢◌, ◌↔◌, ◌⊎◌, inl, inr}
pub use mathlib.Core.Bool.{Bool, true, false, not, ◌&&◌, ◌||◌}
pub use mathlib.Core.Option.{Option, none, some}
pub use mathlib.Core.List.{List, [], ◌∷◌, ◌++◌, map, append-nil, append_assoc}
pub use native.Mathlib.Omega.{arith}
