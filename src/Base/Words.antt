-- ===== src/Base/Words.antt =====
-- Machine integers as native numbers. Plain `+`, `-` and `*` of the source panic on overflow when
-- the build checks for it, and wrap otherwise: `checks` says which build it is.
use Prim.Native.Nat.{ℕ, ◌+◌, ◌-◌, ◌*◌, ◌/◌, ◌%◌, ◌^◌}
use mathlib.Core.Bool.{Bool, true, false}
use mathlib.Core.Option.{Option, none, some}
use fusotao_protocol.Base.Tests.{ltb, leb, ◌==◌, if◌then◌else◌}
use fusotao_protocol.Base.Result.{Result, ok, panicked}

abbrev pub u128_mod : ℕ
u128_mod = 2 ^ 128

-- A result in range as it is; any other by the build.
abbrev pub settle : {E : Type 0} → Bool → Bool → ℕ → ℕ → Result E ℕ
settle checks true exact wrapped = ok exact
settle true false exact wrapped = panicked
settle false false exact wrapped = ok wrapped

-- `a + b`, `a - b` and `a * b` on an unsigned type of `m` values.
abbrev pub add_in : {E : Type 0} → ℕ → Bool → ℕ → ℕ → Result E ℕ
add_in m checks a b = settle checks (ltb (a + b) m) (a + b) ((a + b) % m)

abbrev pub sub_in : {E : Type 0} → ℕ → Bool → ℕ → ℕ → Result E ℕ
sub_in m checks a b = settle checks (leb b a) (a - b) ((a + m - b) % m)

abbrev pub mul_in : {E : Type 0} → ℕ → Bool → ℕ → ℕ → Result E ℕ
mul_in m checks a b = settle checks (ltb (a * b) m) (a * b) ((a * b) % m)

-- `checked_add` and `checked_sub` on `u128`.
abbrev pub checked_add : ℕ → ℕ → Option ℕ
checked_add a b = if ltb (a + b) u128_mod then some (a + b) else none

abbrev pub checked_sub : ℕ → ℕ → Option ℕ
checked_sub a b = if leb b a then some (a - b) else none

-- `saturating_add` and `saturating_mul` on an unsigned type of `m` values.
abbrev pub saturate : ℕ → ℕ → ℕ
saturate m n = if ltb n m then n else m - 1

-- `a / b` and `a % b`, which panic on a zero.
abbrev pub div_by : {E : Type 0} → ℕ → ℕ → Result E ℕ
div_by a b = if b == 0 then panicked else ok (a / b)

abbrev pub rem_by : {E : Type 0} → ℕ → ℕ → Result E ℕ
rem_by a b = if b == 0 then panicked else ok (a % b)
