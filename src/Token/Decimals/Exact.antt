-- ===== src/Token/Decimals/Exact.antt =====
-- What `unify_decimals` computes, in closed form, and where the scaling overflows.
use native.Mathlib.Nat.{
  div-div-eq-div-mul, pow-zero, pow-succ', mul_assoc, one-le-pow, add-mul-mod_self_right,
  div-add-mod,
}
use fusotao_protocol.Base.{
  ℕ, zero, suc, ◌+◌, ◌-◌, ◌*◌, ◌/◌, ◌%◌, ◌^◌, ◌<◌, ◌≤◌, ◌≡◌, refl, sym, ap, ◌∙◌, Bool, true, false,
  arith, inl, inr, Bool-cases, ltb, if◌then◌else◌,
}
use fusotao_protocol.Base.Words.{u128_mod, mul_in, settle}
use fusotao_protocol.Base.Result.{Result, ok}
use fusotao_protocol.Token.Types.{Error}
use fusotao_protocol.Support.{standard_decimals}
use fusotao_protocol.Token.Decimals.{scale_down, scale_up, unify_decimals}

scale_down-eq : (k a : ℕ) → scale_down k a ≡ a / 10 ^ k
unfolding scale_down
scale_down-eq zero a = rw pow-zero (omega arith)
scale_down-eq (suc k) a =
    rw (scale_down-eq k (a / 10), div-div-eq-div-mul a 10 (10 ^ k), ← pow-succ' 10 k)

-- What a loop of multiplications leaves, by the build.
abbrev pub scaled : Bool → ℕ → Result Error ℕ
scaled checks exact = settle checks (ltb exact u128_mod) exact (exact % u128_mod)

mod-mul : (x y m : ℕ) → x % m * y % m ≡ x * y % m
mod-mul x y m =
    sym (add-mul-mod_self_right (x % m * y) (x / m * y) m)
    ∙ ap (λ t. t % m) (split_product (div-add-mod x m))
  where
    split_product : m * (x / m) + x % m ≡ x → x % m * y + x / m * y * m ≡ x * y
    split_product e = omega (arith, ap (λ (t : ℕ). t * y) e)

le-scaled : (k a : ℕ) → a ≤ a * 10 ^ k
le-scaled k a = grind (arith, one-le-pow k 10 (omega arith))

scaled-overflow : (k a : ℕ) → ltb (a * 10) u128_mod ≡ false → ltb (a * 10 ^ suc k) u128_mod ≡ false
scaled-overflow k a h = rw (pow-succ' 10 k, ← mul_assoc) (ground (arith, le-scaled k (a * 10)))

mul_in-wrapping : (a b : ℕ) → mul_in {E = Error} u128_mod false a b ≡ ok (a * b % u128_mod)
mul_in-wrapping a b = ground arith

scale_up-checked : (k a : ℕ) → a < u128_mod → scale_up true k a ≡ scaled true (a * 10 ^ k)
unfolding scale_up
scale_up-checked zero a h = rw pow-zero (ground arith)
scale_up-checked (suc k) a h = elim (Bool-cases (ltb (a * 10) u128_mod)) [
  | inl fits ↦
      rw fits (rw (scale_up-checked k (a * 10) (ground arith), pow-succ' 10 k, mul_assoc) refl)
  | inr over ↦ rw (over, scaled-overflow k a over)
]

scale_up-wrapping : (k a : ℕ) → a < u128_mod → scale_up false k a ≡ ok (a * 10 ^ k % u128_mod)
unfolding scale_up
scale_up-wrapping zero a h = rw pow-zero (ground arith)
scale_up-wrapping (suc k) a h = rw (mul_in-wrapping a 10) (
    scale_up-wrapping k (a * 10 % u128_mod) (omega arith)
    ∙ ap ok (
        mod-mul (a * 10) (10 ^ k) u128_mod
        ∙ ap (λ t. t % u128_mod) (rw (pow-succ' 10 k) (mul_assoc a 10 (10 ^ k)))))

wrapping-scaled : (exact : ℕ) → ok (exact % u128_mod) ≡ scaled false exact
wrapping-scaled exact = ground arith

-- On every `u128` amount, more than 18 decimals divide by the power of ten, rounding down; 18 or
-- fewer multiply by it, and a product of 2 ^ 128 or more panics in a build with overflow checks
-- and is reduced modulo 2 ^ 128 in a build without.
pub unify_decimals_lem :
    (checks : Bool) (amount decimals : ℕ)
    → amount < u128_mod
    → unify_decimals checks amount decimals ≡ (
        if ltb standard_decimals decimals
        then ok (amount / 10 ^ (decimals - standard_decimals))
        else scaled checks (amount * 10 ^ (standard_decimals - decimals)))
unfolding unify_decimals
unify_decimals_lem checks amount decimals h = elim (Bool-cases (ltb standard_decimals decimals)) [
  | inl more ↦ rw more (rw (scale_down-eq (decimals - standard_decimals) amount))
  | inr less ↦ rw less (scale_up-scaled checks)
]
  where
    scale_up-scaled :
        (checks : Bool)
        → scale_up checks (standard_decimals - decimals) amount
          ≡ scaled checks (amount * 10 ^ (standard_decimals - decimals))
    scale_up-scaled true = scale_up-checked (standard_decimals - decimals) amount h
    scale_up-scaled false =
        scale_up-wrapping (standard_decimals - decimals) amount h ∙ wrapping-scaled _
