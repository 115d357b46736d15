-- ===== src/Galois/Peasant.antt =====
-- operator* of galois.h beside multiplication of polynomials modulo the generator.
use native.Mathlib.Nat.{pow-suc, div-eq_of_lt, pow-le-pow_right}
use native.Mathlib.Decide.{ℕ_discrete}
use par2tbb.Base.{ℕ, zero, suc, ◌*◌, ◌/◌, ◌%◌, ◌^◌, ◌≤◌, ◌<◌, ◌≡◌}
use par2tbb.Base.{sym, ap, ◌∙◌, arith, ◌==◌, if◌then◌else◌}
use par2tbb.Base.Bits.{◌⊕◌, xor_low, xor_comm}
use par2tbb.Galois.{Shape, count, double, mul, add}
use par2tbb.Galois.Doubling.{double-zero, double_low, double-lt}
use par2tbb.Galois.Order.{IsPrimitive, doubles_comm, one-lt-count}
use par2tbb.Galois.Field.{log, mul-eq-doubles, zero-mul_lem, mul-add, mul_comm, mul-one}

-- The sum of `x^i * y` over the digits `i` of the first factor that are one; `k` digits are read.
pub peasant : Shape → ℕ → ℕ → ℕ → ℕ
peasant g zero x y = 0
peasant g (suc k) x y = (if x % 2 == 1 then y else 0) ⊕ double g (peasant g k (x / 2) y)

module _ {g : Shape} (m : IsPrimitive g) where
  mul-double : (x y : ℕ) → x < count g → y < count g → mul g (double g x) y ≡ double g (mul g x y)
  mul-double x y hx hy = elim (ℕ_discrete y 0) [
    | yes e ↦
        rw (e, mul_comm m (double g x) 0, mul_comm m x 0, zero-mul_lem m, zero-mul_lem m)
          (sym (double-zero m.shape))
    | no p ↦
        rw
          (
            mul_comm m (double g x) y,
            mul_comm m x y,
            mul-eq-doubles m y (double g x) p hy (double-lt m.shape x hx),
            mul-eq-doubles m y x p hy hx,
          )
          (doubles_comm g (log g y) 1 x)
  ]

  mul_low : (x y : ℕ) → y < count g → mul g (x % 2) y ≡ (if x % 2 == 1 then y else 0)
  mul_low x y h = elim (ℕ_discrete (x % 2) 0) [
    | yes e ↦ rw e (zero-mul_lem m y)
    | no p ↦ let one : x % 2 ≡ 1 = omega arith in rw one (mul-one m y h)
  ]

  -- The digits of `x` above the lowest are a doubled value.
  halves : (x : ℕ) → x < count g → (x / 2 < count g) × (x ≡ add (x % 2) (double g (x / 2)))
  unfolding add
  halves x h = (
    omega arith,
    sym (
        ap (λ t. x % 2 ⊕ t) (double_low m.shape (x / 2) (omega arith) (div-eq_of_lt (omega arith)))
        ∙ xor_comm (x % 2) (x / 2 * 2)
        ∙ xor_low (x / 2) (x % 2) (omega arith)
        ∙ omega arith),
  )

  -- A factor split at its lowest digit.
  mul_split :
      (x y : ℕ)
      → x < count g
      → y < count g
      → mul g x y ≡ (if x % 2 == 1 then y else 0) ⊕ double g (mul g (x / 2) y)
  unfolding add
  mul_split x y hx hy =
      let (low, even) = halves x hx in
      ap (λ t. mul g t y) even
      ∙ mul_comm m (add (x % 2) (double g (x / 2))) y
      ∙ mul-add m y (x % 2) (double g (x / 2)) hy (omega (arith, one-lt-count m))
          (double-lt m.shape (x / 2) (omega arith))
      ∙ rw (mul_comm m y (x % 2), mul_comm m y (double g (x / 2)), mul_low x y hy)
          (ap (λ t. (if x % 2 == 1 then y else 0) ⊕ t) (mul-double (x / 2) y (omega arith) hy))

  -- The product of the tables, for a first factor of at most `bits` digits, is the sum of the
  -- doublings of the second factor at the digits of the first that are one.
  pub mul-eq-peasant :
      (k x y : ℕ) → x < 2 ^ k → k ≤ g.bits → y < count g → mul g x y ≡ peasant g k x y
  unfolding peasant
  mul-eq-peasant zero x y h b hy = ap (λ t. mul g t y) {y = 0} (omega arith) ∙ zero-mul_lem m y
  mul-eq-peasant (suc k) x y h b hy =
      let wide = pow-le-pow_right {n = 2} (omega arith) b in
      mul_split x y (omega arith) hy
      ∙ ap (λ t. (if x % 2 == 1 then y else 0) ⊕ double g t)
          (mul-eq-peasant k (x / 2) y (omega (arith, pow-suc 2 k)) (omega arith) hy)
