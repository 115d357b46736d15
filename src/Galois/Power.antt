-- ===== src/Galois/Power.antt =====
-- pow and operator^= of galois.h beside repeated multiplication.
use native.Mathlib.Nat.{mod-eq_of_lt, div-add-mod', div-lt_iff_lt-mul, mod-lt}
use native.Mathlib.Decide.{ℕ_discrete}
use par2tbb.Base.{ℕ, zero, suc, ◌+◌, ◌*◌, ◌/◌, ◌%◌, ◌^◌, ◌≤◌, ◌<◌, ◌≡◌, ◌≢◌}
use par2tbb.Base.{refl, sym, ap, ◌∙◌, arith}
use par2tbb.Galois.{Shape, count, limit, mul, pow, pow_assign, power_at}
use par2tbb.Galois.Order.{IsPrimitive, exp, exp-lt, one-lt-count, doubles-add}
use par2tbb.Galois.Tables.{table-log-lt}
use par2tbb.Galois.Field.{log, exp_wraps, antilog_reduced, mul-eq-doubles, zero-mul_lem}
use par2tbb.Galois.Field.{mul_comm, mul-one}

-- The product of `n` factors `a`.
unfoldable pub power : Shape → ℕ → ℕ → ℕ
power g a zero = 1
power g a (suc n) = mul g a (power g a n)

fold_sum : (p c l : ℕ) → c ≡ suc l → p / c * l + (p / c + p % c) ≡ p
fold_sum p c l e = rw e (omega (arith, div-add-mod' p (suc l)))

fold-lt : (p c l : ℕ) → c ≡ suc l → p < l * l → p / c + p % c < l + l
fold-lt p c l e h =
    let high : p / c < l = (div-lt_iff_lt-mul {k = c} (omega arith)).1 (rw e (omega arith)) in
    omega (arith, mod-lt p {m = c} (omega arith))

mul-lt_square : (a n l : ℕ) → a < l → n ≤ l → a * n < l * l
mul-lt_square a n l p q = grind arith

module _ {g : Shape} (m : IsPrimitive g) where
  exp_wraps_many : (q r : ℕ) → exp g (q * limit g + r) ≡ exp g r
  exp_wraps_many zero r = ap (exp g) {y = r} (omega arith)
  exp_wraps_many (suc q) r =
      ap (exp g) {y = limit g + (q * limit g + r)} (omega arith)
      ∙ exp_wraps m (q * limit g + r)
      ∙ exp_wraps_many q r

  power-eq-exp : (a n : ℕ) → a ≢ 0 → a < count g → power g a n ≡ exp g (log g a * n)
  unfolding power
  power-eq-exp a zero p h = ap (exp g) {x = 0} (omega arith)
  power-eq-exp a (suc n) p h =
      ap (mul g a) (power-eq-exp a n p h)
      ∙ mul-eq-doubles m a _ p h (exp-lt m (log g a * n))
      ∙ sym (doubles-add g (log g a) (log g a * n) 1)
      ∙ ap (exp g) {y = log g a * suc n} (omega arith)

  -- One fold at `Bits` keeps the value modulo the period, and leaves less than two periods.
  fold_period :
      (p : ℕ)
      → p < limit g * limit g
      → (p / count g + p % count g < limit g + limit g)
        × (exp g (p / count g + p % count g) ≡ exp g p)
  fold_period p h =
      let above : count g ≡ suc (limit g) = omega (arith, one-lt-count m) in
      (
        fold-lt p (count g) (limit g) above h,
        sym (exp_wraps_many (p / count g) (p / count g + p % count g))
            ∙ ap (exp g) {y = p} (fold_sum p (count g) (limit g) above),
      )

  power_at_lem :
      (a n : ℕ)
      → a ≢ 0
      → a < count g
      → n ≤ limit g
      → limit g * limit g ≤ 2 ^ 32
      → power_at g a n ≡ exp g (log g a * n)
  unfolding power_at
  power_at_lem a n p h b w =
      let small = mul-lt_square (log g a) n (limit g) (table-log-lt m a p h) b in
      let (below, same) = fold_period (log g a * n) small in
      ground (
        arith,
        mod-eq_of_lt {n = log g a * n} {m = 2 ^ 32} (omega arith),
        antilog_reduced m (log g a * n / count g + log g a * n % count g) below,
        same,
      )

  power-zero_base : (n : ℕ) → power g 0 (suc n) ≡ 0
  unfolding power
  power-zero_base n = zero-mul_lem m (power g 0 n)

  -- On a value of the field and an exponent up to the period, whose square fits in 32 bits, pow
  -- is the product of as many factors.
  pub pow-eq-power :
      (a n : ℕ) → a < count g → n ≤ limit g → limit g * limit g ≤ 2 ^ 32 → pow g a n ≡ power g a n
  unfolding pow
  pow-eq-power a zero h b w = unfold power in refl
  pow-eq-power a (suc n) h b w = elim (ℕ_discrete a 0) [
    | yes e ↦ rw e (ground (arith, power-zero_base n))
    | no p ↦ ground (arith, power_at_lem a (suc n) p h b w, power-eq-exp a (suc n) p h)
  ]

  -- For a value of the field other than 0 and an exponent other than 1 and up to the period,
  -- whose square fits in 32 bits, operator^= is the product of as many factors; at the exponent
  -- 1 it gives 1, where the product is the value; and of 0 at the exponent 0 it makes 0, where
  -- the product is 1.
  pub pow_assign_lem :
      (a n : ℕ)
      → a ≢ 0
      → a < count g
      → n ≢ 1
      → n ≤ limit g
      → limit g * limit g ≤ 2 ^ 32
      → (pow_assign g a n ≡ power g a n)
        × (pow_assign g a 1 ≡ 1)
        × (power g a 1 ≡ a)
        × (pow_assign g 0 0 ≡ 0)
        × (power g 0 0 ≡ 1)
  unfolding pow_assign power
  pow_assign_lem a n p h ne b w = (
    ground (arith, power_at_lem a n p h b w, power-eq-exp a n p h),
    refl,
    mul_comm m a 1 ∙ mul-one m a h,
    refl,
    refl,
  )
