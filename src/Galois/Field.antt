-- ===== src/Galois/Field.antt =====
-- operator*, operator/ and the assigning operators of galois.h: the laws of a field, with `add`
-- the exclusive or.
use native.Mathlib.Decide.{ℕ_discrete, dec_le}
use par2tbb.Base.{ℕ, ◌+◌, ◌-◌, ◌≤◌, ◌<◌, ◌≡◌, ◌≢◌, ◌⊎◌, inl, inr}
use par2tbb.Base.{refl, sym, ap, ◌∙◌, arith}
use par2tbb.Base.Bits.{◌⊕◌, xor-lt}
use par2tbb.Galois.{Shape, count, limit, table, add, mul, div, mul_assign, div_assign}
use par2tbb.Galois.Order.{IsPrimitive, exp, doubles, exp-lt, one-lt-count}
use par2tbb.Galois.Order.{doubles-add, doubles-lt, doubles-xor, doubles-zero, doubles-limit}
use par2tbb.Galois.Order.{doubles-eq-zero, doubles_inj, doubles_comm}
use par2tbb.Galois.Tables.{table-antilog, table-log, table-log-lt, exp-log}

abbrev pub log : Shape → ℕ → ℕ
log g x = (table g).log x

module _ {g : Shape} (m : IsPrimitive g) where
  pub exp_wraps : (r : ℕ) → exp g (limit g + r) ≡ exp g r
  exp_wraps r = doubles-add g (limit g) r 1 ∙ doubles-limit m (exp g r) (exp-lt m r)

  -- A log sum below two periods, reduced as the code does.
  pub antilog_reduced :
      (sum : ℕ)
      → sum < limit g + limit g
      → (limit g ≤ sum → (table g).antilog (sum - limit g) ≡ exp g sum)
        × (sum < limit g → (table g).antilog sum ≡ exp g sum)
  antilog_reduced sum h = (
    λ le.
        table-antilog m (sum - limit g) (omega arith)
        ∙ sym (exp_wraps (sum - limit g))
        ∙ ap (exp g) {y = sum} (omega arith),
    λ lt. table-antilog m sum lt,
  )

  doubles-log : (x y : ℕ) → y ≢ 0 → y < count g → doubles g (log g x) y ≡ exp g (log g x + log g y)
  doubles-log x y p q =
      sym (doubles-add g (log g x) (log g y) 1 ∙ ap (doubles g (log g x)) (exp-log m y p q))

  pub zero-mul_lem : (y : ℕ) → mul g 0 y ≡ 0
  unfolding mul
  zero-mul_lem y = refl

  pub mul-zero_lem : (x : ℕ) → mul g x 0 ≡ 0
  unfolding mul
  mul-zero_lem x = ground arith

  mul_nonzero :
      (x y : ℕ) → x ≢ 0 → y ≢ 0 → x < count g → y < count g → mul g x y ≡ exp g (log g x + log g y)
  unfolding mul
  mul_nonzero x y p q hx hy =
      ground
        (arith, table-log-lt m x p hx, table-log-lt m y q hy, antilog_reduced (log g x + log g y))

  -- Multiplying by `x` is doubling as often as its log says.
  pub mul-eq-doubles :
      (x y : ℕ) → x ≢ 0 → x < count g → y < count g → mul g x y ≡ doubles g (log g x) y
  mul-eq-doubles x y p hx hy = elim (ℕ_discrete y 0) [
    | yes e ↦ rw (e, mul-zero_lem x) (sym (doubles-zero m.shape (log g x)))
    | no q ↦ mul_nonzero x y p q hx hy ∙ sym (doubles-log x y q hy)
  ]

  pub mul-lt : (x y : ℕ) → x < count g → y < count g → mul g x y < count g
  mul-lt x y p q = elim (ℕ_discrete x 0) [
    | yes e ↦ rw (e, zero-mul_lem y) (omega (arith, one-lt-count m))
    | no ne ↦ rw (mul-eq-doubles x y ne p q) (doubles-lt m.shape _ y q)
  ]

  -- There are no zero divisors.
  pub mul-eq-zero : (x y : ℕ) → x < count g → y < count g → mul g x y ≡ 0 → (x ≡ 0) ⊎ (y ≡ 0)
  mul-eq-zero x y p q e = elim (ℕ_discrete x 0) [
    | yes zx ↦ inl zx
    | no ne ↦ inr (doubles-eq-zero m.shape (log g x) y q (sym (mul-eq-doubles x y ne p q) ∙ e))
  ]

  pub mul_comm : (x y : ℕ) → mul g x y ≡ mul g y x
  unfolding mul
  mul_comm x y = ground (arith)

  pub mul-one : (x : ℕ) → x < count g → mul g 1 x ≡ x
  mul-one x h =
      mul-eq-doubles 1 x (omega arith) (one-lt-count m) h
      ∙ ap (λ t. doubles g t x) {y = 0} (table-log m 0 (omega (arith, one-lt-count m)))

  -- operator* distributes over operator+ on the values of the field.
  pub mul-add :
      (x y z : ℕ)
      → x < count g
      → y < count g
      → z < count g
      → mul g x (add y z) ≡ add (mul g x y) (mul g x z)
  unfolding add
  mul-add x y z hx hy hz = elim (ℕ_discrete x 0) [
    | yes e ↦ rw (e, zero-mul_lem y, zero-mul_lem z, zero-mul_lem (y ⊕ z))
    | no p ↦
        rw
          (
            mul-eq-doubles x (y ⊕ z) p hx (xor-lt g.bits y z hy hz),
            mul-eq-doubles x y p hx hy,
            mul-eq-doubles x z p hx hz,
          )
          (doubles-xor m.shape (log g x) y z hy hz)
  ]

  -- operator* is associative on the values of the field.
  pub mul_assoc :
      (x y z : ℕ)
      → x < count g
      → y < count g
      → z < count g
      → mul g (mul g x y) z ≡ mul g x (mul g y z)
  mul_assoc x y z hx hy hz = elim (ℕ_discrete x 0) [
    | yes e ↦ rw (e, zero-mul_lem y, zero-mul_lem z, zero-mul_lem (mul g y z))
    | no p ↦ elim (ℕ_discrete z 0) [
      | yes e ↦ rw (e, mul-zero_lem y, mul-zero_lem x, mul-zero_lem (mul g x y))
      | no q ↦
          mul_comm (mul g x y) z
          ∙ rw
              (
                mul_comm y z,
                mul-eq-doubles z (mul g x y) q hz (mul-lt x y hx hy),
                mul-eq-doubles x y p hx hy,
                mul-eq-doubles x (mul g z y) p hx (mul-lt z y hz hy),
                mul-eq-doubles z y q hz hy,
              )
              (doubles_comm g (log g z) (log g x) y)
    ]
  ]

  pub mul_cancel :
      (b x y : ℕ) → b ≢ 0 → b < count g → x < count g → y < count g → mul g b x ≡ mul g b y → x ≡ y
  mul_cancel b x y nb hb hx hy e =
      doubles_inj m.shape (log g b) x y hx hy
        (sym (mul-eq-doubles b x nb hb hx) ∙ e ∙ mul-eq-doubles b y nb hb hy)

  div_down :
      (a b : ℕ)
      → a ≢ 0
      → b ≢ 0
      → a < count g
      → b < count g
      → log g b ≤ log g a
      → div g a b ≡ exp g (log g a - log g b)
  unfolding div
  div_down a b na nb ha hb h =
      ground (arith, table-log-lt m a na ha, table-antilog m (log g a - log g b))

  div_around :
      (a b : ℕ)
      → a ≢ 0
      → b ≢ 0
      → a < count g
      → b < count g
      → log g a < log g b
      → div g a b ≡ exp g (log g a + limit g - log g b)
  unfolding div
  div_around a b na nb ha hb h =
      ground (arith, table-log-lt m b nb hb, table-antilog m (log g a + limit g - log g b))

  pub div-lt : (a b : ℕ) → b ≢ 0 → a < count g → b < count g → div g a b < count g
  div-lt a b nb ha hb = elim (ℕ_discrete a 0) [
    | yes e ↦ rw e (unfold div in omega (arith, one-lt-count m))
    | no na ↦ elim (dec_le (log g b) (log g a)) [
      | yes le ↦ rw (div_down a b na nb ha hb le) (exp-lt m _)
      | no gt ↦ rw (div_around a b na nb ha hb (omega arith)) (exp-lt m _)
    ]
  ]

  -- A quotient by a value other than 0, times that value, is the dividend.
  pub mul-div : (a b : ℕ) → b ≢ 0 → a < count g → b < count g → mul g b (div g a b) ≡ a
  mul-div a b nb ha hb = elim (ℕ_discrete a 0) [
    | yes e ↦ rw e (unfold div in mul-zero_lem b)
    | no na ↦
        mul-eq-doubles b (div g a b) nb hb (div-lt a b nb ha hb)
        ∙ elim (dec_le (log g b) (log g a)) [
          | yes le ↦
              ap (doubles g (log g b)) (div_down a b na nb ha hb le)
              ∙ sym (doubles-add g (log g b) (log g a - log g b) 1)
              ∙ ap (exp g) {y = log g a} (omega arith)
              ∙ exp-log m a na ha
          | no gt ↦
              ap (doubles g (log g b)) (div_around a b na nb ha hb (omega arith))
              ∙ sym (doubles-add g (log g b) (log g a + limit g - log g b) 1)
              ∙ ap (exp g) {y = limit g + log g a} (omega (arith, table-log-lt m b nb hb))
              ∙ exp_wraps (log g a)
              ∙ exp-log m a na ha
        ]
  ]

  -- A product divided by its second factor, when that is not 0, is the first factor.
  pub div-mul : (a b : ℕ) → b ≢ 0 → a < count g → b < count g → div g (mul g a b) b ≡ a
  div-mul a b nb ha hb =
      mul_cancel b _ a nb hb (div-lt _ b nb (mul-lt a b ha hb) hb) ha
        (mul-div (mul g a b) b nb (mul-lt a b ha hb) hb ∙ mul_comm a b)

  pub mul_assign_lem : (a b : ℕ) → mul_assign g a b ≡ mul g a b
  unfolding mul_assign mul
  mul_assign_lem a b = ground arith

  -- operator/= is operator/ for a divisor other than 0; a division by 0 leaves the value in the
  -- one, and gives 0 in the other.
  pub div_assign_lem :
      (a b : ℕ) → b ≢ 0 → (div_assign g a b ≡ div g a b) × (div_assign g a 0 ≡ a) × (div g a 0 ≡ 0)
  unfolding div_assign div
  div_assign_lem a b ne = (ground arith, ground arith, ground arith)
