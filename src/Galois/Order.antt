-- ===== src/Galois/Order.antt =====
-- The powers of 2 in the field of galois.h, which its tables enumerate.
mod Pigeonhole
use Pigeonhole.{pigeonhole}
use native.Mathlib.Nat.{zero-add, suc-add, pow-le-pow_right, add_comm}
use native.Mathlib.Decide.{ℕ_discrete, dec_le}
use par2tbb.Base.{ℕ, zero, suc, ◌+◌, ◌-◌, ◌*◌, ◌/◌, ◌%◌, ◌^◌, ◌≤◌, ◌<◌, ◌≡◌, ◌≢◌, ◌⊎◌, inl, inr}
use par2tbb.Base.{refl, sym, ap, ap₂, ◌∙◌, arith}
use par2tbb.Base.Bits.{◌⊕◌, xor-lt}
use par2tbb.Galois.{Shape, count, limit, double}
use par2tbb.Galois.Doubling.{
  IsShape, double-lt, double-xor, double_inj, double-zero, double-eq-zero,
}
use par2tbb.Galois.Doubling.{count_pos}

-- `n` rounds of the table's loop on the value `b`.
abbrev pub doubles : Shape → ℕ → ℕ → ℕ
doubles g zero b = b
doubles g (suc n) b = double g (doubles g n b)

-- The value that the loop has at index `l`.
abbrev pub exp : Shape → ℕ → ℕ
exp g l = doubles g l 1

-- The loop comes back to 1 after `limit` rounds and not before.
pub record IsPrimitive (g : Shape) : Type 0 where
  pub shape : IsShape g
  pub period : exp g (limit g) ≡ 1
  pub no_earlier : (l : ℕ) → 0 < l → l < limit g → exp g l ≢ 1

pub doubles-add : (g : Shape) (i j b : ℕ) → doubles g (i + j) b ≡ doubles g i (doubles g j b)
doubles-add g zero j b = ap (λ t. doubles g t b) (zero-add j)
doubles-add g (suc i) j b = rw (suc-add i j, doubles-add g i j b)

pub doubles_comm :
    (g : Shape) (i j b : ℕ) → doubles g i (doubles g j b) ≡ doubles g j (doubles g i b)
doubles_comm g i j b =
    sym (doubles-add g i j b) ∙ ap (λ t. doubles g t b) (add_comm i j) ∙ doubles-add g j i b

module _ {g : Shape} (s : IsShape g) where
  pub doubles-lt : (n b : ℕ) → b < count g → doubles g n b < count g
  doubles-lt zero b h = h
  doubles-lt (suc n) b h = double-lt s _ (doubles-lt n b h)

  pub doubles-xor :
      (n a b : ℕ) → a < count g → b < count g → doubles g n (a ⊕ b) ≡ doubles g n a ⊕ doubles g n b
  doubles-xor zero a b p q = refl
  doubles-xor (suc n) a b p q =
      ap (double g) (doubles-xor n a b p q)
      ∙ double-xor s (doubles g n a) (doubles g n b) (doubles-lt n a p) (doubles-lt n b q)

  pub doubles-zero : (n : ℕ) → doubles g n 0 ≡ 0
  doubles-zero zero = refl
  doubles-zero (suc n) = ap (double g) (doubles-zero n) ∙ double-zero s

  pub doubles_inj : (n a b : ℕ) → a < count g → b < count g → doubles g n a ≡ doubles g n b → a ≡ b
  doubles_inj zero a b p q e = e
  doubles_inj (suc n) a b p q e =
      doubles_inj n a b p q (double_inj s _ _ (doubles-lt n a p) (doubles-lt n b q) e)

  pub doubles-eq-zero : (n b : ℕ) → b < count g → doubles g n b ≡ 0 → b ≡ 0
  doubles-eq-zero n b h e = doubles_inj n b 0 h (count_pos s) (e ∙ sym (doubles-zero n))

module _ {g : Shape} (m : IsPrimitive g) where
  -- `count` is at least 2.
  pub one-lt-count : 1 < count g
  one-lt-count = omega (
    arith,
    m.shape.some_bits,
    pow-le-pow_right {n = 2} (omega arith) {i = 1} {j = g.bits} m.shape.some_bits,
  )

  pub exp-lt : (l : ℕ) → exp g l < count g
  exp-lt l = doubles-lt m.shape l 1 one-lt-count

  pub exp-ne-zero : (l : ℕ) → exp g l ≢ 0
  exp-ne-zero l e = absurd (omega (arith, doubles-eq-zero m.shape l 1 one-lt-count e))

  pub exp_inj_le : (i j : ℕ) → i ≤ j → j < limit g → exp g i ≡ exp g j → i ≡ j
  exp_inj_le i j p q e = elim (ℕ_discrete i j) [
    | yes same ↦ same
    | no ne ↦ absurd (m.no_earlier (j - i) (omega arith) (omega arith) (sym back))
  ]
    where
      split : exp g j ≡ doubles g i (exp g (j - i))
      split = ap (exp g) (omega arith) ∙ doubles-add g i (j - i) 1

      back : 1 ≡ exp g (j - i)
      back = doubles_inj m.shape i 1 (exp g (j - i)) one-lt-count (exp-lt (j - i)) (e ∙ split)

  pub exp_inj : (i j : ℕ) → i < limit g → j < limit g → exp g i ≡ exp g j → i ≡ j
  exp_inj i j p q e = elim (dec_le i j) [
    | yes le ↦ exp_inj_le i j le q e
    | no gt ↦ sym (exp_inj_le j i (omega arith) p (sym e))
  ]

  -- Every value but 0 is a power of 2.
  pub exp_surj : (x : ℕ) → x ≢ 0 → x < count g → (i : ℕ) × (i < limit g) × (exp g i ≡ x)
  exp_surj x p q =
      let (i, below, e) =
        pigeonhole (limit g) (λ i. exp g i - 1) (λ i h. omega (arith, exp-lt i, exp-ne-zero i))
          (λ i j hi hj e. exp_inj i j hi hj (omega (arith, exp-ne-zero i, exp-ne-zero j))) (x - 1)
          (omega arith) in
      (i, below, omega (arith, exp-ne-zero i))

  -- A full period changes nothing.
  pub doubles-limit : (b : ℕ) → b < count g → doubles g (limit g) b ≡ b
  doubles-limit b h = elim (ℕ_discrete b 0) [
    | yes e ↦ rw e (doubles-zero m.shape (limit g))
    | no ne ↦
        let (i, below, e) = exp_surj b ne h in
        rw (← e, ← doubles-add g (limit g) i 1, add_comm (limit g) i)
          (doubles-add g i (limit g) 1 ∙ ap (doubles g i) m.period)
  ]
