-- ===== src/Galois/Doubling.antt =====
-- One round of the loop of the GaloisTable constructor in galois.h, as a map of the field.
use native.Mathlib.Nat.{one-le-pow, div-lt_iff_lt-mul, mod-eq_of_lt, zero-mul, one-mul, zero-div}
use par2tbb.Base.{ℕ, ◌*◌, ◌/◌, ◌%◌, ◌^◌, ◌≤◌, ◌<◌, ◌≡◌, ◌⊎◌, inl, inr}
use par2tbb.Base.{refl, sym, ap, ◌∙◌, arith}
use par2tbb.Base.Bits.{◌⊕◌, xor-shift, xor-lt, xor-double, xor_swap_middle, xor_self}
use par2tbb.Base.Bits.{xor_eq_zero, bit_mul-xor, xor-zero, xor-odd}
use par2tbb.Galois.{Shape, count, double}

-- What a generator needs besides being primitive: `bits + 1` digits, the lowest a one.
pub record IsShape (g : Shape) : Type 0 where
  pub some_bits : 0 < g.bits
  pub in_u32 : count g * 2 ≤ 2 ^ 32
  pub leading : g.generator / count g ≡ 1
  pub odd : g.generator % 2 ≡ 1

-- The digit that the shift moves out.
abbrev pub carry : Shape → ℕ → ℕ
carry g b = b * 2 / count g

module _ {g : Shape} (s : IsShape g) where
  pub count_pos : 0 < count g
  count_pos = one-le-pow g.bits 2 (omega arith)

  carry-lt-two : (b : ℕ) → b < count g → carry g b < 2
  carry-lt-two b h = (div-lt_iff_lt-mul count_pos).1 (omega arith)

  no_wrap : (b : ℕ) → b < count g → b * 2 % 2 ^ 32 ≡ b * 2
  no_wrap b h = mod-eq_of_lt (omega (arith, s.in_u32))

  pub double_low : (b : ℕ) → b < count g → carry g b ≡ 0 → double g b ≡ b * 2
  unfolding double
  double_low b h c = rw (no_wrap b h, c)

  double_high : (b : ℕ) → b < count g → carry g b ≡ 1 → double g b ≡ b * 2 ⊕ g.generator
  unfolding double
  double_high b h c = rw (no_wrap b h, c)

  carry-cases : (b : ℕ) → b < count g → (carry g b ≡ 0) ⊎ (carry g b ≡ 1)
  carry-cases b h = omega (arith, carry-lt-two b h)

  carry-xor : (a b : ℕ) → carry g (a ⊕ b) ≡ carry g a ⊕ carry g b
  carry-xor a b = ap (λ t. t / count g) (sym (xor-double a b)) ∙ xor-shift g.bits (a * 2) (b * 2)

  -- A number below `2 * count` is below `count` if its leading digit is 0.
  lt_of_carry : (x : ℕ) → x / count g ≡ 0 → x < count g
  lt_of_carry x h = omega (arith, (div-lt_iff_lt-mul {k = count g} {x = x} {y = 1} count_pos).0)

  pub double-lt : (b : ℕ) → b < count g → double g b < count g
  double-lt b h = elim (carry-cases b h) [
    | inl c ↦ rw (double_low b h c) (lt_of_carry (b * 2) c)
    | inr c ↦
        rw (double_high b h c)
          (lt_of_carry _ (xor-shift g.bits (b * 2) g.generator ∙ rw (c, s.leading) (refl)))
  ]

  double_lem : (b : ℕ) → b < count g → double g b ≡ b * 2 ⊕ carry g b * g.generator
  double_lem b h = elim (carry-cases b h) [
    | inl c ↦ double_low b h c ∙ sym (rw (c, zero-mul) (xor-zero (b * 2)))
    | inr c ↦ double_high b h c ∙ sym (rw (c, one-mul))
  ]

  pub double-xor :
      (a b : ℕ) → a < count g → b < count g → double g (a ⊕ b) ≡ double g a ⊕ double g b
  double-xor a b p q =
      rw
        (
          double_lem (a ⊕ b) (xor-lt g.bits a b p q),
          double_lem a p,
          double_lem b q,
          carry-xor a b,
          ← xor-double a b,
          bit_mul-xor g.generator (carry g a) (carry g b) (carry-lt-two a p) (carry-lt-two b q),
        )
        (xor_swap_middle (a * 2) (b * 2) (carry g a * g.generator) (carry g b * g.generator))

  -- The generator is odd and a shifted value is even.
  pub double-eq-zero : (b : ℕ) → b < count g → double g b ≡ 0 → b ≡ 0
  double-eq-zero b h e = elim (carry-cases b h) [
    | inl c ↦ omega (arith, double_low b h c)
    | inr c ↦ absurd (omega (arith, double_high b h c, xor-odd (b * 2) g.generator, s.odd))
  ]

  pub double-zero : double g 0 ≡ 0
  double-zero = double_low 0 count_pos (zero-div (count g))

  pub double_inj : (a b : ℕ) → a < count g → b < count g → double g a ≡ double g b → a ≡ b
  double_inj a b p q e =
      xor_eq_zero a b
        (double-eq-zero (a ⊕ b) (xor-lt g.bits a b p q) (double-xor a b p q ∙ rw e (xor_self _)))
