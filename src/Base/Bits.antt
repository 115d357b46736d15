-- ===== src/Base/Bits.antt =====
-- Exclusive or of unsigned words at variables: its lowest digit, the group laws, and how it goes
-- through shifts and low masks.
use Prim.Native.Nat.{ℕ, zero, suc, ◌+◌, ◌*◌, ◌/◌, ◌%◌, ◌^◌, ◌≤◌, ◌<◌, bit_xor}
use Prim.Native.Nat.{digits, differ, bit_xor-bitwise}
use mathlib.Core.Path.{◌≡◌, refl, sym, ap, ap₂, ◌∙◌}
use native.Mathlib.Nat.{
  le_refl, pow-suc, one-le-pow, div-one, mod-one, div-div-eq-div-mul, add-zero, zero-mul,
}
use native.Mathlib.Nat.{mod-lt, mod-eq_of_lt, mod-add-div', add-mul-mod_self_right}
use native.Mathlib.Omega.{arith}

infixl 60 ◌⊕◌
abbrev pub ◌⊕◌ : ℕ → ℕ → ℕ
a ⊕ b = bit_xor a b

differ_bits : (x y : ℕ) → x < 2 → y < 2 → differ x y ≡ (x + y) % 2
differ_bits zero y p q = omega arith
differ_bits (suc zero) zero p q = refl
differ_bits (suc zero) (suc zero) p q = refl
differ_bits (suc zero) (suc (suc y)) p q = absurd (omega arith)
differ_bits (suc (suc x)) y p q = absurd (omega arith)

abbrev xor_digits : ℕ → ℕ → ℕ → ℕ
xor_digits n a b = digits (λ b. b) differ n a b

xor_digits_fuel : (n m a b : ℕ) → a ≤ n → a ≤ m → xor_digits n a b ≡ xor_digits m a b
xor_digits_fuel zero zero a b p q = refl
xor_digits_fuel zero (suc m) zero b p q = refl
xor_digits_fuel zero (suc m) (suc a) b p q = absurd (omega arith)
xor_digits_fuel (suc n) zero zero b p q = refl
xor_digits_fuel (suc n) zero (suc a) b p q = absurd (omega arith)
xor_digits_fuel (suc n) (suc m) zero b p q = refl
xor_digits_fuel (suc n) (suc m) (suc a) b p q =
    rw (xor_digits_fuel n m (suc a / 2) (b / 2) (omega arith) (omega arith))

pub zero-xor : (b : ℕ) → 0 ⊕ b ≡ b
zero-xor b = bit_xor-bitwise 0 b

xor_step : (a b : ℕ) → a ⊕ b ≡ (a / 2 ⊕ b / 2) * 2 + (a % 2 + b % 2) % 2
xor_step zero b = omega (arith, zero-xor b, zero-xor (b / 2))
xor_step (suc a) b = omega (
  arith,
  bit_xor-bitwise (suc a) b,
  bit_xor-bitwise (suc a / 2) (b / 2),
  differ_bits (suc a % 2) (b % 2) (omega arith) (omega arith),
  xor_digits_fuel a (suc a / 2) (suc a / 2) (b / 2) (omega arith) (omega arith),
)

pub xor-half : (a b : ℕ) → (a ⊕ b) / 2 ≡ a / 2 ⊕ b / 2
xor-half a b = omega (arith, xor_step a b)

pub xor-odd : (a b : ℕ) → (a ⊕ b) % 2 ≡ (a % 2 + b % 2) % 2
xor-odd a b = omega (arith, xor_step a b)

bits_ext : (a b : ℕ) → a / 2 ≡ b / 2 → a % 2 ≡ b % 2 → a ≡ b
bits_ext a b p q = omega arith

xor_comm_fuel : (n a b : ℕ) → a ≤ n → b ≤ n → a ⊕ b ≡ b ⊕ a
xor_comm_fuel zero a b p q =
    let a0 : a ≡ 0 = omega arith in let b0 : b ≡ 0 = omega arith in rw (a0, b0)
xor_comm_fuel (suc n) a b p q =
    omega (arith, xor_step a b, xor_step b a, xor_comm_fuel n (a / 2) (b / 2))

pub xor_comm : (a b : ℕ) → a ⊕ b ≡ b ⊕ a
xor_comm a b = xor_comm_fuel (a + b) a b (omega arith) (omega arith)

pub xor-zero : (a : ℕ) → a ⊕ 0 ≡ a
xor-zero a = xor_comm a 0 ∙ zero-xor a

xor_assoc_fuel : (n a b c : ℕ) → a ≤ n → b ≤ n → c ≤ n → (a ⊕ b) ⊕ c ≡ a ⊕ (b ⊕ c)
xor_assoc_fuel zero a b c p q r =
    let a0 : a ≡ 0 = omega arith in
    let b0 : b ≡ 0 = omega arith in let c0 : c ≡ 0 = omega arith in rw (a0, b0, c0)
xor_assoc_fuel (suc n) a b c p q r =
    bits_ext _ _
      (xor-half (a ⊕ b) c
        ∙ ap (λ t. t ⊕ c / 2) (xor-half a b)
        ∙ xor_assoc_fuel n (a / 2) (b / 2) (c / 2) (omega arith) (omega arith) (omega arith)
        ∙ ap (λ t. a / 2 ⊕ t) (sym (xor-half b c))
        ∙ sym (xor-half a (b ⊕ c)))
      (omega (arith, xor-odd (a ⊕ b) c, xor-odd a b, xor-odd a (b ⊕ c), xor-odd b c))

pub xor_assoc : (a b c : ℕ) → (a ⊕ b) ⊕ c ≡ a ⊕ (b ⊕ c)
xor_assoc a b c = xor_assoc_fuel (a + b + c) a b c (omega arith) (omega arith) (omega arith)

xor_self_fuel : (n a : ℕ) → a ≤ n → a ⊕ a ≡ 0
xor_self_fuel zero a p = let a0 : a ≡ 0 = omega arith in rw a0
xor_self_fuel (suc n) a p = omega (arith, xor_step a a, xor_self_fuel n (a / 2))

pub xor_self : (a : ℕ) → a ⊕ a ≡ 0
xor_self a = xor_self_fuel a a (le_refl a)

pub xor_cancel : (a b : ℕ) → a ⊕ (a ⊕ b) ≡ b
xor_cancel a b = rw (← xor_assoc a a b, xor_self a) (zero-xor b)

pub xor_eq_zero : (a b : ℕ) → a ⊕ b ≡ 0 → a ≡ b
xor_eq_zero a b e = sym (xor-zero a) ∙ ap (λ t. a ⊕ t) (sym e) ∙ xor_cancel a b

pub xor_left_comm : (a b c : ℕ) → a ⊕ (b ⊕ c) ≡ b ⊕ (a ⊕ c)
xor_left_comm a b c = sym (xor_assoc a b c) ∙ ap (λ t. t ⊕ c) (xor_comm a b) ∙ xor_assoc b a c

-- Sums that cancel.
pub xor_cancel_pairs : (z f b : ℕ) → (z ⊕ f) ⊕ (f ⊕ (z ⊕ b)) ≡ b
xor_cancel_pairs z f b =
    xor_assoc z f (f ⊕ (z ⊕ b)) ∙ ap (λ t. z ⊕ t) (xor_cancel f (z ⊕ b)) ∙ xor_cancel z b

-- The sums of two pairs may be regrouped.
pub xor_swap_middle : (a b c d : ℕ) → (a ⊕ b) ⊕ (c ⊕ d) ≡ (a ⊕ c) ⊕ (b ⊕ d)
xor_swap_middle a b c d =
    xor_assoc a b (c ⊕ d) ∙ ap (λ t. a ⊕ t) (xor_left_comm b c d) ∙ sym (xor_assoc a c (b ⊕ d))

-- A digit times a number, over the sum of digits.
pub bit_mul-xor : (p x y : ℕ) → x < 2 → y < 2 → (x ⊕ y) * p ≡ x * p ⊕ y * p
bit_mul-xor p zero y hx hy = rw (zero-xor, zero-mul, zero-xor)
bit_mul-xor p (suc zero) zero hx hy = rw zero-mul (sym (xor-zero (1 * p)))
bit_mul-xor p (suc zero) (suc zero) hx hy = rw (xor_self (1 * p)) (zero-mul p)
bit_mul-xor p (suc zero) (suc (suc y)) hx hy = absurd (omega arith)
bit_mul-xor p (suc (suc x)) y hx hy = absurd (omega arith)

pub xor_bits : (x y : ℕ) → x < 2 → y < 2 → x ⊕ y ≡ (x + y) % 2
xor_bits zero y p q = zero-xor y ∙ omega arith
xor_bits (suc zero) zero p q = refl
xor_bits (suc zero) (suc zero) p q = refl
xor_bits (suc zero) (suc (suc y)) p q = absurd (omega arith)
xor_bits (suc (suc x)) y p q = absurd (omega arith)

-- Shifts and masks, at every width.
pub xor-lt : (k a b : ℕ) → a < 2 ^ k → b < 2 ^ k → a ⊕ b < 2 ^ k
xor-lt zero a b p q =
    let a0 : a ≡ 0 = omega arith in let b0 : b ≡ 0 = omega arith in rw (a0, b0) (omega arith)
xor-lt (suc k) a b p q = omega (arith, pow-suc 2 k, xor_step a b, xor-lt k (a / 2) (b / 2))

-- A word and its lowest digit.
xor_fields : (a b x y : ℕ) → x < 2 → y < 2 → (a * 2 + x) ⊕ (b * 2 + y) ≡ (a ⊕ b) * 2 + (x + y) % 2
xor_fields a b x y p q =
    let a_high : (a * 2 + x) / 2 ≡ a = omega arith in
    let b_high : (b * 2 + y) / 2 ≡ b = omega arith in
    let step = xor_step (a * 2 + x) (b * 2 + y) in step ∙ rw (a_high, b_high) (omega arith)

pub xor-double : (a b : ℕ) → a * 2 ⊕ b * 2 ≡ (a ⊕ b) * 2
xor-double a b =
    let whole = xor_fields a b 0 0 (omega arith) (omega arith) in
    rw (add-zero, add-zero) at whole ∙ omega arith

-- A digit put below a shifted word.
pub xor_low : (a x : ℕ) → x < 2 → a * 2 ⊕ x ≡ a * 2 + x
xor_low a x h =
    let whole = xor_fields a 0 0 x (omega arith) h in
    ap (λ t. t ⊕ x) {x = a * 2} {y = a * 2 + 0} (omega arith)
    ∙ ap (λ t. (a * 2 + 0) ⊕ t) {x = x} {y = 0 * 2 + x} (omega arith)
    ∙ whole
    ∙ omega (arith, xor-zero a)

-- `k` digits put below a shifted word.
pub xor_below : (k a x : ℕ) → x < 2 ^ k → a * 2 ^ k ⊕ x ≡ a * 2 ^ k + x
xor_below zero a x h = let x0 : x ≡ 0 = omega arith in rw x0 (xor-zero (a * 2 ^ 0) ∙ omega arith)
xor_below (suc k) a x h =
    let shifted : a * 2 ^ suc k ≡ a * 2 ^ k * 2 + 0 = omega (arith, pow_suc_scaled a k) in
    let split : x ≡ x / 2 * 2 + x % 2 = omega arith in
    ap₂ ◌⊕◌ shifted split
    ∙ xor_fields (a * 2 ^ k) (x / 2) 0 (x % 2) (omega arith) (omega arith)
    ∙ omega (arith, xor_below k a (x / 2) (omega (arith, pow-suc 2 k)), pow_suc_scaled a k)
  where
    pow_suc_scaled : (a k : ℕ) → a * 2 ^ suc k ≡ a * 2 ^ k * 2
    pow_suc_scaled a k = omega (arith, ap (λ (t : ℕ). a * t) (pow-suc 2 k))

pub xor-shift : (k a b : ℕ) → (a ⊕ b) / 2 ^ k ≡ a / 2 ^ k ⊕ b / 2 ^ k
xor-shift zero a b = rw (div-one, div-one, div-one)
xor-shift (suc k) a b =
    rw
      (
        pow-suc 2 k,
        ← div-div-eq-div-mul (a ⊕ b) (2 ^ k) 2,
        ← div-div-eq-div-mul a (2 ^ k) 2,
        ← div-div-eq-div-mul b (2 ^ k) 2,
        xor-shift k a b,
      )
      (xor-half (a / 2 ^ k) (b / 2 ^ k))

mod_double : (p a : ℕ) → 0 < p → a % (p * 2) ≡ a / 2 % p * 2 + a % 2
mod_double p a h =
    ap (λ t. t % (p * 2)) whole
    ∙ add-mul-mod_self_right (a / 2 % p * 2 + a % 2) (a / 2 / p) (p * 2)
    ∙ mod-eq_of_lt (omega (arith, mod-lt (a / 2) h))
  where
    whole : a ≡ a / 2 % p * 2 + a % 2 + a / 2 / p * (p * 2)
    whole = omega (arith, mod-add-div' (a / 2) p)

pub xor-mod : (k a b : ℕ) → (a ⊕ b) % 2 ^ k ≡ a % 2 ^ k ⊕ b % 2 ^ k
xor-mod zero a b = rw (mod-one, mod-one, mod-one)
xor-mod (suc k) a b =
    let pos : 0 < 2 ^ k = one-le-pow k 2 (omega arith) in
    rw (
      pow-suc 2 k,
      mod_double (2 ^ k) (a ⊕ b) pos,
      mod_double (2 ^ k) a pos,
      mod_double (2 ^ k) b pos,
      xor_fields (a / 2 % 2 ^ k) (b / 2 % 2 ^ k) (a % 2) (b % 2) (omega arith) (omega arith),
      ← xor-mod k (a / 2) (b / 2),
      xor-half a b,
      xor-odd a b,
    )
