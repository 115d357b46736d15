-- ===== src/ReedSolomon/Sum.antt =====
-- Sums in the field, over the columns of a row and over a list of indices.
use par2tbb.Base.{ℕ, zero, suc, ◌+◌, ◌<◌, ◌≡◌, refl, sym, ap, ap₂, ◌∙◌, arith}
use par2tbb.Base.{List, [], ◌∷◌, length, ◌≢◌}
use native.Mathlib.Decide.{ℕ_discrete}
use par2tbb.Base.Bits.{◌⊕◌, xor-lt, xor_swap_middle, xor_assoc, xor-zero, zero-xor}
use par2tbb.Galois.{Shape, count, mul, add}
use par2tbb.Galois.Order.{IsPrimitive, one-lt-count}
use par2tbb.Galois.Field.{mul-add, mul-zero_lem}
use par2tbb.ReedSolomon.Input.{nth}

-- The sum of `f` over the numbers below `n`.
unfoldable pub sum : ℕ → (ℕ → ℕ) → ℕ
sum zero f = 0
sum (suc n) f = sum n f ⊕ f n

-- The sum of `f` over a list.
unfoldable pub sum_list : (ℕ → ℕ) → List ℕ → ℕ
sum_list f [] = 0
sum_list f (i ∷ is) = f i ⊕ sum_list f is

pub sum_congr : (n : ℕ) (f h : ℕ → ℕ) → ((c : ℕ) → c < n → f c ≡ h c) → sum n f ≡ sum n h
unfolding sum
sum_congr zero f h e = refl
sum_congr (suc n) f h e = ap₂ ◌⊕◌ (sum_congr n f h (λ c p. e c (omega arith))) (e n (omega arith))

pub sum-xor : (n : ℕ) (f h : ℕ → ℕ) → sum n (λ c. f c ⊕ h c) ≡ sum n f ⊕ sum n h
unfolding sum
sum-xor zero f h = refl
sum-xor (suc n) f h =
    ap (λ t. t ⊕ (f n ⊕ h n)) (sum-xor n f h) ∙ xor_swap_middle (sum n f) (sum n h) (f n) (h n)

pub sum_zero : (n : ℕ) (f : ℕ → ℕ) → ((c : ℕ) → c < n → f c ≡ 0) → sum n f ≡ 0
unfolding sum
sum_zero zero f e = refl
sum_zero (suc n) f e = ap₂ ◌⊕◌ (sum_zero n f (λ c p. e c (omega arith))) (e n (omega arith)) ∙ refl

-- A sum with one term.
pub sum_single : (n k : ℕ) (f : ℕ → ℕ) → k < n → ((c : ℕ) → c < n → c ≢ k → f c ≡ 0) → sum n f ≡ f k
unfolding sum
sum_single zero k f h e = absurd (omega arith)
sum_single (suc n) k f h e = elim (ℕ_discrete n k) [
  | yes last ↦
      ap₂ ◌⊕◌ (sum_zero n f (λ c p. e c (omega arith) (omega arith))) (ap f last) ∙ zero-xor (f k)
  | no ne ↦
      ap₂ ◌⊕◌ (sum_single n k f (omega arith) (λ c p q. e c (omega arith) q)) (e n (omega arith) ne)
      ∙ xor-zero (f k)
]

-- Columns in two parts.
pub sum-append : (m n : ℕ) (f : ℕ → ℕ) → sum (m + n) f ≡ sum m f ⊕ sum n (λ c. f (m + c))
unfolding sum
sum-append m zero f = ap (λ t. sum t f) {y = m} (omega arith) ∙ sym (xor-zero (sum m f))
sum-append m (suc n) f =
    ap (λ t. sum t f) {y = suc (m + n)} (omega arith)
    ∙ ap (λ t. t ⊕ f (m + n)) (sum-append m n f)
    ∙ xor_assoc (sum m f) (sum n (λ c. f (m + c))) (f (m + n))

-- A sum over the positions of a list is a sum over its elements.
sum_shift : (n : ℕ) (f : ℕ → ℕ) → sum (suc n) f ≡ f 0 ⊕ sum n (λ c. f (suc c))
unfolding sum
sum_shift zero f = zero-xor (f 0) ∙ sym (xor-zero (f 0))
sum_shift (suc n) f =
    ap (λ t. t ⊕ f (suc n)) (sum_shift n f) ∙ xor_assoc (f 0) (sum n (λ c. f (suc c))) (f (suc n))

pub sum-nth : (f : ℕ → ℕ) (is : List ℕ) → sum (length is) (λ c. f (nth is c)) ≡ sum_list f is
unfolding sum_list
sum-nth f [] = unfold sum in refl
sum-nth f (i ∷ is) =
    sum_shift (length is) (λ c. f (nth (i ∷ is) c)) ∙ ap (λ t. f i ⊕ t) (sum-nth f is)

module _ {g : Shape} (m : IsPrimitive g) where
  pub sum-lt : (n : ℕ) (f : ℕ → ℕ) → ((c : ℕ) → c < n → f c < count g) → sum n f < count g
  unfolding sum
  sum-lt zero f h = omega (arith, one-lt-count m)
  sum-lt (suc n) f h =
      xor-lt g.bits (sum n f) (f n) (sum-lt n f (λ c p. h c (omega arith))) (h n (omega arith))

  -- A factor comes out of a sum.
  pub sum-mul :
      (n k : ℕ) (f : ℕ → ℕ)
      → k < count g
      → ((c : ℕ) → c < n → f c < count g)
      → sum n (λ c. mul g k (f c)) ≡ mul g k (sum n f)
  unfolding sum
  sum-mul zero k f hk h = sym (mul-zero_lem m k)
  sum-mul (suc n) k f hk h =
      let below = λ (c : ℕ) (p : c < n). h c (omega arith) in
      ap (λ t. t ⊕ mul g k (f n)) (sum-mul n k f hk below)
      ∙ sym (unfold add in mul-add m k (sum n f) (f n) hk (sum-lt n f below) (h n (omega arith)))
