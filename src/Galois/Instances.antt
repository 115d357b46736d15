-- ===== src/Galois/Instances.antt =====
-- The typedefs Galois8 and Galois16 of galois.h.
use native.Mathlib.Decide.{ℕ_discrete}
use par2tbb.Base.{ℕ, zero, suc, ◌+◌, ◌≤◌, ◌<◌, ◌≡◌, ◌≢◌}
use par2tbb.Base.{refl, ap, ◌∙◌, arith, ◌==◌, Bool, true, false, if◌then◌else◌}
use par2tbb.Galois.{Shape, limit, double, galois8, galois16}
use par2tbb.Galois.Doubling.{IsShape}
use par2tbb.Galois.Order.{IsPrimitive, exp}

-- The rounds from the value `b` on: none of the first `n` is 1, and the next is.
returns : Shape → ℕ → ℕ → Bool
returns g zero b = b == 1
returns g (suc n) b = let rest = returns g n (double g b) in if b == 1 then false else rest

returns_period : (g : Shape) (n l : ℕ) → returns g n (exp g l) ≡ true → exp g (l + n) ≡ 1
unfolding returns
returns_period g zero l h = ap (exp g) {y = l} (omega arith) ∙ ground arith
returns_period g (suc n) l h =
    ap (exp g) {y = suc l + n} (omega arith) ∙ returns_period g n (suc l) (ground arith)

returns_earlier :
    (g : Shape) (n l : ℕ) → returns g n (exp g l) ≡ true → (j : ℕ) → l ≤ j → j < l + n → exp g j ≢ 1
unfolding returns
returns_earlier g zero l h j p q = absurd (omega arith)
returns_earlier g (suc n) l h j p q = elim (ℕ_discrete j l) [
  | yes same ↦ rw same (ground arith)
  | no ne ↦ returns_earlier g n (suc l) (ground arith) j (omega arith) (omega arith)
]

IsPrimitive-of_returns :
    (g : Shape) (n : ℕ)
    → IsShape g
    → limit g ≡ suc n
    → returns g n (double g 1) ≡ true
    → IsPrimitive g
IsPrimitive-of_returns g n s e h = record {
  shape = s;
  period = ap (exp g) {y = 1 + n} (omega arith) ∙ returns_period g n 1 h;
  no_earlier = λ l p q. returns_earlier g n 1 h l p (omega arith);
}

-- The generator of Galois8 is primitive: the doublings of 1 are 1 again after 255 steps and not
-- before.
pub galois8-IsPrimitive : IsPrimitive galois8
unfolding returns double
galois8-IsPrimitive = IsPrimitive-of_returns galois8 254 (omega arith) refl refl

-- The generator of Galois16 is primitive: the doublings of 1 are 1 again after 65535 steps and
-- not before.
pub galois16-IsPrimitive : IsPrimitive galois16
unfolding returns double
galois16-IsPrimitive = IsPrimitive-of_returns galois16 65534 (omega arith) refl refl
