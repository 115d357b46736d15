-- ===== src/ReedSolomon/Input/Gcd.antt =====
-- The loop of gcd in reedsolomon.cpp on its fuel.
use native.Mathlib.Nat.{mod-lt}
use par2tbb.Base.{ℕ, zero, suc, ◌+◌, ◌-◌, ◌%◌, ◌≤◌, ◌<◌, ◌≡◌, ◌≢◌, arith, ap, refl, ◌∙◌}
use par2tbb.Base.{◌==◌, ltb, ◌||◌, Bool-cases, inl, inr, true, false}
use par2tbb.ReedSolomon.Input.{gcd_loop, gcd}

one_more_round : (fuel a b : ℕ) → a + b ≤ fuel → gcd_loop (suc fuel) a b ≡ gcd_loop fuel a b
unfolding gcd_loop
one_more_round zero a b h = let ended : (a == 0 || b == 0) ≡ true = ground arith in rw ended refl
one_more_round (suc fuel) a b h = elim (Bool-cases (a == 0 || b == 0)) [
  | inl ended ↦ rw ended refl
  | inr going ↦ elim (Bool-cases (ltb b a)) [
    | inl more ↦
        let small : a % b < b = mod-lt a (ground arith) in
        rw (going, more) (one_more_round fuel (a % b) b (ground arith))
    | inr less ↦
        let small : b % a < a = mod-lt b (ground arith) in
        rw (going, less) (one_more_round fuel a (b % a) (ground arith))
  ]
]

more_rounds : (extra a b : ℕ) → gcd_loop (a + b + extra) a b ≡ gcd_loop (a + b) a b
more_rounds zero a b = ap (λ n. gcd_loop n a b) {x = a + b + 0} (omega arith)
more_rounds (suc extra) a b =
    ap (λ n. gcd_loop n a b) {y = suc (a + b + extra)} (omega arith)
    ∙ one_more_round (a + b + extra) a b (omega arith)
    ∙ more_rounds extra a b

-- With any fuel that is at least the sum of two numbers other than 0, the loop of gcd has ended
-- with the result of gcd.
pub gcd_fuel : (fuel a b : ℕ) → a ≢ 0 → b ≢ 0 → a + b ≤ fuel → gcd_loop fuel a b ≡ gcd a b
unfolding gcd
gcd_fuel fuel a b na nb h =
    let going : (a == 0 || b == 0) ≡ false = ground arith in
    rw going (
      ap (λ n. gcd_loop n a b) {y = a + b + (fuel - (a + b))} (omega arith)
      ∙ more_rounds (fuel - (a + b)) a b)
