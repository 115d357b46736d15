-- ===== src/Galois/Tables.antt =====
-- The arrays that the constructor of GaloisTable in galois.h leaves.
use native.Mathlib.Nat.{mod-eq_of_lt}
use native.Mathlib.Decide.{ℕ_discrete}
use par2tbb.Base.{ℕ, zero, suc, ◌+◌, ◌≤◌, ◌<◌, ◌≡◌, ◌≢◌}
use par2tbb.Base.{refl, ap, subst, ◌∙◌, arith}
use par2tbb.Galois.{Shape, count, limit, double, Table, fill, table, blank}
use par2tbb.Galois.Order.{IsPrimitive, exp, exp-lt, exp_inj, exp_surj, exp-ne-zero}

exp_step : (g : Shape) (l : ℕ) {b : ℕ} → b ≡ exp g l → double g b ≡ exp g (l + 1)
exp_step g l e = ap (double g) e ∙ ap (exp g) {x = suc l} (omega arith)

module _ {g : Shape} (m : IsPrimitive g) where
  -- An entry of `antilog` below the index is not written again.
  fill-antilog_below :
      (n l b : ℕ) (t : Table) (j : ℕ) → j < l → (fill g n l b t).antilog j ≡ t.antilog j
  unfolding fill
  fill-antilog_below zero l b t j h = refl
  fill-antilog_below (suc n) l b t j h =
      fill-antilog_below n (l + 1) (double g b) _ j (omega arith) ∙ ground arith

  fill-antilog :
      (n l b : ℕ) (t : Table) (j : ℕ)
      → b ≡ exp g l
      → l ≤ j
      → j < l + n
      → (fill g n l b t).antilog j ≡ exp g j
  unfolding fill
  fill-antilog zero l b t j e p q = absurd (omega arith)
  fill-antilog (suc n) l b t j e p q = elim (ℕ_discrete j l) [
    | yes same ↦
        fill-antilog_below n (l + 1) (double g b) _ j (omega arith)
        ∙ ground (arith, mod-eq_of_lt (exp-lt m l), ap (exp g) same)
    | no ne ↦ fill-antilog n (l + 1) (double g b) _ j (exp_step g l e) (omega arith) (omega arith)
  ]

  -- An entry of `log` that the remaining rounds do not name stays.
  fill-log_other :
      (n l b : ℕ) (t : Table) (x : ℕ)
      → b ≡ exp g l
      → ((j : ℕ) → l ≤ j → j < l + n → exp g j ≢ x)
      → (fill g n l b t).log x ≡ t.log x
  unfolding fill
  fill-log_other zero l b t x e h = refl
  fill-log_other (suc n) l b t x e h =
      fill-log_other n (l + 1) (double g b) _ x (exp_step g l e)
        (λ j p q. h j (omega arith) (omega arith))
      ∙ ground (arith, h l)

  fill-log :
      (n l b : ℕ) (t : Table) (j : ℕ)
      → b ≡ exp g l
      → l + n ≤ limit g
      → l ≤ j
      → j < l + n
      → (fill g n l b t).log (exp g j) ≡ j
  unfolding fill
  fill-log zero l b t j e f p q = absurd (omega arith)
  fill-log (suc n) l b t j e f p q = elim (ℕ_discrete j l) [
    | yes same ↦
        fill-log_other n (l + 1) (double g b) _ (exp g j) (exp_step g l e) (later same)
        ∙ ground (arith, ap (exp g) same, mod-eq_of_lt {n = l} {m = count g} (omega arith))
    | no ne ↦
        fill-log n (l + 1) (double g b) _ j (exp_step g l e) (omega arith) (omega arith)
          (omega arith)
  ]
    where
      later : j ≡ l → (k : ℕ) → l + 1 ≤ k → k < l + 1 + n → exp g k ≢ exp g j
      later same k p' q' twice =
          absurd (omega (arith, exp_inj m k j (omega arith) (omega arith) twice))

  -- `antilog` of an exponent below the period is the power of 2.
  pub table-antilog : (l : ℕ) → l < limit g → (table g).antilog l ≡ exp g l
  unfolding table
  table-antilog l h =
      ground (arith, fill-antilog (limit g) 0 1 blank l refl (omega arith) (omega arith))

  -- `log` of a power of 2 below the period is its exponent.
  pub table-log : (l : ℕ) → l < limit g → (table g).log (exp g l) ≡ l
  unfolding table
  table-log l h = ground (
    arith,
    exp-ne-zero m l,
    fill-log (limit g) 0 1 blank l refl (omega arith) (omega arith) (omega arith),
  )

  pub table_ends : ((table g).antilog (limit g) ≡ 0) × ((table g).log 0 ≡ limit g)
  unfolding table
  table_ends = (ground arith, ground arith)

  pub table-log-lt : (x : ℕ) → x ≢ 0 → x < count g → (table g).log x < limit g
  table-log-lt x p q =
      let (i, below, e) = exp_surj m x p q in rw (← e) (rw (table-log i below) below)

  pub exp-log : (x : ℕ) → x ≢ 0 → x < count g → exp g ((table g).log x) ≡ x
  exp-log x p q =
      let (i, below, e) = exp_surj m x p q in
      subst (λ y. exp g ((table g).log y) ≡ y) e (ap (exp g) (table-log i below))
