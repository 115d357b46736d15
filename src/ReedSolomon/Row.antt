-- ===== src/ReedSolomon/Row.antt =====
-- One row operation of GaussElim in reedsolomon.h, by its cells and by the equations of a row.
use native.Mathlib.Decide.{ℕ_discrete}
use par2tbb.Base.{ℕ, ◌<◌, ◌≡◌, ◌≢◌, sym, ap, ap₂, ◌∙◌, arith}
use par2tbb.Base.Bits.{◌⊕◌, xor-lt, xor-zero}
use par2tbb.Galois.{Shape, count, mul, add}
use par2tbb.Galois.Order.{IsPrimitive, one-lt-count}
use par2tbb.Galois.Field.{mul-add, mul-zero_lem, zero-mul_lem, mul-lt, mul_comm, mul-one, mul-div}
use par2tbb.Galois.Field.{div-lt, div_assign_lem, mul_assoc, mul_cancel}
use par2tbb.ReedSolomon.{Matrices, scale, eliminate}
use par2tbb.ReedSolomon.Sum.{sum, sum_congr, sum-xor, sum-mul, sum-lt}

-- Every cell is a value of the field.
pub record IsBounded (g : Shape) (m : Matrices) : Type 0 where
  pub left_lt : (r c : ℕ) → m.left r c < count g
  pub right_lt : (r c : ℕ) → m.right r c < count g

-- The products of a row with a vector.
abbrev pub dot : Shape → ℕ → (ℕ → ℕ) → (ℕ → ℕ) → ℕ
dot g n row v = sum n (λ c. mul g (row c) (v c))

-- The equation of row `r`, at the inputs `x` and the outputs `y`.
abbrev pub Holds : Shape → ℕ → ℕ → (ℕ → ℕ) → (ℕ → ℕ) → Matrices → ℕ → Type 0
Holds g leftcols rows x y m r = dot g leftcols (m.left r) x ≡ dot g rows (m.right r) y

module _ {g : Shape} (p : IsPrimitive g) (leftcols rows : ℕ) where
  -- What `eliminate` leaves in the cells of the row, guards and special cases apart.
  eliminate-left :
      (row row2 : ℕ) (m : Matrices) (c : ℕ)
      → IsBounded g m
      → row2 ≢ row
      → c < leftcols
      → (eliminate g leftcols rows row row2 m).left row2 c
        ≡ m.left row2 c ⊕ mul g (m.right row2 row) (m.left row c)
  unfolding eliminate add
  eliminate-left row row2 m c b ne h = ground (
    arith,
    xor-zero (m.left row2 c),
    mul-zero_lem p (m.right row2 row),
    zero-mul_lem p (m.left row c),
    mul-one p (m.left row c) (b.left_lt row c),
    mul_comm p (m.left row c) (m.right row2 row),
  )

  pub eliminate-right :
      (row row2 : ℕ) (m : Matrices) (c : ℕ)
      → IsBounded g m
      → row2 ≢ row
      → c < rows
      → (c < row → m.right row c ≡ 0)
      → (eliminate g leftcols rows row row2 m).right row2 c
        ≡ m.right row2 c ⊕ mul g (m.right row2 row) (m.right row c)
  unfolding eliminate add
  eliminate-right row row2 m c b ne h before = ground (
    arith,
    xor-zero (m.right row2 c),
    mul-zero_lem p (m.right row2 row),
    zero-mul_lem p (m.right row c),
    mul-one p (m.right row c) (b.right_lt row c),
    mul_comm p (m.right row c) (m.right row2 row),
  )

  -- Other rows stay.
  pub eliminate_other :
      (row row2 : ℕ) (m : Matrices) (r c : ℕ)
      → r ≢ row2
      → ((eliminate g leftcols rows row row2 m).left r c ≡ m.left r c)
        × ((eliminate g leftcols rows row row2 m).right r c ≡ m.right r c)
  unfolding eliminate
  eliminate_other row row2 m r c ne = (ground arith, ground arith)

  pub eliminate_self : (row : ℕ) (m : Matrices) → eliminate g leftcols rows row row m ≡ m
  unfolding eliminate
  eliminate_self row m = ground arith

  pub eliminate-IsBounded :
      (row row2 : ℕ) (m : Matrices)
      → IsBounded g m
      → IsBounded g (eliminate g leftcols rows row row2 m)
  unfolding eliminate add
  eliminate-IsBounded row row2 m b = record {
    left_lt = λ r c. ground (
      arith,
      b.left_lt r c,
      xor-lt g.bits (m.left r c) (m.left row c) (b.left_lt r c) (b.left_lt row c),
      xor-lt g.bits (m.left r c) (mul g (m.left row c) (m.right row2 row)) (b.left_lt r c)
          (mul-lt p (m.left row c) (m.right row2 row) (b.left_lt row c) (b.right_lt row2 row)),
    );
    right_lt = λ r c. ground (
      arith,
      b.right_lt r c,
      xor-lt g.bits (m.right r c) (m.right row c) (b.right_lt r c) (b.right_lt row c),
      xor-lt g.bits (m.right r c) (mul g (m.right row c) (m.right row2 row)) (b.right_lt r c)
          (mul-lt p (m.right row c) (m.right row2 row) (b.right_lt row c) (b.right_lt row2 row)),
    );
  }

  -- A row plus a multiple of another, over a vector.
  dot_combination :
      (n s : ℕ) (new a b v : ℕ → ℕ)
      → s < count g
      → ((c : ℕ) → a c < count g)
      → ((c : ℕ) → b c < count g)
      → ((c : ℕ) → v c < count g)
      → ((c : ℕ) → c < n → new c ≡ a c ⊕ mul g s (b c))
      → dot g n new v ≡ dot g n a v ⊕ mul g s (dot g n b v)
  unfolding add
  dot_combination n s new a b v hs ha hb hv e =
      sum_congr n _ (λ c. mul g (a c) (v c) ⊕ mul g s (mul g (b c) (v c))) cell
      ∙ sum-xor n (λ c. mul g (a c) (v c)) (λ c. mul g s (mul g (b c) (v c)))
      ∙ ap (λ t. dot g n a v ⊕ t)
          (sum-mul p n s (λ c. mul g (b c) (v c)) hs (λ c _. mul-lt p (b c) (v c) (hb c) (hv c)))
    where
      cell : (c : ℕ) → c < n → mul g (new c) (v c) ≡ mul g (a c) (v c) ⊕ mul g s (mul g (b c) (v c))
      cell c h =
          ap (λ t. mul g t (v c)) (e c h)
          ∙ mul_comm p (a c ⊕ mul g s (b c)) (v c)
          ∙ mul-add p (v c) (a c) (mul g s (b c)) (hv c) (ha c) (mul-lt p s (b c) hs (hb c))
          ∙ ap₂ ◌⊕◌ (mul_comm p (v c) (a c))
              (mul_comm p (v c) (mul g s (b c)) ∙ mul_assoc p s (b c) (v c) hs (hb c) (hv c))

  module _ (x y : ℕ → ℕ) (hx : (c : ℕ) → x c < count g) (hy : (c : ℕ) → y c < count g) where
    pub eliminate-Holds :
        (row row2 : ℕ) (m : Matrices) (r : ℕ)
        → IsBounded g m
        → ((c : ℕ) → c < row → c < rows → m.right row c ≡ 0)
        → Holds g leftcols rows x y m row
        → Holds g leftcols rows x y m r
        → Holds g leftcols rows x y (eliminate g leftcols rows row row2 m) r
    eliminate-Holds row row2 m r b before pivot old = elim (ℕ_discrete row2 row) [
      | yes same ↦ rw (same, eliminate_self row m) old
      | no ne ↦ elim (ℕ_discrete r row2) [
        | yes hit ↦ rw hit (
            dot_combination leftcols (m.right row2 row) _ (m.left row2) (m.left row) x
              (b.right_lt row2 row) (b.left_lt row2) (b.left_lt row) hx
              (λ c h. eliminate-left row row2 m c b ne h)
            ∙ ap₂ (λ s t. s ⊕ mul g (m.right row2 row) t) (rw hit at old) pivot
            ∙ sym (
                dot_combination rows (m.right row2 row) _ (m.right row2) (m.right row) y
                  (b.right_lt row2 row) (b.right_lt row2) (b.right_lt row) hy
                  (λ c h. eliminate-right row row2 m c b ne h (λ l. before c l h))))
        | no other ↦
            sum_congr leftcols _ _
              (λ c h. ap (λ t. mul g t (x c)) (eliminate_other row row2 m r c other).0)
            ∙ old
            ∙ sym (
                sum_congr rows _ _
                  (λ c h. ap (λ t. mul g t (y c)) (eliminate_other row row2 m r c other).1))
      ]
    ]

    -- A scaled row, over a vector: the pivot times the new row is the old one.
    dot_scaled :
        (n k : ℕ) (new a v : ℕ → ℕ)
        → k < count g
        → ((c : ℕ) → c < n → new c < count g)
        → ((c : ℕ) → v c < count g)
        → ((c : ℕ) → c < n → mul g k (new c) ≡ a c)
        → dot g n a v ≡ mul g k (dot g n new v)
    dot_scaled n k new a v hk hn hv e =
        sum_congr n _ (λ c. mul g k (mul g (new c) (v c)))
          (λ c h.
            ap (λ t. mul g t (v c)) (sym (e c h)) ∙ mul_assoc p k (new c) (v c) hk (hn c h) (hv c))
        ∙ sum-mul p n k (λ c. mul g (new c) (v c)) hk
            (λ c h. mul-lt p (new c) (v c) (hn c h) (hv c))

    pub scale-IsBounded :
        (row : ℕ) (m : Matrices)
        → IsBounded g m
        → m.right row row ≢ 0
        → IsBounded g (scale g leftcols rows row (m.right row row) m)
    unfolding scale
    scale-IsBounded row m b np = record {
      left_lt = λ r c. ground (
        arith,
        b.left_lt r c,
        (div_assign_lem p (m.left r c) (m.right row row) np).0,
        div-lt p (m.left r c) (m.right row row) np (b.left_lt r c) (b.right_lt row row),
      );
      right_lt = λ r c. ground (
        arith,
        b.right_lt r c,
        one-lt-count p,
        (div_assign_lem p (m.right r c) (m.right row row) np).0,
        div-lt p (m.right r c) (m.right row row) np (b.right_lt r c) (b.right_lt row row),
      );
    }

    scale-left :
        (row : ℕ) (m : Matrices) (c : ℕ)
        → IsBounded g m
        → m.right row row ≢ 0
        → c < leftcols
        → mul g (m.right row row) ((scale g leftcols rows row (m.right row row) m).left row c)
          ≡ m.left row c
    unfolding scale
    scale-left row m c b np h = ground (
      arith,
      mul-one p (m.left row c) (b.left_lt row c),
      mul-zero_lem p (m.right row row),
      (div_assign_lem p (m.left row c) (m.right row row) np).0,
      mul-div p (m.left row c) (m.right row row) np (b.left_lt row c) (b.right_lt row row),
    )

    scale-right :
        (row : ℕ) (m : Matrices) (c : ℕ)
        → IsBounded g m
        → m.right row row ≢ 0
        → c < rows
        → (c < row → m.right row c ≡ 0)
        → mul g (m.right row row) ((scale g leftcols rows row (m.right row row) m).right row c)
          ≡ m.right row c
    unfolding scale
    scale-right row m c b np h before = ground (
      arith,
      mul-one p (m.right row c) (b.right_lt row c),
      mul-one p (m.right row row) (b.right_lt row row),
      mul_comm p (m.right row row) 1,
      mul-zero_lem p (m.right row row),
      ap (m.right row) {x = c} {y = row},
      (div_assign_lem p (m.right row c) (m.right row row) np).0,
      mul-div p (m.right row c) (m.right row row) np (b.right_lt row c) (b.right_lt row row),
    )

    pub scale_other :
        (row k : ℕ) (m : Matrices) (r c : ℕ)
        → r ≢ row
        → ((scale g leftcols rows row k m).left r c ≡ m.left r c)
          × ((scale g leftcols rows row k m).right r c ≡ m.right r c)
    unfolding scale
    scale_other row k m r c ne = (ground arith, ground arith)

    pub scale-Holds :
        (row : ℕ) (m : Matrices) (r : ℕ)
        → IsBounded g m
        → m.right row row ≢ 0
        → ((c : ℕ) → c < row → c < rows → m.right row c ≡ 0)
        → Holds g leftcols rows x y m r
        → Holds g leftcols rows x y (scale g leftcols rows row (m.right row row) m) r
    scale-Holds row m r b np before old =
        let k = m.right row row in
        let m' = scale g leftcols rows row k m in
        let b' = scale-IsBounded row m b np in
        elim (ℕ_discrete r row) [
          | yes hit ↦ rw hit (
              mul_cancel p k _ _ np (b.right_lt row row)
                (sum-lt p leftcols _ (λ c _. mul-lt p _ _ (b'.left_lt row c) (hx c)))
                (sum-lt p rows _ (λ c _. mul-lt p _ _ (b'.right_lt row c) (hy c)))
                (sym (
                    dot_scaled leftcols k (m'.left row) (m.left row) x (b.right_lt row row)
                      (λ c _. b'.left_lt row c) hx (λ c h. scale-left row m c b np h))
                  ∙ (rw hit at old)
                  ∙ dot_scaled rows k (m'.right row) (m.right row) y (b.right_lt row row)
                      (λ c _. b'.right_lt row c) hy
                      (λ c h. scale-right row m c b np h (λ l. before c l h))))
          | no other ↦
              sum_congr leftcols _ _
                (λ c h. ap (λ t. mul g t (x c)) (scale_other row k m r c other).0)
              ∙ old
              ∙ sym (
                  sum_congr rows _ _
                    (λ c h. ap (λ t. mul g t (y c)) (scale_other row k m r c other).1))
        ]
