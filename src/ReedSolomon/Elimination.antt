-- ===== src/ReedSolomon/Elimination.antt =====
-- The loops of GaussElim in reedsolomon.h and their invariant.
use native.Mathlib.Decide.{ℕ_discrete, dec_lt}
use par2tbb.Base.{ℕ, zero, suc, ◌+◌, ◌≤◌, ◌<◌, ◌≡◌, ◌≢◌, ap, subst, ◌∙◌, arith}
use par2tbb.Base.{◌==◌, if◌then◌else◌, inl, inr, Bool-cases, some}
use mathlib.Core.Option.{some-injective}
use par2tbb.Base.Bits.{◌⊕◌, xor_self}
use par2tbb.Galois.{Shape, count, mul}
use par2tbb.Galois.Order.{IsPrimitive}
use par2tbb.Galois.Field.{mul-one, mul_comm, zero-mul_lem}
use par2tbb.ReedSolomon.{Matrices, scale, eliminate, eliminate_rows, gauss_elim}
use par2tbb.ReedSolomon.Sum.{sum_single}
use par2tbb.ReedSolomon.Row.{
  IsBounded, dot, Holds, eliminate-right, eliminate_other, eliminate_self,
}
use par2tbb.ReedSolomon.Row.{eliminate-IsBounded, eliminate-Holds, scale-IsBounded, scale-Holds}
use par2tbb.ReedSolomon.Row.{scale_other}

-- A cell of the identity matrix.
abbrev pub unit : ℕ → ℕ → ℕ
unit r c = if r == c then 1 else 0

module _ (g : Shape) (leftcols rows missing : ℕ) (x y : ℕ → ℕ) where
  -- After `k` pivots: the equations hold, and the columns of the pivots and those past the
  -- missing blocks are the identity's.
  pub record Stage (k : ℕ) (m : Matrices) : Type 0 where
    pub bounded : IsBounded g m
    pub holds : (r : ℕ) → r < rows → Holds g leftcols rows x y m r
    pub solved : (r c : ℕ) → r < rows → c < k → m.right r c ≡ unit r c
    pub rest : (r c : ℕ) → r < rows → missing ≤ c → c < rows → m.right r c ≡ unit r c

  -- Within pivot `k`: its row is scaled, and its column is clear in the rows before `row2`.
  pub record Within (k row2 : ℕ) (m : Matrices) : Type 0 where
    pub stage : Stage k m
    pub one : m.right k k ≡ 1
    pub clear : (r : ℕ) → r < row2 → r < rows → r ≢ k → m.right r k ≡ 0

module _ {g : Shape} (p : IsPrimitive g) (leftcols rows missing : ℕ) (x y : ℕ → ℕ)
    (hx : (c : ℕ) → x c < count g) (hy : (c : ℕ) → y c < count g) (fits : missing ≤ rows) where
  before_pivot :
      {k : ℕ} {m : Matrices}
      → Stage g leftcols rows missing x y k m
      → k < rows
      → (c : ℕ) → c < k
      → c < rows
      → m.right k c ≡ 0
  before_pivot {k} s h c l _ = s.solved k c h l ∙ ground arith

  scale_pivot : (k : ℕ) (m : Matrices) → (scale g leftcols rows k (m.right k k) m).right k k ≡ 1
  unfolding scale
  scale_pivot k m = ground arith

  scale_zero :
      (k v : ℕ) (m : Matrices) (c : ℕ)
      → c ≢ k
      → m.right k c ≡ 0
      → (scale g leftcols rows k v m).right k c ≡ 0
  unfolding scale
  scale_zero k v m c ne e = ground arith

  -- Cells that are the identity's stay so when the pivot row is scaled.
  scale_keeps :
      (k v : ℕ) (m : Matrices) (r c : ℕ)
      → c ≢ k
      → m.right r c ≡ unit r c
      → (scale g leftcols rows k v m).right r c ≡ unit r c
  scale_keeps k v m r c ne e = elim (ℕ_discrete r k) [
    | yes hit ↦
        let e' : m.right k c ≡ 0 = (rw hit at e) ∙ ground arith in
        rw hit (scale_zero k v m c ne e' ∙ ground arith)
    | no other ↦ (scale_other p leftcols rows x y hx hy k v m r c other).1 ∙ e
  ]

  scale-Within :
      (k : ℕ) (m : Matrices)
      → k < missing
      → m.right k k ≢ 0
      → Stage g leftcols rows missing x y k m
      → Within g leftcols rows missing x y k 0 (scale g leftcols rows k (m.right k k) m)
  scale-Within k m h np s = record {
    stage = record {
      bounded = scale-IsBounded p leftcols rows x y hx hy k m s.bounded np;
      holds = λ r hr.
          scale-Holds p leftcols rows x y hx hy k m r s.bounded np (before_pivot s (omega arith))
            (s.holds r hr);
      solved = λ r c hr hc. scale_keeps k (m.right k k) m r c (omega arith) (s.solved r c hr hc);
      rest = λ r c hr hm hc. scale_keeps k (m.right k k) m r c (omega arith) (s.rest r c hr hm hc);
    };
    one = scale_pivot k m;
    clear = λ r l hr ne. absurd (omega arith);
  }

  eliminate_keeps :
      (k row2 : ℕ) (m : Matrices) (r c : ℕ)
      → (k ≤ c → m.right k c ≡ 0)
      → (eliminate g leftcols rows k row2 m).right r c ≡ m.right r c
  unfolding eliminate
  eliminate_keeps k row2 m r c e = ground arith

  -- The pivot column of the row that is worked on becomes 0.
  cleared :
      (k row2 : ℕ) (m : Matrices)
      → k < missing
      → row2 ≢ k
      → Within g leftcols rows missing x y k row2 m
      → (eliminate g leftcols rows k row2 m).right row2 k ≡ 0
  cleared k row2 m h ne w =
      let v = m.right row2 k in
      eliminate-right p leftcols rows k row2 m k w.stage.bounded ne (omega arith)
        (λ l. absurd (omega arith))
      ∙ ap (λ t. v ⊕ mul g v t) w.one
      ∙ ap (λ t. v ⊕ t) (mul_comm p v 1 ∙ mul-one p v (w.stage.bounded.right_lt row2 k))
      ∙ xor_self v

  eliminate-Within :
      (k row2 : ℕ) (m : Matrices)
      → k < missing
      → row2 < rows
      → Within g leftcols rows missing x y k row2 m
      → Within g leftcols rows missing x y k (row2 + 1) (eliminate g leftcols rows k row2 m)
  eliminate-Within k row2 m h h2 w =
      let s = w.stage in
      record {
        stage = record {
          bounded = eliminate-IsBounded p leftcols rows k row2 m s.bounded;
          holds = λ r hr.
              eliminate-Holds p leftcols rows x y hx hy k row2 m r s.bounded
                (before_pivot s (omega arith)) (s.holds k (omega arith)) (s.holds r hr);
          solved = λ r c hr hc.
              eliminate_keeps k row2 m r c (λ le. absurd (omega arith)) ∙ s.solved r c hr hc;
          rest = λ r c hr hm hc.
              eliminate_keeps k row2 m r c (λ _. s.rest k c (omega arith) hm hc ∙ ground arith)
              ∙ s.rest r c hr hm hc;
        };
        one = elim (ℕ_discrete k row2) [
          | yes same ↦ rw (← same, eliminate_self p leftcols rows k m) w.one
          | no ne ↦ (eliminate_other p leftcols rows k row2 m k k ne).1 ∙ w.one
        ];
        clear = λ r l hr ne. elim (ℕ_discrete r row2) [
          | yes at ↦ rw at (cleared k row2 m h (λ same. ne (at ∙ same)) w)
          | no other ↦
              (eliminate_other p leftcols rows k row2 m r k other).1 ∙ w.clear r (omega arith) hr ne
        ];
      }

  eliminate_rows-Within :
      (n k row2 : ℕ) (m : Matrices)
      → k < missing
      → row2 + n ≡ rows
      → Within g leftcols rows missing x y k row2 m
      → Within g leftcols rows missing x y k rows (eliminate_rows g leftcols rows k n row2 m)
  unfolding eliminate_rows
  eliminate_rows-Within zero k row2 m h e w =
      subst (λ t. Within g leftcols rows missing x y k t m) {x = row2} (omega arith) w
  eliminate_rows-Within (suc n) k row2 m h e w =
      eliminate_rows-Within n k (row2 + 1) (eliminate g leftcols rows k row2 m) h (omega arith)
        (eliminate-Within k row2 m h (omega arith) w)

  Within-Stage :
      (k : ℕ) (m : Matrices)
      → Within g leftcols rows missing x y k rows m
      → Stage g leftcols rows missing x y (k + 1) m
  Within-Stage k m w = record {
    bounded = w.stage.bounded;
    holds = w.stage.holds;
    solved = λ r c hr hc. elim (ℕ_discrete c k) [
      | yes at ↦ rw at (elim (ℕ_discrete r k) [
        | yes hit ↦ rw hit (w.one ∙ ground arith)
        | no other ↦ w.clear r hr hr other ∙ ground arith
      ])
      | no ne ↦ w.stage.solved r c hr (omega arith)
    ];
    rest = w.stage.rest;
  }

  pub gauss_elim-Stage :
      (n k : ℕ) (m m' : Matrices)
      → k + n ≡ missing
      → Stage g leftcols rows missing x y k m
      → gauss_elim g leftcols rows n k m ≡ some m'
      → Stage g leftcols rows missing x y missing m'
  unfolding gauss_elim
  gauss_elim-Stage zero k m m' e s done =
      let at : k ≡ missing = omega arith in
      subst (λ t. Stage g leftcols rows missing x y missing t) (some-injective m m' done)
        (subst (λ t. Stage g leftcols rows missing x y t m) at s)
  gauss_elim-Stage (suc n) k m m' e s done = elim (Bool-cases (m.right k k == 0)) [
    | inl zero_pivot ↦ absurd (ground arith)
    | inr np ↦
        gauss_elim-Stage n (k + 1) _ m' (omega arith)
          (Within-Stage k _ (
            eliminate_rows-Within rows k 0 _ (omega arith) (omega arith)
              (scale-Within k m (omega arith) (ground arith) s)))
          (ground arith)
  ]

  -- With the identity on the right, the left matrix computes the outputs.
  pub Stage-solves :
      (m : Matrices) (r : ℕ)
      → Stage g leftcols rows missing x y missing m
      → r < rows
      → dot g leftcols (m.left r) x ≡ y r
  Stage-solves m r s h =
      s.holds r h
      ∙ sum_single rows r (λ c. mul g (m.right r c) (y c)) h
          (λ c hc ne. ap (λ t. mul g t (y c)) (cell c hc ∙ ground arith) ∙ zero-mul_lem p (y c))
      ∙ ap (λ t. mul g t (y r)) (cell r h ∙ ground arith)
      ∙ mul-one p (y r) (hy r)
    where
      cell : (c : ℕ) → c < rows → m.right r c ≡ unit r c
      cell c hc = elim (dec_lt c missing) [
        | yes l ↦ s.solved r c h l
        | no ge ↦ s.rest r c h (omega arith) hc
      ]
