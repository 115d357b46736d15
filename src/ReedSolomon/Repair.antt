-- ===== src/ReedSolomon/Repair.antt =====
-- Compute of reedsolomon.h: what its matrices do to the data and the recovery blocks.
use native.Mathlib.Decide.{dec_lt}
use par2tbb.Base.{ℕ, ◌+◌, ◌-◌, ◌≤◌, ◌<◌, ◌≡◌, sym, ap, ap₂, subst, ◌∙◌, arith}
use par2tbb.Base.{ltb, inl, inr, Bool-cases, some}
use par2tbb.Base.{length, true, false}
use par2tbb.Base.Bits.{◌⊕◌, xor-zero, xor_comm, xor_cancel}
use par2tbb.Galois.{Shape, count, mul}
use par2tbb.Galois.Order.{IsPrimitive}
use par2tbb.Galois.Field.{mul-one, zero-mul_lem}
use par2tbb.ReedSolomon.{Matrices, Problem, exponents, matrices, compute, gauss_elim}
use par2tbb.ReedSolomon.Input.{nth}
use par2tbb.ReedSolomon.Sum.{sum, sum_single, sum_congr, sum-append, sum_zero}
use par2tbb.ReedSolomon.Row.{dot, Holds}
use par2tbb.ReedSolomon.Elimination.{Stage, gauss_elim-Stage, Stage-solves, unit}
use par2tbb.ReedSolomon.Equations.{
  present, missing, outcount, exponent, recovery, recovery_word, inputs, outputs, IsProblem,
  exponent-le, matrices-IsBounded, left_data, right_data, recovery_word-lt, left_cell_low,
  left_cell_high, right_cell_low, right_cell_high, inputs_recovery, outputs_recovery, exponent_low,
  exponent_high,
}

module _ {g : Shape} (f : IsPrimitive g) (p : Problem) (ok : IsProblem g p) (word : ℕ → ℕ)
    (fits : (i : ℕ) → word i < count g) where
  -- A row of the identity picks one value.
  sum-unit :
      (n r : ℕ) (v : ℕ → ℕ) → r < n → v r < count g → sum n (λ c. mul g (unit r c) (v c)) ≡ v r
  sum-unit n r v h l =
      sum_single n r (λ c. mul g (unit r c) (v c)) h
        (λ c hc ne. ap (λ t. mul g t (v c)) {y = 0} (ground arith) ∙ zero-mul_lem f (v c))
      ∙ ap (λ t. mul g t (v r)) {y = 1} (ground arith)
      ∙ mul-one f (v r) l

  left_low :
      (r : ℕ)
      → r < (missing p)
      → sum
          (missing p)
          (λ c. mul g ((matrices g p).left r ((present p) + c)) (inputs g p word ((present p) + c)))
        ≡ recovery_word g p word ((exponent p) r)
  left_low r h =
      let v = λ (c : ℕ). recovery_word g p word (nth (exponents true p.output_rows) c) in
      let same = ap (recovery_word g p word) (exponent_low g p word r h) in
      sum_congr (missing p) _ (λ c. mul g (unit r c) (v c))
        (λ c l. ap₂ (mul g) (left_cell_low g p word r c h) (inputs_recovery g p word c))
      ∙ sum-unit (missing p) r v h (
          subst (λ t. t < count g) (sym same)
            (recovery_word-lt f p ok word fits ((exponent p) r) (exponent-le f p ok word fits r)))
      ∙ same

  left_high :
      (r : ℕ)
      → (missing p) ≤ r
      → sum
          (missing p)
          (λ c. mul g ((matrices g p).left r ((present p) + c)) (inputs g p word ((present p) + c)))
        ≡ 0
  left_high r h = sum_zero (missing p) _ (λ c l.
      ap (λ t. mul g t (inputs g p word ((present p) + c))) (left_cell_high g p word r c h)
      ∙ zero-mul_lem f _)

  right_low :
      (r n : ℕ)
      → r < (missing p)
      → sum n (λ c.
        mul g ((matrices g p).right r ((missing p) + c)) (outputs g p word ((missing p) + c)))
        ≡ 0
  right_low r n h = sum_zero n _ (λ c l.
      ap (λ t. mul g t (outputs g p word ((missing p) + c))) (right_cell_low g p word r c h)
      ∙ zero-mul_lem f _)

  right_high :
      (r n : ℕ)
      → (missing p) ≤ r
      → r < (missing p) + n
      → sum n (λ c.
        mul g ((matrices g p).right r ((missing p) + c)) (outputs g p word ((missing p) + c)))
        ≡ recovery_word g p word ((exponent p) r)
  right_high r n h l =
      let v = λ (c : ℕ). recovery_word g p word (nth (exponents false p.output_rows) c) in
      let same = ap (recovery_word g p word) (exponent_high g p word r h) in
      sum_congr n _ (λ c. mul g (unit (r - (missing p)) c) (v c))
        (λ c l. ap₂ (mul g) (right_cell_high g p word r c h) (outputs_recovery g p word c))
      ∙ sum-unit n (r - (missing p)) v (omega arith) (
          subst (λ t. t < count g) (sym same)
            (recovery_word-lt f p ok word fits ((exponent p) r) (exponent-le f p ok word fits r)))
      ∙ same

  -- The matrices state the definition of the recovery blocks.
  matrices-Holds :
      (r : ℕ)
      → r < (outcount p)
      → Holds g
          ((present p) + (missing p))
          (outcount p)
          (inputs g p word)
          (outputs g p word)
          (matrices g p)
          r
  matrices-Holds r h =
      let data_in = recovery g p.database word p.present_index ((exponent p) r) in
      let data_out = recovery g p.database word p.missing_index ((exponent p) r) in
      let parity = length (exponents false p.output_rows) in
      sum-append (present p) (missing p) (λ c. mul g ((matrices g p).left r c) (inputs g p word c))
      ∙ ap
          (λ t.
            t
            ⊕ sum (missing p) (λ c.
              mul g ((matrices g p).left r ((present p) + c)) (inputs g p word ((present p) + c))))
          (left_data f p ok word fits r)
      ∙ elim (dec_lt r (missing p)) [
        | yes low ↦
            ap (λ t. data_in ⊕ t) (left_low r low)
            ∙ xor_cancel data_in data_out
            ∙ sym (ap (λ t. data_out ⊕ t) (right_low r parity low) ∙ xor-zero data_out)
        | no high ↦
            ap (λ t. data_in ⊕ t) (left_high r (omega arith))
            ∙ xor-zero data_in
            ∙ sym (
                ap (λ t. data_out ⊕ t) (right_high r parity (omega arith) h)
                ∙ ap (λ t. data_out ⊕ t) (xor_comm data_in data_out)
                ∙ xor_cancel data_out data_in)
      ]
      ∙ sym (
          ap
            (λ t.
              t
              ⊕ sum parity (λ c.
                mul g ((matrices g p).right r ((missing p) + c))
                  (outputs g p word ((missing p) + c))))
            (right_data f p ok word fits r))
      ∙ sym (
          sum-append (missing p) parity
            (λ c. mul g ((matrices g p).right r c) (outputs g p word c)))

  pub inputs-lt : (c : ℕ) → inputs g p word c < count g
  inputs-lt c = elim (Bool-cases (ltb c (present p))) [
    | inl low ↦ rw low (fits (nth p.present_index c))
    | inr high ↦
        rw high (recovery_word-lt f p ok word fits _ (ok.exponents_le true (c - (present p))))
  ]

  outputs-lt : (c : ℕ) → outputs g p word c < count g
  outputs-lt c = elim (Bool-cases (ltb c (missing p))) [
    | inl low ↦ rw low (fits (nth p.missing_index c))
    | inr high ↦
        rw high (recovery_word-lt f p ok word fits _ (ok.exponents_le false (c - (missing p))))
  ]

  rest_cell : (r c : ℕ) → (missing p) ≤ c → (matrices g p).right r c ≡ unit r c
  unfolding matrices
  rest_cell r c h = ground arith

  matrices-Stage :
      Stage g
        ((present p) + (missing p))
        (outcount p)
        (missing p)
        (inputs g p word)
        (outputs g p word)
        0
        (matrices g p)
  matrices-Stage = record {
    bounded = matrices-IsBounded f p ok word fits;
    holds = matrices-Holds;
    solved = λ r c hr hc. absurd (omega arith);
    rest = λ r c hr hm hc. rest_cell r c hm;
  }

  -- Without missing data the elimination has no round.
  compute-gauss_elim :
      (m : Matrices)
      → compute g p ≡ some m
      → gauss_elim g ((present p) + (missing p)) (outcount p) (missing p) 0 (matrices g p) ≡ some m
  unfolding compute gauss_elim
  compute-gauss_elim m done = elim (Bool-cases (ltb 0 (missing p))) [
    | inl some_missing ↦ ground arith
    | inr none_missing ↦
        ap (λ n. gauss_elim g ((present p) + (missing p)) (outcount p) n 0 (matrices g p)) {y = 0}
          (ground arith)
        ∙ ground arith
  ]

  -- What Compute returns has the identity on the right, and the equations still hold.
  pub compute-Stage :
      (m : Matrices)
      → compute g p ≡ some m
      → Stage g
          ((present p) + (missing p))
          (outcount p)
          (missing p)
          (inputs g p word)
          (outputs g p word)
          (missing p)
          m
  compute-Stage m done =
      gauss_elim-Stage f ((present p) + (missing p)) (outcount p) (missing p) (inputs g p word)
        (outputs g p word) inputs-lt outputs-lt (omega arith) (missing p) 0 (matrices g p) m
        (omega arith) matrices-Stage (compute-gauss_elim m done)

  -- For base values in the field, exponents up to the period and data words in the field: when
  -- Compute succeeds, each row of the left matrix, applied to the present data blocks and the
  -- recovery blocks that stand in, gives the missing data block or the missing recovery block
  -- of that row.
  pub compute_repairs :
      (m : Matrices) (r : ℕ)
      → compute g p ≡ some m
      → r < (outcount p)
      → dot g ((present p) + (missing p)) (m.left r) (inputs g p word) ≡ outputs g p word r
  compute_repairs m r done h =
      Stage-solves f ((present p) + (missing p)) (outcount p) (missing p) (inputs g p word)
        (outputs g p word) inputs-lt outputs-lt (omega arith) m r (compute-Stage m done) h
