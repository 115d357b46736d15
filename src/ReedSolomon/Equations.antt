-- ===== src/ReedSolomon/Equations.antt =====
-- The entries of the matrices of reedsolomon.h, and the recovery blocks that they stand for.
use par2tbb.Base.{ℕ, zero, suc, ◌+◌, ◌-◌, ◌^◌, ◌≤◌, ◌<◌, ◌≡◌, ◌∙◌, ◌*◌, arith}
use par2tbb.Base.{ltb, if◌then◌else◌, inl, inr, Bool-cases}
use par2tbb.Base.{List, [], ◌∷◌, length, Bool, true, false}
use par2tbb.Base.Bits.{◌⊕◌, xor-lt}
use par2tbb.Galois.{Shape, count, limit, mul, pow}
use par2tbb.Galois.Order.{IsPrimitive, one-lt-count}
use par2tbb.Galois.Field.{mul-lt}
use par2tbb.ReedSolomon.{Problem, exponents, matrices}
use par2tbb.ReedSolomon.Input.{nth}
use par2tbb.Galois.Power.{power, pow-eq-power}
use par2tbb.ReedSolomon.Sum.{sum, sum_congr, sum-nth, sum_list}
use par2tbb.ReedSolomon.Row.{IsBounded}
use par2tbb.ReedSolomon.Elimination.{unit}

module _ (p : Problem) where
  abbrev pub present : ℕ
  present = length p.present_index

  abbrev pub missing : ℕ
  missing = length p.missing_index

  abbrev pub outcount : ℕ
  outcount = missing + length (exponents false p.output_rows)

  abbrev pub exponent : ℕ → ℕ
  exponent row =
      if ltb row missing
      then nth (exponents true p.output_rows) row
      else nth (exponents false p.output_rows) (row - missing)

-- The recovery word for an exponent: the sum of the data words, each times a power of its base.
pub recovery : Shape → List ℕ → (ℕ → ℕ) → List ℕ → ℕ → ℕ
recovery g database word indices e =
    sum_list (λ i. mul g (pow g (nth database i) e) (word i)) indices

module _ (g : Shape) (p : Problem) (word : ℕ → ℕ) where
  -- The word that the recovery block for `e` holds at this place.
  abbrev pub recovery_word : ℕ → ℕ
  recovery_word e =
      recovery g p.database word p.present_index e ⊕ recovery g p.database word p.missing_index e

  -- The inputs of the left matrix: present data, then the recovery blocks that stand in.
  abbrev pub inputs : ℕ → ℕ
  inputs c =
      if ltb c (length p.present_index)
      then word (nth p.present_index c)
      else recovery_word (nth (exponents true p.output_rows) (c - length p.present_index))

  -- The outputs: missing data, then the missing recovery blocks.
  abbrev pub outputs : ℕ → ℕ
  outputs r =
      if ltb r (length p.missing_index)
      then word (nth p.missing_index r)
      else recovery_word (nth (exponents false p.output_rows) (r - length p.missing_index))

  -- The columns of the recovery blocks.
  pub left_cell_low :
      (r c : ℕ) → r < (missing p) → (matrices g p).left r ((present p) + c) ≡ unit r c
  unfolding matrices
  left_cell_low r c h = ground arith

  pub left_cell_high : (r c : ℕ) → (missing p) ≤ r → (matrices g p).left r ((present p) + c) ≡ 0
  unfolding matrices
  left_cell_high r c h = ground arith

  pub right_cell_low : (r c : ℕ) → r < (missing p) → (matrices g p).right r ((missing p) + c) ≡ 0
  unfolding matrices
  right_cell_low r c h = ground arith

  pub right_cell_high :
      (r c : ℕ)
      → (missing p) ≤ r
      → (matrices g p).right r ((missing p) + c) ≡ unit (r - (missing p)) c
  unfolding matrices
  right_cell_high r c h = ground arith

  pub inputs_recovery :
      (c : ℕ) → inputs ((present p) + c) ≡ recovery_word (nth (exponents true p.output_rows) c)
  inputs_recovery c =
      let past : ltb ((present p) + c) (present p) ≡ false = ground arith in
      let at : (present p) + c - (present p) ≡ c = omega arith in rw (past, at)

  pub outputs_recovery :
      (c : ℕ) → outputs ((missing p) + c) ≡ recovery_word (nth (exponents false p.output_rows) c)
  outputs_recovery c =
      let past : ltb ((missing p) + c) (missing p) ≡ false = ground arith in
      let at : (missing p) + c - (missing p) ≡ c = omega arith in rw (past, at)

  pub exponent_low :
      (r : ℕ) → r < (missing p) → nth (exponents true p.output_rows) r ≡ (exponent p) r
  exponent_low r h = let low : ltb r (missing p) ≡ true = ground arith in rw low

  pub exponent_high :
      (r : ℕ)
      → (missing p) ≤ r
      → nth (exponents false p.output_rows) (r - (missing p)) ≡ (exponent p) r
  exponent_high r h = let high : ltb r (missing p) ≡ false = ground arith in rw high

-- The base values are values of the field, and the exponents are below its period.
pub record IsProblem (g : Shape) (p : Problem) : Type 0 where
  pub small : limit g * limit g ≤ 2 ^ 32
  pub bases_lt : (i : ℕ) → nth p.database i < count g
  pub exponents_le : (here : Bool) (i : ℕ) → nth (exponents here p.output_rows) i ≤ limit g

power-lt : {g : Shape} (f : IsPrimitive g) (a n : ℕ) → a < count g → power g a n < count g
unfolding power
power-lt f a zero h = one-lt-count f
power-lt {g} f a (suc n) h = mul-lt f a (power g a n) h (power-lt f a n h)

module _ {g : Shape} (f : IsPrimitive g) (p : Problem) (ok : IsProblem g p) (word : ℕ → ℕ)
    (fits : (i : ℕ) → word i < count g) where
  pub exponent-le : (row : ℕ) → (exponent p) row ≤ limit g
  exponent-le row = elim (Bool-cases (ltb row (missing p))) [
    | inl low ↦ rw low (ok.exponents_le true row)
    | inr high ↦ rw high (ok.exponents_le false (row - (missing p)))
  ]

  pub pow-lt : (i e : ℕ) → e ≤ limit g → pow g (nth p.database i) e < count g
  pow-lt i e h =
      rw (pow-eq-power f (nth p.database i) e (ok.bases_lt i) h ok.small)
        (power-lt f (nth p.database i) e (ok.bases_lt i))

  pub matrices-IsBounded : IsBounded g (matrices g p)
  unfolding matrices
  matrices-IsBounded = record {
    left_lt = λ r c.
        ground
          (arith, pow-lt (nth p.present_index c) ((exponent p) r) (exponent-le r), one-lt-count f);
    right_lt = λ r c.
        ground
          (arith, pow-lt (nth p.missing_index c) ((exponent p) r) (exponent-le r), one-lt-count f);
  }

  -- The sums of a row over the data columns.
  pub left_data :
      (r : ℕ)
      → sum (present p) (λ c. mul g ((matrices g p).left r c) (inputs g p word c))
        ≡ recovery g p.database word p.present_index ((exponent p) r)
  unfolding matrices recovery
  left_data r =
      sum_congr (present p) _
        (λ c.
          mul g (pow g (nth p.database (nth p.present_index c)) ((exponent p) r))
            (word (nth p.present_index c)))
        (λ c h. ground arith)
      ∙ sum-nth (λ i. mul g (pow g (nth p.database i) ((exponent p) r)) (word i)) p.present_index

  pub right_data :
      (r : ℕ)
      → sum (missing p) (λ c. mul g ((matrices g p).right r c) (outputs g p word c))
        ≡ recovery g p.database word p.missing_index ((exponent p) r)
  unfolding matrices recovery
  right_data r =
      sum_congr (missing p) _
        (λ c.
          mul g (pow g (nth p.database (nth p.missing_index c)) ((exponent p) r))
            (word (nth p.missing_index c)))
        (λ c h. ground arith)
      ∙ sum-nth (λ i. mul g (pow g (nth p.database i) ((exponent p) r)) (word i)) p.missing_index

  pub recovery-lt : (is : List ℕ) (e : ℕ) → e ≤ limit g → recovery g p.database word is e < count g
  unfolding recovery sum_list
  recovery-lt [] e h = omega (arith, one-lt-count f)
  recovery-lt (i ∷ is) e h =
      xor-lt g.bits _ _ (mul-lt f _ _ (pow-lt i e h) (fits i)) (recovery-lt is e h)

  pub recovery_word-lt : (e : ℕ) → e ≤ limit g → recovery_word g p word e < count g
  recovery_word-lt e h =
      xor-lt g.bits _ _ (recovery-lt p.present_index e h) (recovery-lt p.missing_index e h)
