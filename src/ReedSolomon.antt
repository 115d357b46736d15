-- ===== src/ReedSolomon.antt =====
-- reedsolomon.h and reedsolomon.cpp: the base values of the inputs, the matrices of Compute and
-- their solution by GaussElim, for any template instance of Galois.
-- A matrix is a function of row and column; a loop over the columns of one row, whose rounds do
-- not depend on one another, is a function of the column. `none` is the result `false`.
pub mod Input
pub mod Sum
pub mod Row
pub mod Elimination
pub mod Equations
pub mod Repair
pub mod Process
use par2tbb.Base.{ℕ, zero, suc, ◌+◌, ◌-◌, ◌*◌, ◌/◌, ◌%◌, ◌^◌, ltb, leb, ◌==◌, if◌then◌else◌}
use par2tbb.Base.{Bool, true, false, ◌&&◌, not, Option, none, some, List, [], ◌∷◌, ◌++◌, length}
use par2tbb.Galois.{Shape, limit, add, mul, div_assign, pow, alog_of, galois16}
use Input.{nth}

-- RSOutputRow
pub record OutputRow : Type 0 where
  pub present : Bool
  pub exponent : ℕ

-- The members of ReedSolomon that Compute reads. An index array is the list of what was stored
-- in it, and its count is the length.
pub record Problem : Type 0 where
  pub present_index : List ℕ
  pub missing_index : List ℕ
  pub database : List ℕ
  pub output_rows : List OutputRow

-- SetOutput for one exponent, and the loop over a range of them with its rounds left.
unfoldable pub set_output : Bool → ℕ → List OutputRow → List OutputRow
set_output present exponent rows = rows ++ record { present = present; exponent = exponent } ∷ []

unfoldable pub set_outputs : Bool → ℕ → ℕ → List OutputRow → List OutputRow
set_outputs present exponent zero rows = rows
set_outputs present exponent (suc n) rows =
    set_outputs present (exponent + 1) n (set_output present exponent rows)

unfoldable pub set_output_range : Bool → ℕ → ℕ → List OutputRow → List OutputRow
set_output_range present lowexponent highexponent rows =
    set_outputs present lowexponent (highexponent + 1 - lowexponent) rows

pub record Matrices : Type 0 where
  pub left : ℕ → ℕ → ℕ
  pub right : ℕ → ℕ → ℕ

module _ (g : Shape) (leftcols rows : ℕ) where
  -- The pivot row divided by the pivot, where it is not 1.
  unfoldable pub scale : ℕ → ℕ → Matrices → Matrices
  scale row pivot m =
      let left_cell = λ (r c : ℕ).
        if r == row && ltb c leftcols && not (m.left r c == 0)
        then div_assign g (m.left r c) pivot
        else m.left r c in
      let right_cell = λ (r c : ℕ).
        if r == row && c == row
        then 1
        else if r == row && ltb row c && ltb c rows && not (m.right r c == 0)
        then div_assign g (m.right r c) pivot
        else m.right r c in
      if pivot == 1 then m else record { left = left_cell; right = right_cell }

  -- Subtracting the pivot row from `row2`, as it is or times the scaling factor.
  unfoldable pub eliminate : ℕ → ℕ → Matrices → Matrices
  eliminate row row2 m =
      let scalevalue = m.right row2 row in
      let subtract = λ (factor : ℕ → ℕ).
        let left_cell = λ (r c : ℕ).
          if r == row2 && ltb c leftcols && not (m.left row c == 0)
          then add (m.left r c) (factor (m.left row c))
          else m.left r c in
        let right_cell = λ (r c : ℕ).
          if r == row2 && leb row c && ltb c rows && not (m.right row c == 0)
          then add (m.right r c) (factor (m.right row c))
          else m.right r c in
        let result : Matrices = record { left = left_cell; right = right_cell } in result in
      if row2 == row
      then m
      else if scalevalue == 1
      then subtract (λ v. v)
      else if scalevalue == 0
      then m
      else subtract (λ v. mul g v scalevalue)

  -- For every other row, at `row2` with the rounds that are left.
  unfoldable pub eliminate_rows : ℕ → ℕ → ℕ → Matrices → Matrices
  eliminate_rows row zero row2 m = m
  eliminate_rows row (suc n) row2 m = eliminate_rows row n (row2 + 1) (eliminate row row2 m)

  -- GaussElim, at pivot `row` with the pivots that are left.
  unfoldable pub gauss_elim : ℕ → ℕ → Matrices → Option Matrices
  gauss_elim zero row m = some m
  gauss_elim (suc n) row m =
      let next =
        gauss_elim n (row + 1) (eliminate_rows row rows 0 (scale row (m.right row row) m)) in
      if m.right row row == 0 then none else next

-- The exponents that the cursor over the output rows meets, of present or of missing blocks.
unfoldable pub exponents : Bool → List OutputRow → List ℕ
exponents wanted [] = []
exponents true (r ∷ rows) =
    if r.present then r.exponent ∷ exponents true rows else exponents true rows
exponents false (r ∷ rows) =
    if r.present then exponents false rows else r.exponent ∷ exponents false rows

-- Filling in the two matrices: first one row for each missing data block, with the exponent of
-- a present recovery block, then one for each missing recovery block.
unfoldable pub matrices : Shape → Problem → Matrices
matrices g p =
    let present = length p.present_index in
    let missing = length p.missing_index in
    let exponent = λ (row : ℕ).
      if ltb row missing
      then nth (exponents true p.output_rows) row
      else nth (exponents false p.output_rows) (row - missing) in
    let base_power =
      λ (index : List ℕ) (row col : ℕ). pow g (nth p.database (nth index col)) (exponent row) in
    record {
      left = λ row col.
          if ltb col present
          then base_power p.present_index row col
          else if ltb row missing && row == col - present
          then 1
          else 0;
      right = λ row col.
          if ltb col missing
          then base_power p.missing_index row col
          else if leb missing row && row == col
          then 1
          else 0;
    }

-- Compute: the left matrix that Process reads, or `none` for an error.
unfoldable pub compute : Shape → Problem → Option Matrices
compute g p =
    let missing = length p.missing_index in
    let outcount = missing + length (exponents false p.output_rows) in
    let incount = length p.present_index + missing in
    let m = matrices g p in
    if ltb (length (exponents true p.output_rows)) missing
    then none
    else if outcount == 0
    then none
    else if ltb 0 missing
    then gauss_elim g incount outcount missing 0 m
    else some m
