-- ===== src/Creator/Rounds.antt =====
-- The loops of par2creator.cpp that choose the number of recovery files, the blocks of the
-- smallest one, and the files of scLimited that are full.
use native.Mathlib.Nat.{two-pow-succ, mul-le-mul_left}
use par2tbb.Base.{ℕ, zero, suc, ◌+◌, ◌-◌, ◌*◌, ◌/◌, ◌≤◌, ◌<◌, ◌^◌, ◌≡◌, refl, ap, ◌∙◌, subst, arith}
use par2tbb.Base.{List, ◌∷◌, length, ltb, leb, Bool-cases, true, false, inl, inr, ◌⊎◌}
use par2tbb.Creator.{u32}
use par2tbb.Creator.Allocation.{FileAllocation, halvings, smallest_file, fill_top}
use par2tbb.Creator.Exponents.{IsContiguous, one_le-pow}

pub halvings-add :
    (fuel files blocks : ℕ) → halvings fuel files blocks ≡ files + halvings fuel 0 blocks
unfolding halvings
halvings-add zero files blocks = omega arith
halvings-add (suc fuel) files blocks = elim (Bool-cases (ltb 0 blocks)) [
  | inl some_left ↦ rw some_left (
      omega
        (arith, halvings-add fuel (files + 1) (blocks / 2), halvings-add fuel (0 + 1) (blocks / 2)))
  | inr none_left ↦ rw none_left (omega arith)
]

-- With enough fuel the rounds double up to more than the number.
pub halvings_cover : (fuel blocks : ℕ) → blocks ≤ fuel → blocks < 2 ^ halvings fuel 0 blocks
unfolding halvings
halvings_cover zero blocks h = omega arith
halvings_cover (suc fuel) blocks h = elim (Bool-cases (ltb 0 blocks)) [
  | inl some_left ↦
      let positive : 0 < blocks = ground arith in
      let rest = halvings fuel 0 (blocks / 2) in
      let more : halvings fuel (0 + 1) (blocks / 2) ≡ suc rest =
        omega (arith, halvings-add fuel (0 + 1) (blocks / 2)) in
      rw (some_left, more)
        (omega (arith, two-pow-succ rest, halvings_cover fuel (blocks / 2) (omega arith)))
  | inr none_left ↦ rw none_left (ground arith)
]

pub halvings_positive : (blocks : ℕ) → 0 < blocks → 0 < halvings blocks 0 blocks
unfolding halvings
halvings_positive zero h = absurd (omega arith)
halvings_positive (suc blocks) h =
    let some_left : ltb 0 (suc blocks) ≡ true = ground arith in
    rw some_left (omega (arith, halvings-add blocks (0 + 1) (suc blocks / 2)))

pub halvings_le : (fuel blocks : ℕ) → halvings fuel 0 blocks ≤ blocks
unfolding halvings
halvings_le zero blocks = omega arith
halvings_le (suc fuel) blocks = elim (Bool-cases (ltb 0 blocks)) [
  | inl some_left ↦
      let positive : 0 < blocks = ground arith in
      rw some_left
        (omega (arith, halvings-add fuel (0 + 1) (blocks / 2), halvings_le fuel (blocks / 2)))
  | inr none_left ↦ rw none_left (omega arith)
]

-- A number of at most `digits` binary digits takes as many rounds at most.
pub halvings_digits :
    (fuel digits blocks : ℕ) → blocks < 2 ^ digits → halvings fuel 0 blocks ≤ digits
unfolding halvings
halvings_digits zero digits blocks h = omega arith
halvings_digits (suc fuel) zero blocks h =
    let none_left : ltb 0 blocks ≡ false = ground arith in rw none_left (omega arith)
halvings_digits (suc fuel) (suc digits) blocks h = elim (Bool-cases (ltb 0 blocks)) [
  | inl some_left ↦
      let half : blocks / 2 < 2 ^ digits = omega (arith, two-pow-succ digits) in
      rw some_left (
        omega (
          arith,
          halvings-add fuel (0 + 1) (blocks / 2),
          halvings_digits fuel digits (blocks / 2) half,
        ))
  | inr none_left ↦ rw none_left (omega arith)
]

-- The blocks of the smallest file, doubled for each of the others, are enough for all.
pub record IsEnough (files blocks low : ℕ) : Type 0 where
  pub enough : blocks + low ≤ low * 2 ^ files
  pub small : low * 2 ^ files < 2 ^ 32

pub smallest_file-IsEnough :
    (fuel files blocks low most : ℕ)
    → 0 < files
    → 0 < low
    → blocks < 65536
    → blocks ≤ fuel + most
    → most + low ≡ low * 2 ^ files
    → low * 2 ^ files < 2 ^ 32
    → IsEnough files blocks (smallest_file fuel blocks low most)
unfolding smallest_file
smallest_file-IsEnough zero files blocks low most some_files positive bound fuel_left sum small =
    record { enough = omega arith; small = small }
smallest_file-IsEnough (suc fuel) zero blocks low most some_files positive bound fuel_left sum
      small =
    absurd (omega arith)
smallest_file-IsEnough (suc fuel) (suc files) blocks low most some_files positive bound fuel_left
      sum small =
    let product : low * 2 ^ suc files ≡ 2 * (low * 2 ^ files) =
      ap (λ p. low * p) (two-pow-succ files) ∙ omega arith in
    let grows : low * 1 ≤ low * 2 ^ files = mul-le-mul_left low (one_le-pow files) in
    elim (Bool-cases (ltb most blocks)) [
      | inl fewer ↦
          let below : most < blocks = ground arith in
          let twice : u32 (low * 2) ≡ low * 2 = omega arith in
          let most_twice : u32 (most * 2) ≡ most * 2 = omega arith in
          let product_twice : low * 2 * 2 ^ suc files ≡ 2 * (low * 2 ^ suc files) = omega arith in
          rw (fewer, twice, most_twice)
            (smallest_file-IsEnough fuel (suc files) blocks (low * 2) (most * 2) some_files
              (omega arith) bound (omega arith) (omega arith) (omega arith))
      | inr enough ↦ rw enough record { enough = ground arith; small = small }
    ]

-- What the loop for the full files leaves: the first files, their blocks, and the files behind.
pub record IsFilled (files blocks from to count : ℕ) (r : ℕ × ℕ × List FileAllocation)
    : Type 0 where
  pub left : r.0 ≡ files
  pub blocks_left : r.1 ≡ blocks
  pub contiguous : IsContiguous from r.2 to
  pub size : length r.2 ≡ count

pub fill_top-IsFilled :
    (filenumber whole files largest exponent blocks extra to : ℕ) (behind : List FileAllocation)
    → filenumber ≡ whole + files
    → 0 < files
    → blocks ≡ whole * largest + extra
    → extra < 2 * largest
    → (whole ≡ 0) ⊎ (largest ≤ extra)
    → 2 * largest < 2 ^ 32
    → blocks ≤ exponent
    → IsContiguous exponent behind to
    → IsFilled files extra
        (exponent - whole * largest)
        to
        (whole + length behind)
        (fill_top filenumber largest exponent blocks behind)
unfolding fill_top
fill_top-IsFilled zero whole files largest exponent blocks extra to behind number some_files sum
      less more small room rest =
    absurd (omega arith)
fill_top-IsFilled (suc filenumber) zero files largest exponent blocks extra to behind number
      some_files sum less more small room rest =
    let ended : leb (u32 (2 * largest)) blocks ≡ false = ground arith in
    rw ended record {
      left = number ∙ omega arith;
      blocks_left = omega arith;
      contiguous =
          subst (λ from. IsContiguous from behind to) {x = exponent} {y = exponent - 0 * largest}
            (omega arith) rest;
      size = omega arith;
    }
fill_top-IsFilled (suc filenumber) (suc whole) files largest exponent blocks extra to behind number
      some_files sum less more small room rest =
    let at_least : largest ≤ extra = ground arith in
    let goes_on : leb (u32 (2 * largest)) blocks ≡ true = ground arith in
    let entry : FileAllocation = record { exponent = exponent - largest; count = largest } in
    let product : suc whole * largest ≡ whole * largest + largest = omega arith in
    let back : exponent ≡ exponent - largest + largest = omega arith in
    let top =
      fill_top filenumber largest (exponent - largest) (blocks - largest) (entry ∷ behind) in
    let filled =
      fill_top-IsFilled filenumber whole files largest (exponent - largest) (blocks - largest) extra
        to (entry ∷ behind) (omega arith) some_files (omega arith) less (inr at_least) small
        (omega arith) (refl, subst (λ from. IsContiguous from behind to) back rest) in
    rw goes_on record {
      left = filled.left;
      blocks_left = filled.blocks_left;
      contiguous =
          subst (λ from. IsContiguous from top.2 to) {x = exponent - largest - whole * largest}
            {y = exponent - suc whole * largest} (omega arith) filled.contiguous;
      size = filled.size ∙ omega arith;
    }
