-- ===== src/Creator/Whole.antt =====
-- The number of files that ComputeRecoveryFileCount of par2creator.cpp gives for scLimited, as full
-- files and others.
use native.Mathlib.Nat.{div-mul-le_self, div-lt_iff_lt-mul}
use par2tbb.Base.{ℕ, zero, suc, ◌+◌, ◌-◌, ◌*◌, ◌/◌, ◌≤◌, ◌<◌, ◌^◌, ◌≡◌, refl, ap, arith}
use par2tbb.Base.{leb, if◌then◌else◌, inl, inr, ◌⊎◌}
use par2tbb.Creator.{Creator}
use par2tbb.Creator.Allocation.{halvings, largest_blocks, limited_file_count}
use par2tbb.Creator.Rounds.{halvings-add, halvings_cover, halvings_positive, halvings_digits}

-- What the count of files for scLimited leaves to the files that are not full.
pub record IsSplit (c d : Creator) : Type 0 where
  pub whole : ℕ
  pub extra : ℕ
  pub files : ℕ
  pub sum : c.recoveryblockcount ≡ whole * largest_blocks c + extra
  pub less : extra < 2 * largest_blocks c
  pub more : (whole ≡ 0) ⊎ (largest_blocks c ≤ extra)
  pub some_files : 0 < files
  pub cover : extra < 2 ^ files
  pub few : files ≤ 16
  pub result : d ≡ record c { recoveryfilecount = whole + files }

splits :
    (blocks largest quotient whole : ℕ)
    → quotient * largest ≤ blocks
    → blocks < (quotient + 1) * largest
    → 0 < blocks
    → 0 < largest
    → whole ≡ quotient - 1
    → let extra = blocks - whole * largest in
      (0 < extra)
      × (blocks ≡ whole * largest + extra)
      × (extra < 2 * largest)
      × ((whole ≡ 0) ⊎ (largest ≤ extra))
splits blocks largest zero whole low high some_blocks positive same =
    let none_full : whole ≡ 0 = omega arith in
    rw none_full (omega arith, omega arith, omega arith, inl refl)
splits blocks largest (suc quotient) whole low high some_blocks positive same =
    let full : quotient ≡ whole = omega arith in
    let low_whole : whole * largest + largest ≤ blocks = rw (← full) (omega arith) in
    let high_whole : blocks < whole * largest + 2 * largest = rw (← full) (omega arith) in
    (omega arith, omega arith, omega arith, inr (omega arith))

pub limited_file_count-IsSplit :
    (c : Creator)
    → 0 < c.recoveryblockcount
    → c.recoveryblockcount < 65536
    → 0 < largest_blocks c
    → IsSplit c (limited_file_count c)
unfolding limited_file_count
limited_file_count-IsSplit c some_blocks bound positive =
    let blocks = c.recoveryblockcount in
    let largest = largest_blocks c in
    let quotient = blocks / largest in
    let whole = if leb 1 quotient then quotient - 1 else 0 in
    let extra = blocks - whole * largest in
    let high : blocks < (quotient + 1) * largest =
      (div-lt_iff_lt-mul {k = largest} {x = blocks} {y = quotient + 1} positive).0 (omega arith) in
    let (some_left, sum, less, more) =
      splits blocks largest quotient whole (div-mul-le_self blocks largest) high some_blocks
        positive (ground arith) in
    record {
      whole = whole;
      extra = extra;
      files = halvings extra 0 extra;
      sum = sum;
      less = less;
      more = more;
      some_files = halvings_positive extra some_left;
      cover = halvings_cover extra extra (omega arith);
      few = halvings_digits extra 16 extra (omega arith);
      result = ap (λ n. record c { recoveryfilecount = n }) (halvings-add extra whole extra);
    }
