-- ===== src/Creator/Blocks.antt =====
-- ComputeBlockSizeAndBlockCount of par2creator.cpp: the number of blocks beside the block size.
use mathlib.Core.Option.{some-injective}
use native.Mathlib.Nat.{div-lt_iff_lt-mul, le_of_mul-le-mul_right, le-div_iff_mul-le, div-le_self}
use par2tbb.Base.{ℕ, ◌+◌, ◌-◌, ◌*◌, ◌/◌, ◌%◌, ◌≤◌, ◌<◌, ◌^◌, ◌≡◌, refl, sym, ap, ◌∙◌, arith}
use par2tbb.Base.{List, length, ltb, ◌==◌, Bool-cases, true, inl, inr, ◌⊎◌, ◌↔◌, none, some}
use par2tbb.Creator.{Creator, u32, u64}
use par2tbb.Creator.Sizing.{
  Best, best_size, lower_bound, upper_bound, block_count, take_best, block_size,
}
use par2tbb.Creator.Sizing.{
  compute_block_size_and_block_count, count_blocks, count_words, largest_size, measure,
}
use par2tbb.Creator.Counts.{
  needed, total, needed_le, ceil_le, needed-mul, count_blocks-eq-needed, count_words-eq-needed,
}
use par2tbb.Creator.Search.{
  Fits, IsMeasured, measure_keeps, measure_near, measure-cases, search-IsMeasured,
}
use par2tbb.Creator.Largest.{AreNonempty, needed_largest, largest_below, largest_positive}

ceil-mul : (n k : ℕ) → 0 < k → n ≤ (n + k - 1) / k * k
ceil-mul n k h =
    let above : n + k - 1 < ((n + k - 1) / k + 1) * k =
      (div-lt_iff_lt-mul {k = k} {x = n + k - 1} {y = (n + k - 1) / k + 1} h).0 (omega arith) in
    omega arith

-- At the upper bound the files need at most the wanted number of blocks.
needed_upper :
    (wanted upper : ℕ) (files : List ℕ)
    → 0 < upper
    → length files < wanted
    → needed 4 files ≤ upper * (wanted - length files)
    → needed (4 * upper) files ≤ wanted
needed_upper wanted upper files h more le =
    let k = wanted - length files in
    let same : wanted * upper ≡ upper * k + length files * upper =
      ap (λ n. n * upper) {x = wanted} {y = k + length files} (omega arith) ∙ omega arith in
    le_of_mul-le-mul_right {k = upper} (omega (arith, needed-mul upper files h)) h

-- Both bounds are positive and at most the number of words.
bounds_within :
    (wanted : ℕ) (files : List ℕ)
    → needed 4 files + wanted < 2 ^ 64
    → length files < wanted
    → wanted ≤ needed 4 files
    → let lower = lower_bound (needed 4 files) wanted in
      let upper = upper_bound (needed 4 files) wanted files in
      (0 < lower)
      × (lower ≤ needed 4 files)
      × (0 < upper)
      × (upper ≤ needed 4 files)
      × (needed 4 files ≤ upper * (wanted - length files))
unfolding lower_bound upper_bound
bounds_within wanted files bound more le =
    let words = needed 4 files in
    let k = wanted - length files in
    let ceil : u64 (words + wanted - length files - 1) / k ≡ (words + k - 1) / k =
      ap (λ n. n / k) (omega arith) in
    let cover = ceil-mul words k (omega arith) in
    let above : 0 < words / wanted =
      (le-div_iff_mul-le {k = wanted} {x = 1} {y = words} (omega arith)).1 (omega arith) in
    let below = div-le_self words wanted in
    let one : 1 ≤ (words + k - 1) / k =
      (le-div_iff_mul-le {k = k} {x = 1} {y = words + k - 1} (omega arith)).1 (omega arith) in
    rw ceil (above, below, one, ceil_le words k (omega arith), omega arith)

-- The block size that the search returns was measured.
best_size-IsMeasured :
    (wanted : ℕ) (files : List ℕ)
    → total files < 2 ^ 60
    → length files < wanted
    → wanted ≤ 32768
    → wanted ≤ needed 4 files
    → IsMeasured (needed 4 files) files (best_size (needed 4 files) wanted files)
unfolding best_size
best_size-IsMeasured wanted files bound more small le =
    let words = needed 4 files in
    let fits : Fits words files = omega (arith, needed_le 4 files (omega arith)) in
    let lower = lower_bound words wanted in
    let upper = upper_bound words wanted files in
    let (low, low_le, high, high_le, cover) = bounds_within wanted files (omega arith) more le in
    let first : Best = record { size = lower; distance = 1000000; count = 0 } in
    let near = needed_upper wanted upper files high more cover in
    let after = measure wanted files lower first in
    let measured : IsMeasured words files (measure wanted files upper after) =
      elim (measure-cases words wanted files lower first fits low low_le) [
        | inl taken ↦ measure_keeps words wanted files upper after fits high high_le taken
        | inr same ↦
            measure_near words wanted files upper after fits high high_le
              (rw (ap (λ (b : Best). b.distance) same) (ground arith))
      ] in
    search-IsMeasured (upper - lower) words wanted files lower upper _ fits low high_le measured

-- What is claimed of a success: the sizes, and where they come from.
pub record IsSized (c : Creator) (files : List ℕ) (d : Creator) : Type 0 where
  pub positive : 0 < d.blocksize
  pub counted : d.sourceblockcount ≡ needed d.blocksize files
  pub given : (d.blocksize ≡ c.blocksize) ⊎ (d.blocksize % 4 ≡ 0)

block_count-IsSized :
    (c d : Creator) (files : List ℕ)
    → total files < 2 ^ 60
    → 0 < c.blocksize
    → c.blocksize < 2 ^ 60
    → block_count c files ≡ some d
    → IsSized c files d
unfolding block_count
block_count-IsSized c d files bound positive small done =
    let count = count_blocks 0 c.blocksize files in
    let same = count_blocks-eq-needed 0 c.blocksize files positive (omega arith) in
    elim (Bool-cases (ltb 32768 count)) [
      | inl over ↦ absurd (cc (rw over at done))
      | inr within ↦
          let result = some-injective _ d (rw within at done) in
          let kept : u32 count ≡ needed c.blocksize files = ground (arith, same) in
          rw (← result) record { positive = positive; counted = kept; given = inl refl }
    ]

take_best-IsSized :
    (c d : Creator) (files : List ℕ) (best : Best)
    → total files < 2 ^ 60
    → IsMeasured (needed 4 files) files best
    → take_best c best ≡ some d
    → IsSized c files d
unfolding take_best
take_best-IsSized c d files best bound m done = elim (Bool-cases (ltb 32768 best.count)) [
  | inl over ↦ absurd (cc (rw over at done))
  | inr within ↦
      let result = some-injective _ d (rw within at done) in
      let positive = m.positive in
      let bytes : u64 (best.size * 4) ≡ 4 * best.size =
        omega (arith, m.capped, needed_le 4 files (omega arith)) in
      let count : u32 best.count ≡ best.count = ground arith in
      rw (← result) record {
        positive = omega arith;
        counted = count ∙ m.counted ∙ ap (λ n. needed n files) (sym bytes);
        given = inr (omega arith);
      }
]

block_size-IsSized :
    (c d : Creator) (files : List ℕ)
    → total files < 2 ^ 60
    → AreNonempty files
    → 0 < c.sourceblockcount
    → c.sourceblockcount ≤ 32768
    → block_size c files ≡ some d
    → IsSized c files d
unfolding block_size
block_size-IsSized c d files bound nonempty positive small done =
    let n = c.sourceblockcount in
    let total_words = count_words 0 files in
    let words : total_words ≡ needed 4 files =
      omega (arith, count_words-eq-needed 0 files (omega arith)) in
    elim (Bool-cases (ltb n (length files))) [
      | inl fewer ↦ absurd (cc (rw fewer at done))
      | inr enough ↦ elim (Bool-cases (n == length files)) [
        | inl equal ↦
            let result = some-injective _ d (rw (enough, equal) at done) in
            let below = largest_below 0 files in
            let size = u64 (largest_size 0 files + 3) / 4 * 4 in
            let one = needed_largest 0 size files nonempty (omega arith) in
            rw (← result) record {
              positive = omega (arith, largest_positive files nonempty (ground arith));
              counted = ground (arith, one);
              given = inr (omega arith);
            }
        | inr more ↦ elim (Bool-cases (ltb total_words n)) [
          | inl many ↦
              let result = some-injective _ d (rw (enough, more, many) at done) in
              let kept : u32 total_words ≡ needed 4 files = ground (arith, words) in
              rw (← result) record { positive = omega arith; counted = kept; given = inr refl }
          | inr searched ↦
              let best = best_size total_words n files in
              let m : IsMeasured (needed 4 files) files best =
                rw words (best_size-IsMeasured n files bound (ground arith) small (ground arith)) in
              take_best-IsSized c d files best bound m (rw (enough, more, searched) at done)
        ]
      ]
    ]

-- For files that are not empty and come to less than 2^60 bytes, and a block size below 2^60 or
-- at most 32768 wanted blocks, a ComputeBlockSizeAndBlockCount that succeeds leaves a positive
-- block size, which is the one given or a multiple of 4, and as the number of blocks the number
-- that the files need at that size.
pub compute_block_size_and_block_count_lem :
    (c d : Creator) (files : List ℕ)
    → total files < 2 ^ 60
    → AreNonempty files
    → c.blocksize < 2 ^ 60
    → c.sourceblockcount ≤ 32768
    → 0 < c.blocksize + c.sourceblockcount
    → compute_block_size_and_block_count c files ≡ some d
    → IsSized c files d
unfolding compute_block_size_and_block_count
compute_block_size_and_block_count_lem c d files bound nonempty small few given done =
    elim (Bool-cases (ltb 0 c.blocksize)) [
      | inl sized ↦ block_count-IsSized c d files bound (ground arith) small (rw sized at done)
      | inr unsized ↦ elim (Bool-cases (ltb 0 c.sourceblockcount)) [
        | inl counted ↦
            block_size-IsSized c d files bound nonempty (ground arith) few
              (rw (unsized, counted) at done)
        | inr neither ↦ absurd (ground arith)
      ]
    ]

-- For files of less than 2^60 bytes and a given block size from 1 to 2^60,
-- ComputeBlockSizeAndBlockCount fails exactly when the files need more than 32768 blocks.
pub compute_block_size_and_block_count_refuses :
    (c : Creator) (files : List ℕ)
    → total files < 2 ^ 60
    → c.blocksize < 2 ^ 60
    → 0 < c.blocksize
    → (compute_block_size_and_block_count c files ≡ none) ↔ (32768 < needed c.blocksize files)
unfolding compute_block_size_and_block_count block_count
compute_block_size_and_block_count_refuses c files bound small positive =
    let count = count_blocks 0 c.blocksize files in
    let same : count ≡ needed c.blocksize files =
      omega (arith, count_blocks-eq-needed 0 c.blocksize files positive (omega arith)) in
    let sized : ltb 0 c.blocksize ≡ true = ground arith in
    elim (Bool-cases (ltb 32768 count)) [
      | inl over ↦ rw (sized, over) ((λ h. ground (arith, same)), (λ h. refl))
      | inr within ↦ rw (sized, within) ((λ h. absurd (cc)), (λ h. absurd (ground (arith, same))))
    ]
