-- ===== src/Creator/Search.antt =====
-- The binary search of ComputeBlockSizeAndBlockCount in par2creator.cpp: its end, and the block
-- sizes it can return.
use par2tbb.Base.{ℕ, zero, suc, ◌+◌, ◌-◌, ◌*◌, ◌/◌, ◌≤◌, ◌<◌, ◌^◌, ◌≡◌, refl, ◌∙◌, arith}
use par2tbb.Base.{List, ltb, Bool-cases, true, false, inl, inr, ◌⊎◌}
use par2tbb.Creator.{u64}
use par2tbb.Creator.Sizing.{Best, distance, consider, measure, narrow, search, count_word_blocks}
use par2tbb.Creator.Counts.{needed, total, count_word_blocks-eq-needed}

-- The sizes up to `largest` are small enough for the sums over the files.
abbrev pub Fits : ℕ → List ℕ → Type 0
Fits largest files = total files + 4 * largest + 4 < 2 ^ 64

-- The best size was measured: its count is that of the blocks that the files need.
pub record IsMeasured (largest : ℕ) (files : List ℕ) (best : Best) : Type 0 where
  pub positive : 0 < best.size
  pub capped : best.size ≤ largest
  pub counted : best.count ≡ needed (4 * best.size) files

pub measured_count :
    (largest size : ℕ) (files : List ℕ)
    → Fits largest files
    → 0 < size
    → size ≤ largest
    → count_word_blocks 0 size files ≡ needed (4 * size) files
measured_count largest size files fits h le =
    count_word_blocks-eq-needed 0 size files h (omega arith) ∙ omega arith

-- A measure leaves the best size alone, or takes the one measured.
pub measure-cases :
    (largest wanted : ℕ) (files : List ℕ) (size : ℕ) (best : Best)
    → Fits largest files
    → 0 < size
    → size ≤ largest
    → IsMeasured largest files (measure wanted files size best)
      ⊎ (measure wanted files size best ≡ best)
unfolding measure consider
measure-cases largest wanted files size best fits h le =
    elim (Bool-cases (ltb (distance (count_word_blocks 0 size files) wanted) best.distance)) [
      | inl nearer ↦ inl (
          rw nearer record {
            positive = h;
            capped = le;
            counted = measured_count largest size files fits h le;
          })
      | inr farther ↦ inr (rw farther refl)
    ]

pub measure_near :
    (largest wanted : ℕ) (files : List ℕ) (size : ℕ) (best : Best)
    → Fits largest files
    → 0 < size
    → size ≤ largest
    → distance (needed (4 * size) files) wanted < best.distance
    → IsMeasured largest files (measure wanted files size best)
unfolding measure consider
measure_near largest wanted files size best fits h le near =
    let count = measured_count largest size files fits h le in
    let nearer : ltb (distance (count_word_blocks 0 size files) wanted) best.distance ≡ true =
      rw count (ground arith) in
    rw nearer record { positive = h; capped = le; counted = count }

pub measure_keeps :
    (largest wanted : ℕ) (files : List ℕ) (size : ℕ) (best : Best)
    → Fits largest files
    → 0 < size
    → size ≤ largest
    → IsMeasured largest files best
    → IsMeasured largest files (measure wanted files size best)
measure_keeps largest wanted files size best fits h le m =
    elim (measure-cases largest wanted files size best fits h le) [
      | inl taken ↦ taken
      | inr same ↦ rw same m
    ]

-- The bounds after a round lie between the bounds before it.
narrow_within :
    (wanted count lower upper size : ℕ)
    → lower < size
    → size < upper
    → let bounds = narrow wanted count lower upper size in
      (lower ≤ bounds.0) × (bounds.1 ≤ upper) × (bounds.1 - bounds.0 < upper - lower)
unfolding narrow
narrow_within wanted count lower upper size above below = ground arith

middle :
    (largest lower upper : ℕ) (files : List ℕ)
    → Fits largest files
    → upper ≤ largest
    → lower + 1 < upper
    → let size = u64 (lower + upper) / 2 in (lower < size) × (size < upper)
middle largest lower upper files fits le wide = (omega arith, omega arith)

-- The search only returns block sizes that were measured.
pub search-IsMeasured :
    (fuel largest wanted : ℕ) (files : List ℕ) (lower upper : ℕ) (best : Best)
    → Fits largest files
    → 0 < lower
    → upper ≤ largest
    → IsMeasured largest files best
    → IsMeasured largest files (search fuel wanted files (lower, upper) best)
unfolding search
search-IsMeasured zero largest wanted files lower upper best fits h le m = m
search-IsMeasured (suc fuel) largest wanted files lower upper best fits h le m =
    let size = u64 (lower + upper) / 2 in
    let count = count_word_blocks 0 size files in
    elim (Bool-cases (ltb (lower + 1) upper)) [
      | inr ended ↦ rw ended m
      | inl wide ↦
          let (above, below) = middle largest lower upper files fits le (ground arith) in
          let (low, high, nearer) = narrow_within wanted count lower upper size above below in
          let bounds = narrow wanted count lower upper size in
          rw wide (
            search-IsMeasured fuel largest wanted files bounds.0 bounds.1
              (measure wanted files size best) fits (omega arith) (omega arith)
              (measure_keeps largest wanted files size best fits (omega arith) (omega arith) m))
    ]

-- For files and bounds whose sums fit in 64 bits, any number of rounds from the distance of the
-- bounds on gives the same result of the binary search as that distance.
pub search_ended :
    (fuel plenty largest wanted : ℕ) (files : List ℕ) (lower upper : ℕ) (best : Best)
    → Fits largest files
    → upper ≤ largest
    → upper - lower ≤ fuel
    → fuel ≤ plenty
    → search plenty wanted files (lower, upper) best ≡ search fuel wanted files (lower, upper) best
unfolding search
search_ended zero zero largest wanted files lower upper best fits le enough more = refl
search_ended (suc fuel) zero largest wanted files lower upper best fits le enough more =
    absurd (omega arith)
search_ended zero (suc plenty) largest wanted files lower upper best fits le enough more =
    let ended : ltb (lower + 1) upper ≡ false = ground arith in rw ended refl
search_ended (suc fuel) (suc plenty) largest wanted files lower upper best fits le enough more =
    let size = u64 (lower + upper) / 2 in
    let count = count_word_blocks 0 size files in
    elim (Bool-cases (ltb (lower + 1) upper)) [
      | inr ended ↦ rw ended refl
      | inl wide ↦
          let (above, below) = middle largest lower upper files fits le (ground arith) in
          let (low, high, nearer) = narrow_within wanted count lower upper size above below in
          let bounds = narrow wanted count lower upper size in
          rw wide (
            search_ended fuel plenty largest wanted files bounds.0 bounds.1
              (measure wanted files size best) fits (omega arith) (omega arith) (omega arith))
    ]
