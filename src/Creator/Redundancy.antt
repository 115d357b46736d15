-- ===== src/Creator/Redundancy.antt =====
-- ComputeRecoveryBlockCount and CalculateProcessBlockSize of par2creator.cpp. The number that the
-- redundancy in per cent comes to, rounded in floating point, is an argument, and so is whether
-- the redundancy is positive.
use mathlib.Core.Option.{some-injective}
use native.Mathlib.Nat.{div-mul-le_self, div-lt_iff_lt-mul, mul-le-mul_right}
use par2tbb.Base.{ℕ, ◌+◌, ◌-◌, ◌*◌, ◌/◌, ◌%◌, ◌≤◌, ◌<◌, ◌^◌, ◌≡◌, ◌⊎◌, ◌↔◌, inl, inr, refl, arith}
use par2tbb.Base.{
  Bool, true, false, Bool-cases, ◌&&◌, ltb, leb, ◌==◌, if◌then◌else◌, Option, none, some,
}
use par2tbb.Creator.{Creator, u32, u64}

unfoldable pub compute_recovery_block_count : ℕ → Bool → Creator → Option Creator
compute_recovery_block_count rounded positive c =
    let count = if (rounded == 0) && positive then 1 else rounded in
    if ltb 65536 count
    then none
    else if leb 65536 (u32 (c.firstrecoveryblock + count))
    then none
    else some (record c { recoveryblockcount = count })

unfoldable pub calculate_process_block_size : ℕ → Creator → Creator
calculate_process_block_size memorylimit c =
    let chunk = memorylimit / c.recoveryblockcount in
    if c.recoveryblockcount == 0
    then record c { deferhashcomputation = false }
    else if ltb memorylimit (u64 (c.blocksize * c.recoveryblockcount))
    then record c { chunksize = chunk - chunk % 4; deferhashcomputation = false }
    else record c { chunksize = c.blocksize; deferhashcomputation = true }

-- For a first exponent below 2^31, a ComputeRecoveryBlockCount that succeeds leaves exponents
-- below 65536, and the rounded number, or 1 in place of 0 for a redundancy above 0.
pub compute_recovery_block_count_lem :
    (c d : Creator) (rounded : ℕ) (positive : Bool)
    → c.firstrecoveryblock < 2 ^ 31
    → compute_recovery_block_count rounded positive c ≡ some d
    → (c.firstrecoveryblock + d.recoveryblockcount < 65536)
      × ((d.recoveryblockcount ≡ rounded)
          ⊎ ((rounded ≡ 0) × (positive ≡ true) × (d.recoveryblockcount ≡ 1)))
unfolding compute_recovery_block_count
compute_recovery_block_count_lem c d rounded positive first done =
    let count = if (rounded == 0) && positive then 1 else rounded in
    elim (Bool-cases (ltb 65536 count)) [
      | inl many ↦ absurd (cc (rw many at done))
      | inr few ↦ elim (Bool-cases (leb 65536 (u32 (c.firstrecoveryblock + count)))) [
        | inl high ↦ absurd (cc (rw (few, high) at done))
        | inr low ↦
            let result = some-injective _ d (rw (few, low) at done) in
            let chosen : (count ≡ rounded) ⊎ ((rounded ≡ 0) × (positive ≡ true) × (count ≡ 1)) =
              elim (Bool-cases (rounded == 0)) [
                | inl zero_blocks ↦ elim (Bool-cases positive) [
                  | inl asked ↦ inr (ground arith, asked, rw (zero_blocks, asked) refl)
                  | inr unasked ↦ inl (rw (zero_blocks, unasked) refl)
                ]
                | inr some_blocks ↦ inl (rw some_blocks refl)
              ] in
            rw (← result) (ground arith, chosen)
      ]
    ]

-- For a block size that is a multiple of 4, and recovery data of less than 2^64 bytes and not
-- none, the chunks of all recovery blocks fit in the memory limit, a chunk is at most a block
-- and a multiple of 4, and the hash computation is deferred exactly when whole blocks fit.
pub calculate_process_block_size_lem :
    (c : Creator) (memorylimit : ℕ)
    → c.blocksize * c.recoveryblockcount < 2 ^ 64
    → c.blocksize % 4 ≡ 0
    → 0 < c.recoveryblockcount
    → let d = calculate_process_block_size memorylimit c in
      (d.chunksize * c.recoveryblockcount ≤ memorylimit)
      × (d.chunksize ≤ c.blocksize)
      × (d.chunksize % 4 ≡ 0)
      × ((d.deferhashcomputation ≡ true) ↔ (c.blocksize * c.recoveryblockcount ≤ memorylimit))
unfolding calculate_process_block_size
calculate_process_block_size_lem c memorylimit fits whole some_blocks =
    let n = c.recoveryblockcount in
    let chunk = memorylimit / n in
    let test : (n == 0) ≡ false = ground arith in
    elim (Bool-cases (ltb memorylimit (u64 (c.blocksize * n)))) [
      | inl over ↦
          let more : memorylimit < c.blocksize * n = ground arith in
          let room : (chunk - chunk % 4) * n ≤ chunk * n = mul-le-mul_right n (omega arith) in
          let below : chunk < c.blocksize =
            (div-lt_iff_lt-mul {k = n} {x = memorylimit} {y = c.blocksize} some_blocks).1 more in
          rw (test, over)
            (
              omega (arith, div-mul-le_self memorylimit n),
              omega arith,
              omega arith,
              ((λ h. absurd (cc)), (λ h. absurd (omega arith))),
            )
      | inr within ↦
          rw (test, within) (ground arith, omega arith, whole, ((λ h. ground arith), (λ h. refl)))
    ]
