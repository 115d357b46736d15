-- ===== src/Creator/Allocation.antt =====
-- ComputeRecoveryFileCount of par2creator.cpp, and the part of InitialiseOutputFiles that decides
-- which recovery blocks go into which file.
use par2tbb.Base.{ℕ, zero, suc, ◌+◌, ◌-◌, ◌*◌, ◌/◌, ◌%◌, ◌^◌, ◌==◌, min, ltb, leb, if◌then◌else◌}
use par2tbb.Base.{List, [], ◌∷◌, ◌++◌, Option, none, some}
use par2tbb.Creator.{Creator, Scheme, u32, u64}

-- A loop that halves a number until it is 0, and counts the rounds, on fuel.
unfoldable pub halvings : ℕ → ℕ → ℕ → ℕ
halvings zero files blocks = files
halvings (suc fuel) files blocks =
    let rest = halvings fuel (files + 1) (blocks / 2) in if ltb 0 blocks then rest else files

-- The blocks of the largest file.
unfoldable pub largest_blocks : Creator → ℕ
largest_blocks c = u32 (u64 (c.largestfilesize + c.blocksize - 1) / c.blocksize)

unfoldable pub spread_file_count : Creator → Option Creator
spread_file_count c =
    let blocks = c.recoveryblockcount in
    let files =
      if c.recoveryfilecount == 0 then halvings blocks 0 blocks else c.recoveryfilecount in
    if ltb blocks files then none else some (record c { recoveryfilecount = files })

unfoldable pub limited_file_count : Creator → Creator
limited_file_count c =
    let largest = largest_blocks c in
    let quotient = c.recoveryblockcount / largest in
    let whole = if leb 1 quotient then quotient - 1 else 0 in
    let extra = c.recoveryblockcount - whole * largest in
    record c { recoveryfilecount = halvings extra whole extra }

unfoldable pub scheme_file_count : Scheme → Creator → Option Creator
scheme_file_count Scheme.unknown c = none
scheme_file_count Scheme.variable c = spread_file_count c
scheme_file_count Scheme.uniform c = spread_file_count c
scheme_file_count Scheme.limited c = some (limited_file_count c)

unfoldable pub compute_recovery_file_count : Creator → Option Creator
compute_recovery_file_count c =
    if c.recoveryblockcount == 0
    then some (record c { recoveryfilecount = 0 })
    else scheme_file_count c.recoveryfilescheme c

pub record FileAllocation : Type 0 where
  pub exponent : ℕ
  pub count : ℕ

-- The files of a scheme, and the value of `exponent` behind them.
abbrev pub Files : Type 0
Files = List FileAllocation × ℕ

abbrev pub add_file : ℕ → ℕ → Files → Files
add_file exponent count (files, behind) =
    (record { exponent = exponent; count = count } ∷ files, behind)

-- The loop of scUniform over `left` files from `filenumber` on.
unfoldable pub uniform_files : ℕ → ℕ → ℕ → ℕ → ℕ → Files
uniform_files zero filenumber base remainder exponent = ([], exponent)
uniform_files (suc left) filenumber base remainder exponent =
    let count = if ltb filenumber remainder then base + 1 else base in
    add_file exponent count
      (uniform_files left (filenumber + 1) base remainder (u32 (exponent + count)))

-- The loops of scVariable and scLimited that give each file twice the blocks of the last one.
unfoldable pub spread : ℕ → ℕ → ℕ → ℕ → Files
spread zero low blocks exponent = ([], exponent)
spread (suc left) low blocks exponent =
    let number = min low blocks in
    add_file exponent number
      (spread left (u32 (low * 2)) (blocks - number) (u32 (exponent + number)))

-- The loop of scVariable for the blocks in the smallest file, on fuel.
unfoldable pub smallest_file : ℕ → ℕ → ℕ → ℕ → ℕ
smallest_file zero blocks low most = low
smallest_file (suc fuel) blocks low most =
    let rest = smallest_file fuel blocks (u32 (low * 2)) (u32 (most * 2)) in
    if ltb most blocks then rest else low

-- The loop of scLimited that fills the last files: the files left, the blocks left, and those
-- behind.
unfoldable pub fill_top : ℕ → ℕ → ℕ → ℕ → List FileAllocation → ℕ × ℕ × List FileAllocation
fill_top zero largest exponent blocks behind = (0, blocks, behind)
fill_top (suc filenumber) largest exponent blocks behind =
    let entry : FileAllocation = record { exponent = exponent - largest; count = largest } in
    let rest =
      fill_top filenumber largest (exponent - largest) (blocks - largest) (entry ∷ behind) in
    if leb (u32 (2 * largest)) blocks then rest else (suc filenumber, blocks, behind)

unfoldable pub variable_files : Creator → Files
variable_files c =
    let blocks = c.recoveryblockcount in
    let low = smallest_file blocks blocks 1 (u32 (2 ^ c.recoveryfilecount) - 1) in
    spread c.recoveryfilecount low blocks c.firstrecoveryblock

unfoldable pub limited_files : Creator → Files
limited_files c =
    let end_exponent = u32 (c.firstrecoveryblock + c.recoveryblockcount) in
    let (files, blocks, top) =
      fill_top c.recoveryfilecount (largest_blocks c) end_exponent c.recoveryblockcount [] in
    let (bottom, exponent) = spread files 1 blocks c.firstrecoveryblock in (bottom ++ top, exponent)

unfoldable pub scheme_files : Scheme → Creator → Option Files
scheme_files Scheme.unknown c = none
scheme_files Scheme.uniform c = some (
    uniform_files c.recoveryfilecount 0 (c.recoveryblockcount / c.recoveryfilecount)
      (c.recoveryblockcount % c.recoveryfilecount) c.firstrecoveryblock)
scheme_files Scheme.variable c = some (variable_files c)
scheme_files Scheme.limited c = some (limited_files c)

-- The files with recovery blocks, and the exponent of the extra file that has none.
unfoldable pub file_allocations : Creator → Option Files
file_allocations c =
    if ltb 0 c.recoveryfilecount
    then scheme_files c.recoveryfilescheme c
    else some ([], c.firstrecoveryblock)
