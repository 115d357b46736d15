-- ===== src/Creator/Schemes.antt =====
-- The files that InitialiseOutputFiles of par2creator.cpp allocates, with the number of files that
-- ComputeRecoveryFileCount chooses.
use mathlib.Core.Option.{some-injective}
use native.Mathlib.Nat.{pow-le-pow_right, mod-add-div, mod-lt}
use par2tbb.Base.{◌+◌, ◌-◌, ◌*◌, ◌/◌, ◌%◌, ◌≤◌, ◌<◌, ◌^◌, ◌≡◌, refl, sym, ap, ◌∙◌, subst, arith}
use par2tbb.Base.{
  [], length, length-append, ltb, ◌==◌, if◌then◌else◌, Bool-cases, true, inl, inr, some,
}
use par2tbb.Creator.{Creator, Scheme, u32}
use par2tbb.Creator.Allocation.{
  Files, halvings, largest_blocks, spread_file_count, scheme_file_count,
  compute_recovery_file_count,
}
use par2tbb.Creator.Allocation.{
  uniform_files, spread, smallest_file, fill_top, variable_files, limited_files, scheme_files,
  file_allocations,
}
use par2tbb.Creator.Exponents.{
  IsContiguous, IsContiguous-append, spread-IsSpread, uniform_files-IsSpread,
}
use par2tbb.Creator.Rounds.{
  halvings_positive, halvings_digits, smallest_file-IsEnough, fill_top-IsFilled,
}
use par2tbb.Creator.Whole.{IsSplit, limited_file_count-IsSplit}

-- The files hold the recovery blocks of the creation, each in one place.
pub record IsAllocated (c : Creator) (files : Files) : Type 0 where
  pub contiguous :
      IsContiguous c.firstrecoveryblock files.0 (c.firstrecoveryblock + c.recoveryblockcount)
  pub size : length files.0 ≡ c.recoveryfilecount

uniform-IsAllocated :
    (c : Creator)
    → c.firstrecoveryblock + c.recoveryblockcount < 65536
    → 0 < c.recoveryfilecount
    → IsAllocated c (
        uniform_files c.recoveryfilecount 0
          (c.recoveryblockcount / c.recoveryfilecount)
          (c.recoveryblockcount % c.recoveryfilecount)
          c.firstrecoveryblock)
uniform-IsAllocated c bound some_files =
    let files = c.recoveryfilecount in
    let blocks = c.recoveryblockcount in
    let sum = mod-add-div blocks files in
    let rest = mod-lt blocks some_files in
    let s =
      uniform_files-IsSpread files 0 (blocks / files) (blocks % files) c.firstrecoveryblock blocks
        (omega arith) (omega arith) (omega arith) in
    record { contiguous = s.contiguous; size = s.size }

variable-IsAllocated :
    (c : Creator)
    → c.firstrecoveryblock + c.recoveryblockcount < 65536
    → 0 < c.recoveryfilecount
    → c.recoveryfilecount ≤ 31
    → IsAllocated c (variable_files c)
unfolding variable_files
variable-IsAllocated c bound some_files few =
    let files = c.recoveryfilecount in
    let blocks = c.recoveryblockcount in
    let power : 2 ^ files ≤ 2 ^ 31 = pow-le-pow_right (omega arith) few in
    let two : 2 ^ 1 ≤ 2 ^ files = pow-le-pow_right (omega arith) some_files in
    let e =
      smallest_file-IsEnough blocks files blocks 1 (u32 (2 ^ files) - 1) some_files (omega arith)
        (omega arith) (omega arith) (omega arith) (omega arith) in
    let s =
      spread-IsSpread files (smallest_file blocks blocks 1 (u32 (2 ^ files) - 1)) blocks
        c.firstrecoveryblock e.enough e.small (omega arith) in
    record { contiguous = s.contiguous; size = s.size }

limited-IsAllocated :
    (c d : Creator)
    → c.firstrecoveryblock + c.recoveryblockcount < 65536
    → largest_blocks c ≤ 32768
    → IsSplit c d
    → IsAllocated d (limited_files d)
unfolding limited_files largest_blocks
limited-IsAllocated c d bound small s =
    let first = c.firstrecoveryblock in
    let blocks = c.recoveryblockcount in
    let largest = largest_blocks c in
    let to : u32 (first + blocks) ≡ first + blocks = omega arith in
    let top = fill_top (s.whole + s.files) largest (first + blocks) blocks [] in
    let filled =
      fill_top-IsFilled (s.whole + s.files) s.whole s.files largest (first + blocks) blocks s.extra
        (first + blocks) [] refl s.some_files s.sum s.less s.more (omega arith) (omega arith)
        refl in
    let power : 2 ^ s.files ≤ 2 ^ 16 = pow-le-pow_right (omega arith) s.few in
    let bottom =
      spread-IsSpread s.files 1 s.extra first (omega (arith, s.cover)) (omega arith)
        (omega (arith, s.sum)) in
    let meet : first + blocks - s.whole * largest ≡ first + s.extra = omega (arith, s.sum) in
    rw (s.result, to, filled.left, filled.blocks_left)
      record {
        contiguous =
            IsContiguous-append first (first + s.extra) (first + blocks) _ _ bottom.contiguous
              (subst (λ from. IsContiguous from top.2 (first + blocks)) meet filled.contiguous);
        size =
            length-append (spread s.files 1 s.extra first).0 top.2
            ∙ omega (arith, bottom.size, filled.size);
      }

-- The numbers that a creation may start from.
pub record IsPlanned (c : Creator) : Type 0 where
  pub exponents : c.firstrecoveryblock + c.recoveryblockcount < 65536
  pub files : c.recoveryfilecount ≤ 31
  pub largest_positive : 0 < largest_blocks c
  pub largest_small : largest_blocks c ≤ 32768

-- The files of a creation after its count of files was computed.
pub record HasFiles (c d : Creator) : Type 0 where
  pub files : Files
  pub result : file_allocations d ≡ some files
  pub allocated : IsAllocated d files
  pub first : d.firstrecoveryblock ≡ c.firstrecoveryblock
  pub blocks : d.recoveryblockcount ≡ c.recoveryblockcount

allocates :
    (c d : Creator) (files : Files)
    → 0 < d.recoveryfilecount
    → scheme_files d.recoveryfilescheme d ≡ some files
    → IsAllocated d files
    → d.firstrecoveryblock ≡ c.firstrecoveryblock
    → d.recoveryblockcount ≡ c.recoveryblockcount
    → HasFiles c d
unfolding file_allocations
allocates c d files some_files chosen allocated first blocks =
    let test : ltb 0 d.recoveryfilecount ≡ true = ground arith in
    record {
      files = files;
      result = rw test chosen;
      allocated = allocated;
      first = first;
      blocks = blocks;
    }

-- What the count of files for scVariable and scUniform gives.
spread_count :
    (c d : Creator)
    → 0 < c.recoveryblockcount
    → c.recoveryblockcount < 65536
    → c.recoveryfilecount ≤ 31
    → spread_file_count c ≡ some d
    → (0 < d.recoveryfilecount)
      × (d.recoveryfilecount ≤ 31)
      × (d ≡ record c { recoveryfilecount = d.recoveryfilecount })
unfolding spread_file_count
spread_count c d some_blocks bound few done =
    let blocks = c.recoveryblockcount in
    let n = if c.recoveryfilecount == 0 then halvings blocks 0 blocks else c.recoveryfilecount in
    elim (Bool-cases (ltb blocks n)) [
      | inl over ↦ absurd (cc (rw over at done))
      | inr within ↦
          let result = some-injective _ d (rw within at done) in
          let digits = halvings_digits blocks 16 blocks (omega arith) in
          let positive = halvings_positive blocks some_blocks in
          let count : n ≡ d.recoveryfilecount = ap (λ (t : Creator). t.recoveryfilecount) result in
          let size : (0 < n) × (n ≤ 31) = ground arith in
          (
            rw (← count) size.0,
            rw (← count) size.1,
            sym result ∙ ap (λ m. record c { recoveryfilecount = m }) count,
          )
    ]

scheme-HasFiles :
    (c d : Creator) (scheme : Scheme)
    → IsPlanned c
    → 0 < c.recoveryblockcount
    → scheme ≡ c.recoveryfilescheme
    → scheme_file_count scheme c ≡ some d
    → HasFiles c d
unfolding scheme_file_count scheme_files
scheme-HasFiles c d Scheme.unknown p some_blocks same done = absurd (cc)
scheme-HasFiles c d Scheme.variable p some_blocks same done =
    let e = p.exponents in
    let (some_files, few, result) = spread_count c d some_blocks (omega arith) p.files done in
    let n = d.recoveryfilecount in
    let b = record c { recoveryfilecount = n } in
    rw result (
      allocates c b (variable_files b) some_files (rw (← same) refl)
        (variable-IsAllocated b p.exponents some_files few) refl refl)
scheme-HasFiles c d Scheme.uniform p some_blocks same done =
    let e = p.exponents in
    let (some_files, few, result) = spread_count c d some_blocks (omega arith) p.files done in
    let n = d.recoveryfilecount in
    let b = record c { recoveryfilecount = n } in
    rw result (
      allocates c b _ some_files (rw (← same) refl) (uniform-IsAllocated b p.exponents some_files)
        refl refl)
scheme-HasFiles c d Scheme.limited p some_blocks same done =
    let e = p.exponents in
    let split = limited_file_count-IsSplit c some_blocks (omega arith) p.largest_positive in
    let n = split.whole + split.files in
    let b = record c { recoveryfilecount = n } in
    let result : d ≡ b = sym (some-injective _ d done) ∙ split.result in
    let other : IsSplit c b = subst (IsSplit c) split.result split in
    rw result (
      allocates c b (limited_files b) (omega (arith, split.some_files)) (rw (← same) refl)
        (limited-IsAllocated c b p.exponents p.largest_small other) refl refl)

-- For recovery blocks with exponents below 65536, at most 31 wanted files and a largest file of
-- 1 to 32768 blocks, when ComputeRecoveryFileCount succeeds, InitialiseOutputFiles allocates as
-- many files as it counted, and they take the exponents of all the recovery blocks in their
-- order, none twice and none left out, whatever the scheme.
pub file_allocations_lem :
    (c d : Creator) → IsPlanned c → compute_recovery_file_count c ≡ some d → HasFiles c d
unfolding compute_recovery_file_count file_allocations
file_allocations_lem c d p done = elim (Bool-cases (c.recoveryblockcount == 0)) [
  | inr some_blocks ↦
      scheme-HasFiles c d c.recoveryfilescheme p (ground arith) refl (rw some_blocks at done)
  | inl no_blocks ↦
      let b = record c { recoveryfilecount = 0 } in
      let result : d ≡ b = sym (some-injective _ d (rw no_blocks at done)) in
      rw result record {
        files = ([], c.firstrecoveryblock);
        result = refl;
        allocated = record { contiguous = ground arith; size = refl };
        first = refl;
        blocks = refl;
      }
]
