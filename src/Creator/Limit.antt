-- ===== src/Creator/Limit.antt =====
-- The files of scLimited in InitialiseOutputFiles of par2creator.cpp beside the largest source file.
use mathlib.Core.Option.{some-injective}
use par2tbb.Base.{ℕ, zero, suc, ◌+◌, ◌-◌, ◌*◌, ◌≤◌, ◌<◌, ◌≡◌, refl, sym, ap, ◌∙◌, subst, arith}
use par2tbb.Base.{List, [], ◌∷◌, ◌++◌, ltb, leb, min, ◌==◌, Bool-cases, true, inl, inr, ◌⊎◌, some}
use par2tbb.Creator.{Creator, Scheme, u32}
use par2tbb.Creator.Allocation.{
  FileAllocation, Files, largest_blocks, compute_recovery_file_count, scheme_file_count,
  limited_files,
}
use par2tbb.Creator.Allocation.{spread, fill_top, scheme_files, file_allocations}
use par2tbb.Creator.Rounds.{fill_top-IsFilled}
use par2tbb.Creator.Schemes.{IsPlanned}
use par2tbb.Creator.Whole.{IsSplit, limited_file_count-IsSplit}

-- No file holds more recovery blocks than `limit`.
abbrev pub AreAtMost : ℕ → List FileAllocation → Type 0
AreAtMost limit [] = 0 < 1
AreAtMost limit (f ∷ fs) = (f.count ≤ limit) × AreAtMost limit fs

AreAtMost-append :
    (limit : ℕ) (fs gs : List FileAllocation)
    → AreAtMost limit fs
    → AreAtMost limit gs
    → AreAtMost limit (fs ++ gs)
AreAtMost-append limit [] gs few more = more
AreAtMost-append limit (f ∷ fs) gs (here, few) more = (here, AreAtMost-append limit fs gs few more)

-- A file takes at most half of what it and the blocks left come to.
spread_limit :
    (left low blocks from limit : ℕ)
    → (low + blocks ≤ 2 * limit) ⊎ (blocks ≡ 0)
    → AreAtMost limit (spread left low blocks from).0
unfolding spread
spread_limit zero low blocks from limit h = omega arith
spread_limit (suc left) low blocks from limit h =
    let number = min low blocks in
    let here : number ≤ limit = omega arith in
    let next : (u32 (low * 2) + (blocks - number) ≤ 2 * limit) ⊎ (blocks - number ≡ 0) =
      grind arith in
    (here, spread_limit left (u32 (low * 2)) (blocks - number) (u32 (from + number)) limit next)

fill_top_limit :
    (filenumber largest exponent blocks : ℕ) (behind : List FileAllocation)
    → AreAtMost largest behind
    → AreAtMost largest (fill_top filenumber largest exponent blocks behind).2
unfolding fill_top
fill_top_limit zero largest exponent blocks behind few = few
fill_top_limit (suc filenumber) largest exponent blocks behind few =
    elim (Bool-cases (leb (u32 (2 * largest)) blocks)) [
      | inl full ↦ rw full (
          fill_top_limit filenumber largest (exponent - largest) (blocks - largest) (_ ∷ behind)
            (omega arith, few))
      | inr ended ↦ rw ended few
    ]

limited_files_limit :
    (c d : Creator)
    → c.firstrecoveryblock + c.recoveryblockcount < 65536
    → largest_blocks c ≤ 32768
    → IsSplit c d
    → AreAtMost (largest_blocks c) (limited_files d).0
unfolding limited_files largest_blocks
limited_files_limit c d bound small s =
    let first = c.firstrecoveryblock in
    let blocks = c.recoveryblockcount in
    let largest = largest_blocks c in
    let to : u32 (first + blocks) ≡ first + blocks = omega arith in
    let filled =
      fill_top-IsFilled (s.whole + s.files) s.whole s.files largest (first + blocks) blocks s.extra
        (first + blocks) [] refl s.some_files s.sum s.less s.more (omega arith) (omega arith)
        refl in
    let less = s.less in
    let bottom = spread_limit s.files 1 s.extra first largest (inl (omega arith)) in
    let top = fill_top_limit (s.whole + s.files) largest (first + blocks) blocks [] (omega arith) in
    rw (s.result, to, filled.left, filled.blocks_left)
      (AreAtMost-append largest (spread s.files 1 s.extra first).0
        (fill_top (s.whole + s.files) largest (first + blocks) blocks []).2 bottom top)

-- Under the same conditions as for the allocation of the files, no file of scLimited holds more
-- recovery blocks than the largest source file has data blocks.
pub file_allocations_limit :
    (c d : Creator) (files : Files)
    → IsPlanned c
    → c.recoveryfilescheme ≡ Scheme.limited
    → compute_recovery_file_count c ≡ some d
    → file_allocations d ≡ some files
    → AreAtMost (largest_blocks c) files.0
unfolding compute_recovery_file_count file_allocations scheme_file_count scheme_files
file_allocations_limit c d files p scheme done allocated =
    elim (Bool-cases (c.recoveryblockcount == 0)) [
      | inl no_blocks ↦
          let result : d ≡ record c { recoveryfilecount = 0 } =
            sym (some-injective _ d (rw no_blocks at done)) in
          let same = some-injective _ files (rw result at allocated) in rw (← same) (omega arith)
      | inr some_blocks ↦
          let e = p.exponents in
          let split =
            limited_file_count-IsSplit c (ground arith) (omega arith) p.largest_positive in
          let b = record c { recoveryfilecount = split.whole + split.files } in
          let chosen : scheme_file_count Scheme.limited c ≡ some d =
            ap (λ t. scheme_file_count t c) (sym scheme) ∙ (rw some_blocks at done) in
          let result : d ≡ b = sym (some-injective _ d chosen) ∙ split.result in
          let test : ltb 0 (split.whole + split.files) ≡ true = ground (arith, split.some_files) in
          let spread_out : scheme_files Scheme.limited b ≡ some files =
            ap (λ t. scheme_files t b) (sym scheme) ∙ (rw (result, test) at allocated) in
          let other = subst (IsSplit c) split.result split in
          rw (← some-injective _ files spread_out)
            (limited_files_limit c b p.exponents p.largest_small other)
    ]
