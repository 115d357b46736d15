-- ===== src/Repairer/Results/Verdict.antt =====
-- The counts of UpdateVerificationResults in par2repairer.cpp beside the blocks that were
-- found, and the decision of CheckVerificationResults.
use par2tbb.Base.{ℕ, ◌+◌, ◌-◌, ◌^◌, ◌≤◌, ◌<◌, ◌≡◌, ◌↔◌, ◌⊎◌, inl, inr, refl, arith}
use par2tbb.Base.{leb, leb→le, if◌then◌else◌, Bool, Bool-cases, Option-cases, true, false}
use par2tbb.Base.{Option, none, some, List, [], ◌∷◌, length}
use par2tbb.Creator.{u32}
use par2tbb.DataBlock.{DataBlock, block_is_set}
use par2tbb.Repairer.Results.{
  VerifiedFile, Results, no_results, block_number, count_blocks_set, is_target, count_found,
  count_file, count_files,
}
use par2tbb.Repairer.Results.{
  update_verification_results, repair_required, check_verification_results,
}

-- The blocks of a list that have no place, and those that have.
abbrev pub unset : List DataBlock → ℕ
unset [] = 0
unset (b ∷ bs) = (if block_is_set b then 0 else 1) + unset bs

abbrev pub are_set : List DataBlock → ℕ
are_set [] = 0
are_set (b ∷ bs) = (if block_is_set b then 1 else 0) + are_set bs

-- The blocks of a file that are lost: none when the file was found complete.
abbrev pub lost_blocks : Option ℕ → List DataBlock → ℕ
lost_blocks none bs = unset bs
lost_blocks (some file) bs = 0

abbrev pub lost : Option VerifiedFile → ℕ
lost none = 0
lost (some f) = lost_blocks f.completefile f.sourceblocks

abbrev pub blocks : Option VerifiedFile → ℕ
blocks none = 0
blocks (some f) = length f.sourceblocks

abbrev pub all_lost : List (Option VerifiedFile) → ℕ
all_lost [] = 0
all_lost (f ∷ fs) = lost f + all_lost fs

abbrev pub all_blocks : List (Option VerifiedFile) → ℕ
all_blocks [] = 0
all_blocks (f ∷ fs) = blocks f + all_blocks fs

-- A file that was found complete in its own place.
abbrev pub in_own_place : Option ℕ → Option ℕ → Bool
in_own_place none target = false
in_own_place (some file) target = is_target file target

abbrev pub in_place : Option VerifiedFile → Bool
in_place none = false
in_place (some f) = in_own_place f.completefile f.targetfile

abbrev pub out_of_place : List (Option VerifiedFile) → ℕ
out_of_place [] = 0
out_of_place (f ∷ fs) = (if in_place f then 0 else 1) + out_of_place fs

block_number_lem : (n : ℕ) (bs : List DataBlock) → block_number n bs ≡ n + length bs
block_number_lem n [] = omega arith
block_number_lem n (b ∷ bs) = omega (arith, block_number_lem (n + 1) bs)

set-unset : (bs : List DataBlock) → are_set bs + unset bs ≡ length bs
set-unset [] = omega arith
set-unset (b ∷ bs) = elim (Bool-cases (block_is_set b)) [
  | inl here ↦ rw here (omega (arith, set-unset bs))
  | inr away ↦ rw away (omega (arith, set-unset bs))
]

count_blocks_set_lem :
    (bs : List DataBlock) (n : ℕ) → n + length bs < 2 ^ 32 → count_blocks_set bs n ≡ n + are_set bs
unfolding count_blocks_set
count_blocks_set_lem [] n bound = omega arith
count_blocks_set_lem (b ∷ bs) n bound = elim (Bool-cases (block_is_set b)) [
  | inl here ↦
      let next : u32 (n + 1) ≡ n + 1 = omega arith in
      rw (here, next) (omega (arith, count_blocks_set_lem bs (n + 1) (omega arith)))
  | inr away ↦ rw away (omega (arith, count_blocks_set_lem bs n (omega arith)))
]

-- What a file adds to the counts.
record IsCounted (f : Option VerifiedFile) (r s : Results) : Type 0 where
  available : s.availableblockcount + lost f ≡ r.availableblockcount + blocks f
  complete : s.completefilecount + (if in_place f then 0 else 1) ≡ r.completefilecount + 1
  others :
      s.renamedfilecount + s.damagedfilecount + s.missingfilecount
      ≡ r.renamedfilecount + r.damagedfilecount + r.missingfilecount + (if in_place f then 0 else 1)

-- The counts are small enough for one more file.
abbrev HasRoom : Results → ℕ → ℕ → Type 0
HasRoom r more_blocks more_files =
    (r.availableblockcount + more_blocks < 2 ^ 32)
    × (r.completefilecount + r.renamedfilecount + r.damagedfilecount + r.missingfilecount
          + more_files
        < 2 ^ 32)

count_file-IsCounted :
    (f : Option VerifiedFile) (r : Results)
    → HasRoom r (blocks f) 1
    → IsCounted f r (count_file f r)
unfolding count_file count_found
count_file-IsCounted none r (room, files) = record {
  available = refl;
  complete = refl;
  others = omega arith;
}
count_file-IsCounted (some f) r (room, files) = elim (Option-cases f.completefile) [
  | inl incomplete ↦
      let sum = count_blocks_set_lem f.sourceblocks r.availableblockcount room in
      let split = set-unset f.sourceblocks in
      elim (Bool-cases f.targetexists) [
        | inl damaged ↦
            rw (incomplete, damaged)
              record { available = omega arith; complete = refl; others = omega arith }
        | inr missing ↦
            rw (incomplete, missing)
              record { available = omega arith; complete = refl; others = omega arith }
      ]
  | inr (file, found) ↦
      let size = block_number_lem 0 f.sourceblocks in
      elim (Bool-cases (is_target file f.targetfile)) [
        | inl own ↦
            rw (found, own)
              record {
                available = omega arith;
                complete = rw own (omega arith);
                others = rw own (omega arith);
              }
        | inr other ↦
            rw (found, other)
              record {
                available = omega arith;
                complete = rw other (omega arith);
                others = rw other (omega arith);
              }
      ]
]

record AreCounted (fs : List (Option VerifiedFile)) (r s : Results) : Type 0 where
  available : s.availableblockcount + all_lost fs ≡ r.availableblockcount + all_blocks fs
  complete : s.completefilecount + out_of_place fs ≡ r.completefilecount + length fs
  others :
      s.renamedfilecount + s.damagedfilecount + s.missingfilecount
      ≡ r.renamedfilecount + r.damagedfilecount + r.missingfilecount + out_of_place fs

count_files-AreCounted :
    (fs : List (Option VerifiedFile)) (r : Results)
    → HasRoom r (all_blocks fs) (length fs)
    → AreCounted fs r (count_files (length fs) fs r)
unfolding count_files
count_files-AreCounted [] r room = record {
  available = refl;
  complete = refl;
  others = omega arith;
}
count_files-AreCounted (f ∷ fs) r (room, files) =
    let s = count_file f r in
    let one = count_file-IsCounted f r (omega arith, omega arith) in
    let rest =
      count_files-AreCounted fs s
        (omega (arith, one.available), omega (arith, one.complete, one.others)) in
    record {
      available = omega (arith, one.available, rest.available);
      complete = omega (arith, one.complete, rest.complete);
      others = omega (arith, one.others, rest.others);
    }

-- Repair is required when files are missing from their places.
required_some :
    (recoverable : ℕ) (r : Results)
    → repair_required recoverable r ≡ true
    → 0
      < (recoverable - r.completefilecount)
        + (r.renamedfilecount + r.damagedfilecount + r.missingfilecount)
required_some recoverable r h = ground arith

required_none :
    (recoverable : ℕ) (r : Results)
    → repair_required recoverable r ≡ false
    → r.renamedfilecount + r.damagedfilecount + r.missingfilecount ≡ 0
required_none recoverable r h = ground arith

decision :
    (required : Bool) (missing packets out : ℕ)
    → (required ≡ true → 0 < out)
    → (required ≡ false → out ≡ 0)
    → ((if required then leb missing packets else true) ≡ true) ↔ ((out ≡ 0) ⊎ (missing ≤ packets))
decision true missing packets out some_out no_out =
    let away = some_out refl in
    (
      (λ h. inr (leb→le missing packets h)),
      (λ h. elim h [ inl none_out ↦ absurd (omega arith) | inr le ↦ ground arith ]),
    )
decision false missing packets out some_out no_out = ((λ h. inl (no_out refl)), (λ h. refl))

-- When sourceblockcount is the number of blocks of the files, and it and the number of files
-- fit in 32 bits, and at most all files are recoverable, UpdateVerificationResults counts as
-- missing the blocks without a place of the files that were not found complete, and
-- CheckVerificationResults succeeds exactly when every file was found complete in its place or
-- there are at least as many recovery packets as missing blocks.
pub check_verification_results_lem :
    (recoverable recoverypackets : ℕ) (files : List (Option VerifiedFile))
    → all_blocks files < 2 ^ 32
    → length files < 2 ^ 32
    → recoverable ≤ length files
    → let r = update_verification_results (length files) (all_blocks files) files in
      (r.missingblockcount ≡ all_lost files)
      × ((check_verification_results recoverable recoverypackets r ≡ true)
          ↔ ((out_of_place files ≡ 0) ⊎ (all_lost files ≤ recoverypackets)))
unfolding update_verification_results check_verification_results
check_verification_results_lem recoverable recoverypackets files blocks_fit files_fit few =
    let s = count_files (length files) files no_results in
    let counts = count_files-AreCounted files no_results (omega arith, omega arith) in
    let available = counts.available in
    let complete = counts.complete in
    let others = counts.others in
    let missing : u32 (all_blocks files + (2 ^ 32 - s.availableblockcount)) ≡ all_lost files =
      omega arith in
    let r = update_verification_results (length files) (all_blocks files) files in
    (
      missing,
      rw missing (
          decision (repair_required recoverable r) (all_lost files) recoverypackets
            (out_of_place files) (λ h. omega (arith, required_some recoverable r h))
            (λ h. omega (arith, required_none recoverable r h))),
    )
