-- ===== src/Repairer/Results.antt =====
-- UpdateVerificationResults and CheckVerificationResults of par2repairer.cpp, over what the
-- verification found of each source file; `none` is a file without packets.
pub mod Verdict
use par2tbb.Base.{
  ℕ, zero, suc, ◌+◌, ◌-◌, ◌^◌, ltb, leb, ◌==◌, if◌then◌else◌, Bool, true, false, ◌||◌,
}
use par2tbb.Base.{Option, none, some, List, [], ◌∷◌}
use par2tbb.Creator.{u32}
use par2tbb.DataBlock.{DataBlock, block_is_set}

-- The found file of a source file, its own file, and its blocks; files are numbered.
pub record VerifiedFile : Type 0 where
  pub completefile : Option ℕ
  pub targetfile : Option ℕ
  pub targetexists : Bool
  pub sourceblocks : List DataBlock

abbrev pub block_number : ℕ → List DataBlock → ℕ
block_number n [] = n
block_number n (b ∷ bs) = block_number (n + 1) bs

pub record Results : Type 0 where
  pub availableblockcount : ℕ
  pub missingblockcount : ℕ
  pub completefilecount : ℕ
  pub renamedfilecount : ℕ
  pub damagedfilecount : ℕ
  pub missingfilecount : ℕ

abbrev pub no_results : Results
no_results = record {
  availableblockcount = 0;
  missingblockcount = 0;
  completefilecount = 0;
  renamedfilecount = 0;
  damagedfilecount = 0;
  missingfilecount = 0;
}

-- The loop over the blocks of a file that was not found complete.
unfoldable pub count_blocks_set : List DataBlock → ℕ → ℕ
count_blocks_set [] available = available
count_blocks_set (b ∷ bs) available =
    count_blocks_set bs (if block_is_set b then u32 (available + 1) else available)

abbrev pub is_target : ℕ → Option ℕ → Bool
is_target file none = false
is_target file (some target) = file == target

-- One file, found complete or not.
unfoldable pub count_found : Option ℕ → VerifiedFile → Results → Results
count_found (some file) f r =
    let all = record r {
      availableblockcount = u32 (r.availableblockcount + block_number 0 f.sourceblocks);
    } in
    if is_target file f.targetfile
    then record all { completefilecount = u32 (r.completefilecount + 1) }
    else record all { renamedfilecount = u32 (r.renamedfilecount + 1) }
count_found none f r =
    let part = record r {
      availableblockcount = count_blocks_set f.sourceblocks r.availableblockcount;
    } in
    if f.targetexists
    then record part { damagedfilecount = u32 (r.damagedfilecount + 1) }
    else record part { missingfilecount = u32 (r.missingfilecount + 1) }

unfoldable pub count_file : Option VerifiedFile → Results → Results
count_file none r = record r { missingfilecount = u32 (r.missingfilecount + 1) }
count_file (some f) r = count_found f.completefile f r

-- The loop over the first `left` files.
unfoldable pub count_files : ℕ → List (Option VerifiedFile) → Results → Results
count_files zero files r = r
count_files (suc left) [] r = r
count_files (suc left) (f ∷ fs) r = count_files left fs (count_file f r)

unfoldable pub update_verification_results : ℕ → ℕ → List (Option VerifiedFile) → Results
update_verification_results totalfilecount sourceblockcount files =
    let r = count_files totalfilecount files no_results in
    record r { missingblockcount = u32 (sourceblockcount + (2 ^ 32 - r.availableblockcount)) }

abbrev pub repair_required : ℕ → Results → Bool
repair_required recoverablefilecount r =
    ltb r.completefilecount recoverablefilecount
    || ltb 0 r.renamedfilecount
    || ltb 0 r.damagedfilecount
    || ltb 0 r.missingfilecount

-- The result for a number of recovery packets.
unfoldable pub check_verification_results : ℕ → ℕ → Results → Bool
check_verification_results recoverablefilecount recoverypackets r =
    if repair_required recoverablefilecount r then leb r.missingblockcount recoverypackets else true
