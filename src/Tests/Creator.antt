-- ===== src/Tests/Creator.antt =====
-- The choices of par2creator.cpp for three small files, and for seven recovery blocks.
use par2tbb.Creator.Placement.{
  place_packets, add_recovery, add_critical, next_critical, place, add_all,
}
use par2tbb.Creator.Placement.Copies.{IsTiled, criticals, exponents, turns, numbers}
use par2tbb.Creator.Placement.Sizes.{critical_size, AreSized}
use par2tbb.Creator.Placement.Whole.{copies_of, place_packets_lem}
use par2tbb.Base.{ℕ, List, [], ◌∷◌, some, true, false, ◌≡◌, refl, ◌*◌, arith}
use par2tbb.Creator.{Creator, Scheme}
use par2tbb.Creator.Sizing.{
  search, compute_block_size_and_block_count, block_size, best_size, lower_bound, upper_bound,
}
use par2tbb.Creator.Sizing.{measure, consider, narrow, take_best}
use par2tbb.Creator.Blocks.{IsSized, compute_block_size_and_block_count_lem}
use par2tbb.Creator.Allocation.{
  FileAllocation, largest_blocks, compute_recovery_file_count, scheme_file_count,
  limited_file_count, halvings,
}
use par2tbb.Creator.Allocation.{file_allocations, scheme_files, limited_files, fill_top, spread}
use par2tbb.Creator.Schemes.{IsPlanned, HasFiles, file_allocations_lem}
use par2tbb.Creator.Limit.{AreAtMost, file_allocations_limit}
use par2tbb.Creator.Redundancy.{compute_recovery_block_count}

abbrev three_files : List ℕ
three_files = 10 ∷ 5 ∷ 30 ∷ []

-- Five blocks are asked for.
abbrev five_blocks : Creator
five_blocks = record {
  blocksize = 0;
  chunksize = 0;
  sourceblockcount = 5;
  recoveryblockcount = 7;
  recoveryfilecount = 0;
  recoveryfilescheme = Scheme.limited;
  firstrecoveryblock = 2;
  largestfilesize = 30;
  deferhashcomputation = false;
}

abbrev chosen : Creator
chosen = record five_blocks { blocksize = 12 }

five_blocks-chosen : compute_block_size_and_block_count five_blocks three_files ≡ some chosen
unfolding compute_block_size_and_block_count block_size best_size lower_bound upper_bound search
    measure consider narrow take_best
five_blocks-chosen = refl

compute_block_size_and_block_count_lem_example : IsSized five_blocks three_files chosen
compute_block_size_and_block_count_lem_example =
    compute_block_size_and_block_count_lem five_blocks chosen three_files (omega arith)
      (omega arith, (omega arith, (omega arith, omega arith))) (omega arith) (omega arith)
      (omega arith) five_blocks-chosen

-- The largest file takes three blocks: the last file has three, and the others one, two and one.
chosen-largest : largest_blocks chosen ≡ 3
unfolding largest_blocks
chosen-largest = refl

chosen-IsPlanned : IsPlanned chosen
unfolding largest_blocks
chosen-IsPlanned = record {
  exponents = omega arith;
  files = omega arith;
  largest_positive = omega arith;
  largest_small = omega arith;
}

abbrev counted : Creator
counted = record chosen { recoveryfilecount = 4 }

chosen-counted : compute_recovery_file_count chosen ≡ some counted
unfolding compute_recovery_file_count scheme_file_count limited_file_count largest_blocks halvings
chosen-counted = refl

abbrev four_files : List FileAllocation
four_files =
    record { exponent = 2; count = 1 }
    ∷ record { exponent = 3; count = 2 }
    ∷ record { exponent = 5; count = 1 }
    ∷ record { exponent = 6; count = 3 }
    ∷ []

counted-four_files : file_allocations counted ≡ some (four_files, 6)
unfolding file_allocations scheme_files limited_files largest_blocks fill_top spread
counted-four_files = refl

file_allocations_lem_example : HasFiles chosen counted
file_allocations_lem_example = file_allocations_lem chosen counted chosen-IsPlanned chosen-counted

file_allocations_limit_example : AreAtMost (largest_blocks chosen) four_files
file_allocations_limit_example =
    file_allocations_limit chosen counted (four_files, 6) chosen-IsPlanned refl chosen-counted
      counted-four_files

abbrev one_block : Creator
one_block = record chosen { recoveryblockcount = 1 }

ten_percent : compute_recovery_block_count 0 true chosen ≡ some one_block
unfolding compute_recovery_block_count
ten_percent = refl

-- Four critical packets, twice, take 904 bytes.
eight_criticals : critical_size (108 ∷ 120 ∷ 124 ∷ 100 ∷ []) (turns 4 8) ≡ 904
unfolding turns
eight_criticals = refl

-- A file of the recovery blocks 5, 6 and 7, with four critical packets, each of them twice.
place_packets_lem_example :
    let r = place_packets (108 ∷ 120 ∷ 124 ∷ 100 ∷ []) 80 64 (record { exponent = 5; count = 3 }) in
    IsTiled 0 r.placed r.offset
    × AreSized (108 ∷ 120 ∷ 124 ∷ 100 ∷ []) 80 64 r.placed
    × (criticals r.placed ≡ turns 4 (copies_of (record { exponent = 5; count = 3 }) * 4))
    × (exponents r.placed ≡ numbers 5 3)
unfolding copies_of halvings
place_packets_lem_example =
    place_packets_lem (108 ∷ 120 ∷ 124 ∷ 100 ∷ []) 80 64 (record { exponent = 5; count = 3 })
      (omega arith) (omega arith) (omega arith) (omega (arith, eight_criticals))

-- The critical packets of that file, in their order.
critical_run :
    criticals
      (place_packets (108 ∷ 120 ∷ 124 ∷ 100 ∷ []) 80 64 (record { exponent = 5; count = 3 })).placed
    ≡ 0 ∷ 1 ∷ 2 ∷ 3 ∷ 0 ∷ 1 ∷ 2 ∷ 3 ∷ []
unfolding place_packets halvings add_recovery add_critical next_critical place add_all
critical_run = refl
