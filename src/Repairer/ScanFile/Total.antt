-- ===== src/Repairer/ScanFile/Total.antt =====
-- ScanDataFile of par2repairer.cpp comes to an end.
use par2tbb.Base.{ℕ, zero, suc, ◌+◌, ◌-◌, ◌<◌, ◌≤◌, ◌≡◌, refl, sym, ap, subst, ◌∙◌, arith}
use par2tbb.Base.{
  ltb, ◌==◌, if◌then◌else◌, Bool, Bool-cases, true, false, inl, inr, Option, none, some, List,
}
use par2tbb.Checksummer.{Disk, Summer, file_size, start, fill}
use par2tbb.Checksummer.Jump.{IsFresh, Run, started}
use par2tbb.Checksummer.Progress.{
  IsReadable, step_advances, jump_advances, rescan_keeps, fill_succeeds,
}
use par2tbb.Checksummer.Run.{Run-blocksize}
use par2tbb.Matching.{Entry, HashTable}
use par2tbb.Matching.Find.{Blocks, find_match}
use par2tbb.Repairer.ScanFile.{
  take_match, set_block, Packets, Progress, matched, missed, found_or_not, scan_round, scan_loop,
  concluded, verdict, first_progress, after_start, scan_data_file, new_summer,
}
use par2tbb.Repairer.ScanFile.End.{Run-size}
use par2tbb.Repairer.ScanFile.Verdict.{round, round-Run}

start_succeeds : (d : Disk) (s : Summer) → IsReadable d → (start d s).0 ≡ true
unfolding start
start_succeeds d s readable = (rescan_keeps (fill d _)).0 ∙ fill_succeeds d _ readable

take_match-blocks :
    (offset : ℕ) (e : Entry) (p : Progress) → (take_match offset e p).blocks ≡ p.blocks
unfolding take_match
take_match-blocks offset e p = elim (Bool-cases (p.count == 0)) [
  | inl first ↦ rw first refl
  | inr later ↦ rw later refl
]

-- The block lengths of the table are not changed.
abbrev HasSizes : ℕ → Progress → Type 0
HasSizes blocksize p = (n : ℕ) → (0 < p.blocks.size n) × (p.blocks.size n ≤ blocksize)

module _ (d : Disk) (file : ℕ) (h : HashTable) (entries : List Entry) (packets : ℕ → Packets)
    (blocksallocated : Bool) where
  matched_sizes :
      (offset : ℕ) (e : Entry) (p : Progress)
      → let q = take_match offset e p in
        (if blocksallocated then set_block file offset e q else q).blocks.size ≡ p.blocks.size
  unfolding set_block
  matched_sizes offset e p =
      let kept = ap (λ (b : Blocks). b.size) (take_match-blocks offset e p) in
      elim (Bool-cases blocksallocated) [
        | inl allocated ↦ rw allocated kept
        | inr not_yet ↦ rw not_yet kept
      ]

  -- A round before the end of the file succeeds and moves on.
  found_advances :
      (t : Summer) (p : Progress) (found : Option Entry × Bool)
      → IsReadable d
      → t.currentoffset < t.filesize
      → 0 < t.blocksize
      → ((n : ℕ) → (0 < p.blocks.size n) × (p.blocks.size n ≤ t.blocksize))
      → let r = found_or_not d file h entries packets blocksallocated t.blocksize t found p in
        (r.0.0 ≡ true) × (t.currentoffset < r.0.1.currentoffset) × (r.1.blocks.size ≡ p.blocks.size)
  unfolding found_or_not matched missed take_match set_block
  found_advances t p (some e, duplicate) readable before positive sizes =
      let (some_bytes, fits) = sizes e.data_block in
      let (ok, there) =
        jump_advances d (p.blocks.size e.data_block) t readable before some_bytes fits in
      (ok, omega (arith, there), matched_sizes t.currentoffset e p)
  found_advances t p (none, true) readable before positive sizes =
      let (ok, there) = jump_advances d t.blocksize t readable before positive (omega arith) in
      (ok, omega (arith, there), refl)
  found_advances t p (none, false) readable before positive sizes =
      let (ok, there) = step_advances d t readable before in (ok, omega (arith, there), refl)

  round_advances :
      (t : Summer) (p : Progress)
      → IsReadable d
      → t.currentoffset < t.filesize
      → 0 < t.blocksize
      → HasSizes t.blocksize p
      → let r = round d file h entries packets blocksallocated t p in
        (r.0.0 ≡ true) × (t.currentoffset < r.0.1.currentoffset) × (r.1.blocks.size ≡ p.blocks.size)
  unfolding scan_round
  round_advances t p = found_advances t p (find_match h p.blocks t file p.next p.source)

  -- The loop ends with one round for each byte at most.
  scan_loop_ends :
      (fuel : ℕ) (s t : Summer) (p : Progress)
      → IsReadable d
      → IsFresh d s
      → Run d s t
      → HasSizes s.blocksize p
      → file_size d - t.currentoffset < fuel
      → (r : Summer × Progress) × (scan_loop d file h entries packets blocksallocated fuel t p
          ≡ some r)
  unfolding scan_loop
  scan_loop_ends zero s t p readable fresh r sizes enough = absurd (omega arith)
  scan_loop_ends (suc fuel) s t p readable fresh r sizes enough =
      elim (Bool-cases (ltb t.currentoffset (file_size d))) [
        | inl before ↦
            let next = round d file h entries packets blocksallocated t p in
            let size = Run-blocksize d s t r in
            let (ok, moved, kept) =
              round_advances t p readable (ground (arith, before, Run-size d s t fresh r))
                (omega (arith, size, fresh.some_block))
                (subst (λ b. HasSizes b p) (sym size) sizes) in
            let again : Run d s next.0.1 =
              round-Run d file h entries packets blocksallocated s t next.0.1 p next.1 r
                (ap (λ b. ((b, next.0.1), next.1)) ok) in
            let (result, done) =
              scan_loop_ends fuel s next.0.1 next.1 readable fresh again
                (subst (λ (f : ℕ → ℕ). (n : ℕ) → (0 < f n) × (f n ≤ s.blocksize)) (sym kept) sizes)
                (ground (arith, before, moved, enough)) in
            (result, rw (before, ok) done)
        | inr ended ↦ ((t, p), rw ended refl)
      ]

  -- On a file that is not empty and whose reads succeed, with a positive block size, the window
  -- table and mask of that size, and data blocks of one byte to the block size, ScanDataFile
  -- returns a result after at most one round for each byte of the file and one more.
  pub scan_data_file_ends :
      (blocksize : ℕ) (windowtable : ℕ → ℕ) (windowmask : ℕ) (source : Option ℕ) (blocks : Blocks)
      → IsReadable d
      → IsFresh d (new_summer d blocksize windowtable windowmask)
      → ((n : ℕ) → (0 < blocks.size n) × (blocks.size n ≤ blocksize))
      → (q : Progress) × (scan_data_file d file h entries packets blocksallocated
            (file_size d + 1)
            blocksize
            windowtable
            windowmask
            source
            blocks
          ≡ some q)
  unfolding scan_data_file new_summer
  scan_data_file_ends blocksize windowtable windowmask source blocks readable fresh sizes =
      let s = new_summer d blocksize windowtable windowmask in
      let some_bytes : (file_size d == 0) ≡ false = ground (arith, fresh.some_file) in
      let p = first_progress source blocks in
      let begun = ap (λ b. (b, (start d s).1)) (start_succeeds d s readable) in
      let (result, done) =
        scan_loop_ends (file_size d + 1) s (start d s).1 p readable fresh (started begun) sizes
          (omega arith) in
      (
        verdict d file h entries packets blocksallocated result.0 result.1,
        rw some_bytes (
            ap (after_start d file h entries packets blocksallocated (file_size d + 1) p) begun
            ∙ ap (concluded d file h entries packets blocksallocated) done),
      )
