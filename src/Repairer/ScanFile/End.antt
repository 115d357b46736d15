-- ===== src/Repairer/ScanFile/End.antt =====
-- At the end of a scan filechecksummer.cpp has read the whole file.
use mathlib.Core.Bool.{false≢true}
use par2tbb.Base.{ℕ, ◌+◌, ◌<◌, ◌≤◌, ◌≡◌, refl, sym, ap, subst, ◌∙◌, ◌⊎◌, arith}
use par2tbb.Base.{length, ltb, true, false, Bool, inl, inr, if◌then◌else◌}
use par2tbb.Checksummer.{
  Disk, Summer, fill, filled, blank_rest, take_in, read, step, jump, slide, shift_back, finish_file,
  keep_rest, rescan,
}
use par2tbb.Checksummer.Window.{Scanning}
use par2tbb.Checksummer.Scan.{Sound}
use par2tbb.Checksummer.Jump.{IsFresh, Run, started, stepped, jumped, start-Sound}
use par2tbb.Checksummer.Progress.{fill-currentoffset, rescan_keeps}
use par2tbb.Checksummer.Run.{ended_refuses, Run-Sound}

-- A window that reaches the end of the file: everything is read.
all_read :
    (d : Disk) (s : Summer)
    → Scanning d s
    → s.filesize ≤ s.currentoffset + s.blocksize
    → s.readoffset ≡ length d.contents
all_read d s v h =
    ground
      (arith, v.full, v.agrees.offsets, v.out_lt, v.agrees.read_in, v.agrees.size, v.agrees.tail_in)

fill-filesize : (d : Disk) (s : Summer) → (fill d s).1.filesize ≡ s.filesize
unfolding fill filled blank_rest take_in read
fill-filesize d s = ground arith

rescan-filesize : (r : Bool × Summer) → (rescan r).1.filesize ≡ r.1.filesize
unfolding rescan
rescan-filesize (true, s) = refl
rescan-filesize (false, s) = refl

-- Step and Jump keep the size, and where they come to the end they read no more.
step_to_end :
    (d : Disk) (s : Summer)
    → s.currentoffset < s.filesize
    → ((step d s).1.filesize ≡ s.filesize)
      × (s.filesize ≤ (step d s).1.currentoffset
          → (s.filesize ≤ s.currentoffset + 1) × ((step d s).1.readoffset ≡ s.readoffset))
unfolding step slide shift_back finish_file
step_to_end d s h = (
  ground (arith, fill-filesize d (shift_back (slide s))),
  ground (arith, fill-currentoffset d (shift_back (slide s))),
)

jump_to_end :
    (d : Disk) (n : ℕ) (s : Summer)
    → s.currentoffset < s.filesize
    → 0 < s.blocksize
    → ((jump d n s).1.filesize ≡ s.filesize)
      × (s.filesize ≤ (jump d n s).1.currentoffset
          → (s.filesize ≤ s.currentoffset + s.blocksize)
            × ((jump d n s).1.readoffset ≡ s.readoffset))
unfolding jump finish_file keep_rest
jump_to_end d n s h positive =
    let by = if ltb s.blocksize n then s.blocksize else n in
    let moved =
      keep_rest
        (record s { currentoffset = s.currentoffset + by; outpointer = s.outpointer + by }) in
    let (a, b) = step_to_end d s h in
    let same = rescan-filesize (fill d moved) ∙ fill-filesize d moved in
    let offset = (rescan_keeps (fill d moved)).1 ∙ fill-currentoffset d moved in
    (ground (arith, a, same), ground (arith, b, offset))

-- After a step or a jump that succeeds and comes to the end everything is read.
moved_to_end :
    (d : Disk) (u t : Summer)
    → Sound d u
    → u.currentoffset < u.filesize
    → (t.filesize ≡ u.filesize)
      × (u.filesize ≤ t.currentoffset
          → (u.filesize ≤ u.currentoffset + u.blocksize) × (t.readoffset ≡ u.readoffset))
    → t.filesize ≤ t.currentoffset
    → t.readoffset ≡ length d.contents
moved_to_end d u t (inl e) before (same, moved) h = absurd (omega (arith, e.at_end))
moved_to_end d u t (inr w) before (same, moved) h =
    let (near, kept) = moved (omega arith) in kept ∙ all_read d u w near

-- Before the end, since the calls at the end return false.
not_ended :
    (d : Disk) (u t : Summer) (n : ℕ)
    → Sound d u
    → (step d u ≡ (true, t)) ⊎ (jump d n u ≡ (true, t))
    → (u.currentoffset < u.filesize) × (0 < u.blocksize)
not_ended d u t n (inr w) done = (w.before_end, omega (arith, w.out_lt))
not_ended d u t n (inl e) (inl done) =
    absurd (false≢true (sym (ended_refuses d 0 u e.at_end).0 ∙ ap (λ r. r.0) done))
not_ended d u t n (inl e) (inr done) =
    absurd (false≢true (sym (ended_refuses d n u e.at_end).1 ∙ ap (λ r. r.0) done))

pub Run-size : (d : Disk) (s t : Summer) → IsFresh d s → Run d s t → t.filesize ≡ length d.contents
Run-size d s t v r = elim (Run-Sound d s t v r) [ inl e ↦ e.size | inr w ↦ w.agrees.size ]

pub Run-read :
    (d : Disk) (s t : Summer)
    → IsFresh d s
    → Run d s t
    → t.filesize ≤ t.currentoffset
    → t.readoffset ≡ length d.contents
Run-read d s t v (started done) h = absurd (omega (arith, (start-Sound d s t v done).before_end))
Run-read d s t v (stepped {t = u} r done) h =
    let sound = Run-Sound d s u v r in
    let (before, positive) = not_ended d u t 0 sound (inl done) in
    let (same, moved) = step_to_end d u before in
    let there : (step d u).1 ≡ t = ap (λ r. r.1) done in
    moved_to_end d u t sound before
      (
        sym (ap (λ (x : Summer). x.filesize) there) ∙ same,
        λ k.
            let (near, kept) =
              moved (subst (λ (x : Summer). u.filesize ≤ x.currentoffset) (sym there) k) in
            (omega arith, sym (ap (λ (x : Summer). x.readoffset) there) ∙ kept),
      )
      h
Run-read d s t v (jumped {t = u} n r done) h =
    let sound = Run-Sound d s u v r in
    let (before, positive) = not_ended d u t n sound (inr done) in
    let (same, moved) = jump_to_end d n u before positive in
    let there : (jump d n u).1 ≡ t = ap (λ r. r.1) done in
    moved_to_end d u t sound before
      (
        sym (ap (λ (x : Summer). x.filesize) there) ∙ same,
        λ k.
            let (near, kept) =
              moved (subst (λ (x : Summer). u.filesize ≤ x.currentoffset) (sym there) k) in
            (near, sym (ap (λ (x : Summer). x.readoffset) there) ∙ kept),
      )
      h
