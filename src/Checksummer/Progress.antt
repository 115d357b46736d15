-- ===== src/Checksummer/Progress.antt =====
-- Step and Jump of filechecksummer.cpp on a file whose reads succeed.
use par2tbb.Base.{ℕ, ◌+◌, ◌-◌, ◌*◌, ◌≤◌, ◌<◌, ◌≡◌, arith, min, Bool, true, false}
use par2tbb.Base.{ltb, ◌∙◌, refl}
use par2tbb.Checksummer.{Disk, Summer, read, fill, filled, blank_rest, take_in, step, jump, rescan}
use par2tbb.Checksummer.{slide, shift_back, keep_rest, finish_file}

-- No read fails.
abbrev pub IsReadable : Disk → Type 0
IsReadable d = (offset len : ℕ) → d.readable offset len ≡ true

pub fill_succeeds : (d : Disk) (s : Summer) → IsReadable d → (fill d s).0 ≡ true
unfolding fill filled read
fill_succeeds d s r =
    ground
      (arith, r s.readoffset (min (s.filesize - s.readoffset) (2 * s.blocksize - s.tailpointer)))

pub fill-currentoffset : (d : Disk) (s : Summer) → (fill d s).1.currentoffset ≡ s.currentoffset
unfolding fill filled blank_rest take_in read
fill-currentoffset d s = ground arith

pub rescan_keeps :
    (r : Bool × Summer) → ((rescan r).0 ≡ r.0) × ((rescan r).1.currentoffset ≡ r.1.currentoffset)
unfolding rescan
rescan_keeps (true, s) = (refl, refl)
rescan_keeps (false, s) = (refl, refl)

-- Before the end of a file whose reads succeed, Step succeeds and moves the window by one byte.
pub step_advances :
    (d : Disk) (s : Summer)
    → IsReadable d
    → s.currentoffset < s.filesize
    → ((step d s).0 ≡ true) × ((step d s).1.currentoffset ≡ s.currentoffset + 1)
unfolding step slide shift_back finish_file
step_advances d s r h = (
  ground (arith, fill_succeeds d (shift_back (slide s)) r),
  ground (arith, fill-currentoffset d (shift_back (slide s))),
)

refilled :
    (d : Disk) (s : Summer)
    → IsReadable d
    → ((rescan (fill d (keep_rest s))).0 ≡ true)
      × ((rescan (fill d (keep_rest s))).1.currentoffset ≡ s.currentoffset)
unfolding keep_rest
refilled d s r =
    let (same, offset) = rescan_keeps (fill d (keep_rest s)) in
    (same ∙ fill_succeeds d (keep_rest s) r, offset ∙ fill-currentoffset d (keep_rest s))

-- Before the end of a file whose reads succeed, Jump by at least one byte and at most a block
-- succeeds and moves the window by the distance, or to the end of the file.
pub jump_advances :
    (d : Disk) (distance : ℕ) (s : Summer)
    → IsReadable d
    → s.currentoffset < s.filesize
    → 0 < distance
    → distance ≤ s.blocksize
    → ((jump d distance s).0 ≡ true)
      × ((jump d distance s).1.currentoffset ≡ min (s.currentoffset + distance) s.filesize)
unfolding jump finish_file
jump_advances d distance s r h p q =
    let moved = record s {
      currentoffset = s.currentoffset + distance;
      outpointer = s.outpointer + distance;
    } in
    let (ok, offset) = refilled d moved r in
    let (stepped, by_one) = step_advances d s r h in
    let by : ltb s.blocksize distance ≡ false = ground arith in rw by (ground arith, ground arith)
