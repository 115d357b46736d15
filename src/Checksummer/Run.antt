-- ===== src/Checksummer/Run.antt =====
-- Any sequence of calls of Start, Step and Jump of filechecksummer.cpp.
use mathlib.Core.Bool.{false≢true}
use par2tbb.Base.{ℕ, ◌+◌, ◌≤◌, ◌≡◌, refl, sym, ap, subst, ◌∙◌, arith}
use par2tbb.Base.{length, take, drop}
use par2tbb.Base.{if◌then◌else◌, true, false, inl, inr, ltb, leb, Bool}
use par2tbb.Crc.{block_crc}
use par2tbb.Md5.Digest.{rfc1321}
use par2tbb.Checksummer.{Summer, Disk, fill, filled, blank_rest, take_in, read, slide, shift_back}
use par2tbb.Checksummer.{finish_file, keep_rest, rescan, start, step, jump, head_size, file_hashes}
use par2tbb.Checksummer.Hashes.{Hashed, file_hashes_lem}
use par2tbb.Checksummer.Window.{window_in_file}
use par2tbb.Checksummer.Scan.{Sound}
use par2tbb.Checksummer.Jump.{started, stepped, jumped}
use par2tbb.Checksummer.Jump.{IsFresh, Run}
use par2tbb.Checksummer.Scan.{step-Sound}
use par2tbb.Checksummer.Jump.{start-Sound, jump-Sound}

-- When the current offset is the file's size, Step and Jump return false.
pub ended_refuses :
    (d : Disk) (distance : ℕ) (s : Summer)
    → s.currentoffset ≡ s.filesize
    → ((step d s).0 ≡ false) × ((jump d distance s).0 ≡ false)
unfolding step jump
ended_refuses d distance s h =
    let ended : leb s.filesize s.currentoffset ≡ true = ground arith in (rw ended, rw ended)

pub Run-Sound : (d : Disk) (s t : Summer) → IsFresh d s → Run d s t → Sound d t
Run-Sound d s t v (started h) = inr (start-Sound d s t v h)
Run-Sound d s t v (stepped {t = u} r h) = elim (Run-Sound d s u v r) [
  | inl e ↦ absurd (false≢true (sym (ended_refuses d 0 u e.at_end).0 ∙ ap (λ r. r.0) h))
  | inr w ↦ step-Sound d u t w h
]
Run-Sound d s t v (jumped {t = u} distance r h) = elim (Run-Sound d s u v r) [
  | inl e ↦ absurd (false≢true (sym (ended_refuses d distance u e.at_end).1 ∙ ap (λ r. r.0) h))
  | inr w ↦ jump-Sound d distance u t w h
]

-- The block size is never changed.
fill-blocksize : (d : Disk) (s : Summer) → (fill d s).1.blocksize ≡ s.blocksize
unfolding fill filled blank_rest take_in read
fill-blocksize d s = ground arith

rescan-blocksize : (r : Bool × Summer) → (rescan r).1.blocksize ≡ r.1.blocksize
unfolding rescan
rescan-blocksize (true, s) = refl
rescan-blocksize (false, s) = refl

step-blocksize : (d : Disk) (s : Summer) → (step d s).1.blocksize ≡ s.blocksize
unfolding step slide shift_back finish_file
step-blocksize d s = ground (arith, fill-blocksize d (shift_back (slide s)))

start-blocksize : (d : Disk) (s : Summer) → (start d s).1.blocksize ≡ s.blocksize
unfolding start
start-blocksize d s = rescan-blocksize (fill d _) ∙ fill-blocksize d _

refilled-blocksize :
    (d : Disk) (s : Summer) → (rescan (fill d (keep_rest s))).1.blocksize ≡ s.blocksize
unfolding keep_rest
refilled-blocksize d s = rescan-blocksize (fill d (keep_rest s)) ∙ fill-blocksize d (keep_rest s)

jump-blocksize : (d : Disk) (n : ℕ) (s : Summer) → (jump d n s).1.blocksize ≡ s.blocksize
unfolding jump finish_file
jump-blocksize d n s =
    let by = if ltb s.blocksize n then s.blocksize else n in
    let moved = record s { currentoffset = s.currentoffset + by; outpointer = s.outpointer + by } in
    ground (arith, step-blocksize d s, refilled-blocksize d moved)

pub Run-blocksize : (d : Disk) (s t : Summer) → Run d s t → t.blocksize ≡ s.blocksize
Run-blocksize d s t (started h) = ap (λ r. r.1.blocksize) (sym h) ∙ start-blocksize d s
Run-blocksize d s t (stepped {t = u} r h) =
    ap (λ r. r.1.blocksize) (sym h) ∙ step-blocksize d u ∙ Run-blocksize d s u r
Run-blocksize d s t (jumped {t = u} n r h) =
    ap (λ r. r.1.blocksize) (sym h) ∙ jump-blocksize d n u ∙ Run-blocksize d s u r

-- From a fresh object on a file that is not empty, after one call of Start and any calls of
-- Step and Jump behind it, all of which succeed, and while a whole block is left in the file,
-- the checksum is the CRC of the block of the file at the current offset.
pub Run-checksum :
    (d : Disk) (s t : Summer)
    → IsFresh d s
    → Run d s t
    → t.currentoffset + s.blocksize ≤ length d.contents
    → t.checksum ≡ block_crc (take s.blocksize (drop t.currentoffset d.contents))
Run-checksum d s t v r h =
    let size = Run-blocksize d s t r in
    elim (Run-Sound d s t v r) [
      | inl e ↦ absurd (omega (arith, e.at_end, e.size, v.some_block))
      | inr w ↦
          window_in_file w (omega (arith, w.agrees.size))
          ∙ ap (λ n. block_crc (take n (drop t.currentoffset d.contents))) size
    ]

-- From a fresh object on a file that is not empty, once Start and any calls of Step and Jump
-- that succeed have read the whole file, GetFileHashes gives the MD5 of the file and of its
-- first 16k.
pub Run-hashes :
    (d : Disk) (s t : Summer)
    → IsFresh d s
    → Run d s t
    → t.readoffset ≡ length d.contents
    → file_hashes t ≡ (rfc1321 d.contents, rfc1321 (take head_size d.contents))
Run-hashes d s t v r h = elim (Run-Sound d s t v r) [
  | inl e ↦ file_hashes_lem d.contents t e.size (subst (λ n. Hashed d.contents n t) h e.hashed)
  | inr w ↦
      file_hashes_lem d.contents t w.agrees.size
        (subst (λ n. Hashed d.contents n t) h w.agrees.hashed)
]
