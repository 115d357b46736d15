-- ===== src/DataBlock/Copy.antt =====
-- A piece of a block that WriteData of datablock.cpp writes and ReadData reads back.
use par2tbb.Base.{ℕ, zero, suc, ◌+◌, ◌-◌, ◌≤◌, ◌≡◌, refl, ap, ◌∙◌, arith, min, ltb}
use par2tbb.Base.{List, [], ◌∷◌, ◌++◌, length, take, drop, length-take}
use par2tbb.Base.{true, false, inl, inr, some}
use par2tbb.Md5.Stream.{zero_bytes}
use par2tbb.Checksummer.{Disk, read, overwrite}
use par2tbb.Checksummer.Progress.{IsReadable}
use par2tbb.Checksummer.Slices.{take-append_eq}
use par2tbb.DataBlock.{DataBlock, Volume, read_data, write_data, zero_rest}
use par2tbb.DataBlock.Bounds.{drop-append_eq, write_data-cases}

-- The piece that was written, in the file.
piece-overwrite :
    (b : List ℕ) (at n : ℕ) (bytes : List ℕ)
    → at + length bytes ≤ length b
    → n ≡ length bytes
    → take n (drop at (overwrite b at bytes)) ≡ bytes
piece-overwrite b at n bytes h same =
    ap (take n) (drop-append_eq at (take at b) _ (omega (arith, length-take at b)))
    ∙ take-append_eq n bytes _ same

pub read_readable :
    (d : Disk) (offset len : ℕ)
    → IsReadable d
    → read d offset len ≡ some (take len (drop offset d.contents))
unfolding read
read_readable d offset len r = rw (r offset len) refl

take-min : (bytes : List ℕ) (n : ℕ) → take (min (length bytes) n) bytes ≡ take n bytes
take-min [] zero = refl
take-min [] (suc n) = ap (λ m. take {A = ℕ} m []) {y = 0} (omega arith)
take-min (x ∷ xs) zero = ap (λ m. take m (x ∷ xs)) {y = 0} (omega arith)
take-min (x ∷ xs) (suc n) =
    ap (λ m. take m (x ∷ xs)) {y = suc (min (length xs) n)} (omega arith)
    ∙ ap (λ r. x ∷ r) (take-min xs n)

-- After a WriteData that succeeds on a block that its file holds, and while reads succeed,
-- ReadData at the same position gives the bytes that were written up to the end of the block,
-- and zeros for the rest of the buffer.
pub read_data-write_data :
    (v w : Volume) (b : DataBlock) (position wrote : ℕ) (bytes : List ℕ)
    → b.offset + b.length ≤ length v.disk.contents
    → IsReadable w.disk
    → write_data v b position bytes ≡ some (wrote, w)
    → read_data w.disk b position (length bytes)
      ≡ some (take (b.length - position) bytes ++ zero_bytes (length bytes - (b.length - position)))
unfolding read_data zero_rest
read_data-write_data v w b position wrote bytes h r done =
    let want = min (length bytes) (b.length - position) in
    elim (write_data-cases v w b position wrote bytes done) [
      | inl (outside, nothing, same) ↦
          let test : ltb position b.length ≡ false = ground arith in
          let none_left : b.length - position ≡ 0 = omega arith in
          rw (test, none_left) (ap (λ n. some (zero_bytes n)) {y = length bytes - 0} (omega arith))
      | inr (inside, count, stored) ↦
          let test : ltb position b.length ≡ true = ground arith in
          let size : length (take wrote bytes) ≡ wrote = omega (arith, length-take wrote bytes) in
          let piece : take want (drop (b.offset + position) w.disk.contents) ≡ take wrote bytes =
            ap (λ c. take want (drop (b.offset + position) c)) stored
            ∙ piece-overwrite v.disk.contents (b.offset + position) want (take wrote bytes)
                (omega arith) (omega arith) in
          let cut : take wrote bytes ≡ take (b.length - position) bytes =
            ap (λ n. take n bytes) count ∙ take-min bytes (b.length - position) in
          rw test (
            ap (zero_rest (length bytes))
              (read_readable w.disk (b.offset + position) want r ∙ ap some (piece ∙ cut))
            ∙ ap (λ n. some (take (b.length - position) bytes ++ zero_bytes n))
                (omega (arith, length-take (b.length - position) bytes)))
    ]
