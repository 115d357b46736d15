-- ===== src/Checksummer/Buffer.antt =====
-- The buffer of filechecksummer.cpp beside the file, and writing over a piece of it.
use par2tbb.Base.{ℕ, ◌+◌, ◌-◌, ◌*◌, ◌≤◌, ◌<◌, ◌≡◌, refl, sym, ap, ◌∙◌, arith}
use par2tbb.Base.{List, ◌++◌, length, take, drop, length-take, length-drop, length-append}
use mathlib.Core.List.{append_assoc}
use par2tbb.Checksummer.{Summer, Disk, overwrite}
use par2tbb.Checksummer.Slices.{take-append_le, take-append_eq}
use par2tbb.Checksummer.Hashes.{Hashed, take-take}

-- What holds of the buffer between the methods.
pub record Agrees (d : Disk) (s : Summer) : Type 0 where
  pub size : s.filesize ≡ length d.contents
  pub room : length s.buffer ≡ 2 * s.blocksize
  pub tail_in : s.tailpointer ≤ 2 * s.blocksize
  pub read_in : s.readoffset ≤ s.filesize
  pub out_in : s.outpointer ≤ s.currentoffset
  pub offsets : s.readoffset + s.outpointer ≡ s.currentoffset + s.tailpointer
  pub same :
      take s.tailpointer s.buffer
      ≡ take s.tailpointer (drop (s.currentoffset - s.outpointer) d.contents)
  pub hashed : Hashed d.contents s.readoffset s

-- Every byte that fits has been read.
abbrev pub IsFull : Summer → Type 0
IsFull s = s.tailpointer < 2 * s.blocksize → s.readoffset ≡ s.filesize

-- The fields and the bytes that Fill leaves alone.
pub record Keeps (s t : Summer) : Type 0 where
  pub blocksize : t.blocksize ≡ s.blocksize
  pub windowtable : t.windowtable ≡ s.windowtable
  pub windowmask : t.windowmask ≡ s.windowmask
  pub filesize : t.filesize ≡ s.filesize
  pub currentoffset : t.currentoffset ≡ s.currentoffset
  pub outpointer : t.outpointer ≡ s.outpointer
  pub inpointer : t.inpointer ≡ s.inpointer
  pub checksum : t.checksum ≡ s.checksum
  pub prefix : (n : ℕ) → n ≤ s.tailpointer → take n t.buffer ≡ take n s.buffer

pub Keeps-refl : (s : Summer) → Keeps s s
Keeps-refl s = record {
  blocksize = refl;
  windowtable = refl;
  windowmask = refl;
  filesize = refl;
  currentoffset = refl;
  outpointer = refl;
  inpointer = refl;
  checksum = refl;
  prefix = λ n h. refl;
}

-- A copy into the buffer.
pub length-overwrite :
    (b : List ℕ) (at : ℕ) (bytes : List ℕ)
    → at + length bytes ≤ length b
    → length (overwrite b at bytes) ≡ length b
length-overwrite b at bytes h = omega (
  arith,
  length-append (take at b) (bytes ++ drop (at + length bytes) b),
  length-append bytes (drop (at + length bytes) b),
  length-take at b,
  length-drop (at + length bytes) b,
)

pub take-overwrite_before :
    (b : List ℕ) (at : ℕ) (bytes : List ℕ) (n : ℕ)
    → n ≤ at
    → at ≤ length b
    → take n (overwrite b at bytes) ≡ take n b
take-overwrite_before b at bytes n h k =
    take-append_le n (take at b) _ (omega (arith, length-take at b)) ∙ take-take n at b h

pub take-overwrite :
    (b : List ℕ) (at : ℕ) (bytes : List ℕ)
    → at ≤ length b
    → take (at + length bytes) (overwrite b at bytes) ≡ take at b ++ bytes
take-overwrite b at bytes h =
    let behind = drop (at + length bytes) b in
    ap (take (at + length bytes)) (sym (append_assoc (take at b) bytes behind))
    ∙ take-append_eq (at + length bytes) (take at b ++ bytes) behind
        (omega (arith, length-append (take at b) bytes, length-take at b))
