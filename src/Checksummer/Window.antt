-- ===== src/Checksummer/Window.antt =====
-- The window of filechecksummer.cpp: the invariant of the scan, and its step in the buffer.
use native.Mathlib.Decide.{dec_lt}
use par2tbb.Base.{ℕ, suc, ◌+◌, ◌-◌, ◌*◌, ◌≤◌, ◌<◌, ◌≡◌, sym, ap, ap₂, ◌∙◌, arith}
use par2tbb.Base.{List, length, take, drop, length-take, length-drop}
use par2tbb.Base.Bits.{◌⊕◌}
use par2tbb.Crc.{window_table, window_mask, slide_char, block_crc}
use par2tbb.Crc.Window.{slide_window}
use par2tbb.Checksummer.{Summer, Disk, overwrite, slide, shift_back}
use par2tbb.Checksummer.Slices.{byte_at, drop-drop, piece-take, piece_head, piece_last}
use par2tbb.Checksummer.Slices.{take-append_le}
use par2tbb.Checksummer.Hashes.{take-take}
use par2tbb.Checksummer.Buffer.{Agrees, IsFull, length-overwrite}

-- What holds while there is a window.
pub record Scanning (d : Disk) (s : Summer) : Type 0 where
  pub agrees : Agrees d s
  pub full : IsFull s
  pub out_lt : s.outpointer < s.blocksize
  pub in_at : s.inpointer ≡ s.outpointer + s.blocksize
  pub before_end : s.currentoffset < s.filesize
  pub window : s.checksum ≡ block_crc (take s.blocksize (drop s.outpointer s.buffer))
  pub tables : s.windowtable ≡ window_table s.blocksize
  pub mask : s.windowmask ≡ window_mask s.blocksize

-- The buffer reaches past the window's first byte, and past the whole window in the file.
pub reaches :
    {d : Disk} {s : Summer}
    → Agrees d s
    → IsFull s
    → s.currentoffset < s.filesize
    → (n : ℕ) → n + s.outpointer ≤ 2 * s.blocksize
    → n + s.currentoffset ≤ s.filesize
    → n + s.outpointer ≤ s.tailpointer
reaches {s = s} a f h n p q = elim (dec_lt s.tailpointer (2 * s.blocksize)) [
  | yes short ↦ omega (arith, f short, a.offsets)
  | no whole ↦ omega arith
]

-- The window is the piece of the file at `currentoffset`.
pub window_in_file :
    {d : Disk} {s : Summer}
    → Scanning d s
    → s.currentoffset + s.blocksize ≤ s.filesize
    → s.checksum ≡ block_crc (take s.blocksize (drop s.currentoffset d.contents))
window_in_file {d} {s} v h =
    let a = v.agrees in
    let base = s.currentoffset - s.outpointer in
    let inside =
      reaches a v.full v.before_end s.blocksize (omega (arith, v.out_lt)) (omega arith) in
    v.window
    ∙ ap block_crc (
        sym (piece-take s.outpointer s.blocksize s.tailpointer s.buffer (omega arith))
        ∙ ap (λ t. take s.blocksize (drop s.outpointer t)) a.same
        ∙ piece-take s.outpointer s.blocksize s.tailpointer (drop base d.contents) (omega arith)
        ∙ ap (take s.blocksize) (
            drop-drop base s.outpointer d.contents
            ∙ ap (λ k. drop k d.contents) {x = base + s.outpointer} (omega (arith, a.out_in))))

-- One step of the window over the buffer.
slid_crc :
    (n o : ℕ) (b : List ℕ)
    → suc o + n < length b
    → window_mask (suc n)
        ⊕ slide_char
            (window_mask (suc n) ⊕ block_crc (take (suc n) (drop o b)))
            (byte_at b (suc o + n))
            (byte_at b o)
            (window_table (suc n))
      ≡ block_crc (take (suc n) (drop (suc o) b))
slid_crc n o b h =
    let xs = take n (drop (suc o) b) in
    let len : length xs ≡ n =
      omega (arith, length-take n (drop (suc o) b), length-drop (suc o) b) in
    ap₂
      (λ k w.
        window_mask (suc k)
        ⊕ slide_char (window_mask (suc k) ⊕ block_crc w) (byte_at b (suc o + n)) (byte_at b o)
            (window_table (suc k)))
      (sym len) (piece_head o n b (omega arith))
    ∙ slide_window xs (byte_at b o) (byte_at b (suc o + n))
    ∙ ap block_crc (sym (piece_last (suc o) n b h))

-- The state of the window in the buffer one byte on, whether or not it is still in the lower half.
pub record Slid (d : Disk) (s : Summer) : Type 0 where
  pub agrees : Agrees d s
  pub full : IsFull s
  pub out_le : s.outpointer ≤ s.blocksize
  pub in_at : s.inpointer ≡ s.outpointer + s.blocksize
  pub before_end : s.currentoffset < s.filesize
  pub window : s.checksum ≡ block_crc (take s.blocksize (drop s.outpointer s.buffer))
  pub tables : s.windowtable ≡ window_table s.blocksize
  pub mask : s.windowmask ≡ window_mask s.blocksize

slide-window :
    (d : Disk) (s : Summer)
    → Scanning d s
    → (slide s).checksum ≡ block_crc (take s.blocksize (drop (s.outpointer + 1) s.buffer))
unfolding slide
slide-window d s v =
    let n = s.blocksize - 1 in
    let o = s.outpointer in
    let size : s.blocksize ≡ suc n = omega (arith, v.out_lt) in
    ap₂
      (λ m c.
        m ⊕ slide_char (m ⊕ c) (byte_at s.buffer s.inpointer) (byte_at s.buffer o) s.windowtable)
      (v.mask ∙ ap window_mask size)
      (v.window ∙ ap (λ k. block_crc (take k (drop o s.buffer))) size)
    ∙ ap₂
        (λ i t.
          window_mask (suc n)
          ⊕ slide_char (window_mask (suc n) ⊕ block_crc (take (suc n) (drop o s.buffer)))
              (byte_at s.buffer i) (byte_at s.buffer o) t)
        {x = s.inpointer} {y = suc o + n} (omega (arith, v.in_at, v.out_lt))
        (v.tables ∙ ap window_table size)
    ∙ slid_crc n o s.buffer (omega (arith, v.out_lt, v.agrees.room))
    ∙ ap₂ (λ k j. block_crc (take k (drop j s.buffer))) {u = suc o} {v = o + 1} (sym size)
        (omega arith)

slide-Agrees : (d : Disk) (s : Summer) → Agrees d s → Agrees d (slide s)
unfolding slide
slide-Agrees d s a = record {
  size = a.size;
  room = a.room;
  tail_in = a.tail_in;
  read_in = a.read_in;
  out_in = omega (arith, a.out_in);
  offsets = omega (arith, a.offsets);
  same =
      a.same
      ∙ ap (λ k. take s.tailpointer (drop k d.contents)) {x = s.currentoffset - s.outpointer}
          {y = s.currentoffset + 1 - (s.outpointer + 1)} (omega arith);
  hashed = record { head = a.hashed.head; whole = a.hashed.whole };
}

pub slide-Slid :
    (d : Disk) (s : Summer) → Scanning d s → s.currentoffset + 1 < s.filesize → Slid d (slide s)
slide-Slid d s v h =
    let w = slide-window d s v in
    let a = slide-Agrees d s v.agrees in
    unfold slide in
    record {
      agrees = a;
      full = v.full;
      out_le = omega (arith, v.out_lt);
      in_at = omega (arith, v.in_at);
      before_end = h;
      window = w;
      tables = v.tables;
      mask = v.mask;
    }

pub Slid-Scanning : {d : Disk} {s : Summer} → Slid d s → s.outpointer < s.blocksize → Scanning d s
Slid-Scanning v h = record {
  agrees = v.agrees;
  full = v.full;
  out_lt = h;
  in_at = v.in_at;
  before_end = v.before_end;
  window = v.window;
  tables = v.tables;
  mask = v.mask;
}

-- Data moved to the start of the buffer agree with the file from the window on.
pub moved-same :
    (b file : List ℕ) (base out tail len k : ℕ)
    → take tail b ≡ take tail (drop base file)
    → k + out ≤ tail
    → k ≤ len
    → length (take len (drop out b)) ≡ len
    → take k (overwrite b 0 (take len (drop out b))) ≡ take k (drop (base + out) file)
moved-same b file base out tail len k same p q whole =
    take-append_le k (take len (drop out b)) _ (omega (arith, whole))
    ∙ take-take k len (drop out b) q
    ∙ sym (piece-take out k tail b (omega arith))
    ∙ ap (λ t. take k (drop out t)) same
    ∙ piece-take out k tail (drop base file) (omega arith)
    ∙ ap (take k) (drop-drop base out file)

-- The upper half of the buffer is there when the window reaches it.
pub half_read :
    (d : Disk) (s : Summer) → Slid d s → s.outpointer ≡ s.blocksize → s.blocksize ≤ s.tailpointer
half_read d s v at =
    omega
      (arith, reaches v.agrees v.full v.before_end 0 (omega arith) (omega (arith, v.before_end)))

pub length-upper :
    (d : Disk) (s : Summer)
    → Slid d s
    → s.outpointer ≡ s.blocksize
    → length (take s.blocksize (drop s.outpointer s.buffer)) ≡ s.blocksize
length-upper d s v at = omega (
  arith,
  length-take s.blocksize (drop s.outpointer s.buffer),
  length-drop s.outpointer s.buffer,
  v.agrees.room,
)

pub shift_back-Agrees :
    (d : Disk) (s : Summer) → Slid d s → s.outpointer ≡ s.blocksize → Agrees d (shift_back s)
unfolding shift_back
shift_back-Agrees d s v at =
    let a = v.agrees in
    let half = half_read d s v at in
    let upper = length-upper d s v at in
    record {
      size = a.size;
      room =
          length-overwrite s.buffer 0 (take s.blocksize (drop s.outpointer s.buffer))
            (omega (arith, upper, a.room))
          ∙ a.room;
      tail_in = omega (arith, a.tail_in);
      read_in = a.read_in;
      out_in = omega arith;
      offsets = omega (arith, a.offsets);
      same =
          moved-same s.buffer d.contents (s.currentoffset - s.outpointer) s.outpointer s.tailpointer
            s.blocksize (s.tailpointer - s.blocksize) a.same (omega arith)
            (omega (arith, a.tail_in)) upper
          ∙ ap (λ k. take (s.tailpointer - s.blocksize) (drop k d.contents))
              {x = s.currentoffset - s.outpointer + s.outpointer} {y = s.currentoffset - 0}
              (omega (arith, a.out_in));
      hashed = record { head = a.hashed.head; whole = a.hashed.whole };
    }
