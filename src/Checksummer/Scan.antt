-- ===== src/Checksummer/Scan.antt =====
-- Step of filechecksummer.cpp on the invariant of the scan.
use native.Mathlib.Decide.{dec_lt}
use par2tbb.Base.{◌+◌, ◌*◌, ◌<◌, ◌≡◌, refl, sym, ap, ap₂, subst, ◌∙◌, arith}
use par2tbb.Base.{length, take, drop}
use par2tbb.Base.{Bool-cases, true, false, inl, inr, ltb, leb, ◌⊎◌}
use par2tbb.Crc.{window_table, window_mask, block_crc}
use par2tbb.Checksummer.{Summer, Disk, fill, slide, shift_back, finish_file}
use par2tbb.Checksummer.{step, head_size}
use par2tbb.Checksummer.Slices.{take-append_eq}
use par2tbb.Checksummer.Hashes.{Hashed}
use par2tbb.Checksummer.Fill.{fill-Filled, fill_ended}
use par2tbb.Checksummer.Buffer.{Agrees}
use par2tbb.Checksummer.Window.{Scanning, Slid, slide-Slid, Slid-Scanning}
use par2tbb.Checksummer.Window.{length-upper, shift_back-Agrees}

pub head_size_pos : 0 < head_size
unfolding head_size
head_size_pos = omega arith

-- The window's bytes stay where they are when the buffer is filled behind them.
pub shifted_prefix :
    (d : Disk) (s t : Summer)
    → Slid d s
    → s.outpointer ≡ s.blocksize
    → fill d (shift_back s) ≡ (true, t)
    → take s.blocksize t.buffer ≡ take s.blocksize (drop s.outpointer s.buffer)
shifted_prefix d s t v at done = elim (dec_lt s.tailpointer (2 * s.blocksize)) [
  | yes short ↦
      ap (λ u. take s.blocksize u.buffer)
        (sym (
          ap (λ r. r.1)
            (sym (fill_ended d (shift_back s) (unfold shift_back in omega (arith, v.full short)))
              ∙ done)))
      ∙ moved
  | no whole ↦
      (fill-Filled d (shift_back s) t (shift_back-Agrees d s v at) done).keeps.prefix s.blocksize
        (unfold shift_back in omega (arith, v.agrees.tail_in))
      ∙ moved
]
  where
    moved : take s.blocksize (shift_back s).buffer ≡ take s.blocksize (drop s.outpointer s.buffer)
    moved =
        unfold shift_back in
        take-append_eq s.blocksize (take s.blocksize (drop s.outpointer s.buffer)) _
          (sym (length-upper d s v at))

pub shift_back_fields :
    (s : Summer)
    → ((shift_back s).outpointer ≡ 0)
      × ((shift_back s).inpointer ≡ s.outpointer)
      × ((shift_back s).blocksize ≡ s.blocksize)
      × ((shift_back s).currentoffset ≡ s.currentoffset)
      × ((shift_back s).filesize ≡ s.filesize)
      × ((shift_back s).checksum ≡ s.checksum)
      × ((shift_back s).windowtable ≡ s.windowtable)
      × ((shift_back s).windowmask ≡ s.windowmask)
unfolding shift_back
shift_back_fields s = (refl, refl, refl, refl, refl, refl, refl, refl)

pub wrapped-Scanning :
    (d : Disk) (s t : Summer)
    → Slid d s
    → s.outpointer ≡ s.blocksize
    → 0 < s.blocksize
    → fill d (shift_back s) ≡ (true, t)
    → Scanning d t
wrapped-Scanning d s t v at pos done =
    let f = fill-Filled d (shift_back s) t (shift_back-Agrees d s v at) done in
    let k = f.keeps in
    let (out, inp, size, current, file, sum, table, mask) = shift_back_fields s in
    let bs = k.blocksize ∙ size in
    record {
      agrees = f.agrees;
      full = f.full;
      out_lt = omega (arith, k.outpointer, out, bs);
      in_at = omega (arith, k.outpointer, out, k.inpointer, inp, bs);
      before_end = omega (arith, k.currentoffset, current, k.filesize, file, v.before_end);
      window =
          k.checksum
          ∙ sum
          ∙ v.window
          ∙ ap block_crc (sym (shifted_prefix d s t v at done))
          ∙ ap₂ (λ n o. block_crc (take n (drop o t.buffer))) {u = 0} (sym bs)
              (sym (k.outpointer ∙ out));
      tables = k.windowtable ∙ table ∙ v.tables ∙ ap window_table (sym bs);
      mask = k.windowmask ∙ mask ∙ v.mask ∙ ap window_mask (sym bs);
    }

-- The scan is over: there is no window any more.
pub record Ended (d : Disk) (s : Summer) : Type 0 where
  pub at_end : s.currentoffset ≡ s.filesize
  pub size : s.filesize ≡ length d.contents
  pub hashed : Hashed d.contents s.readoffset s

abbrev pub Sound : Disk → Summer → Type 0
Sound d s = Ended d s ⊎ Scanning d s

pub finish_file-Ended : (d : Disk) (s : Summer) → Agrees d s → Ended d (finish_file s)
unfolding finish_file
finish_file-Ended d s a = record {
  at_end = refl;
  size = a.size;
  hashed = record { head = a.hashed.head; whole = a.hashed.whole };
}

pub slide_fields :
    (s : Summer) → ((slide s).outpointer ≡ s.outpointer + 1) × ((slide s).blocksize ≡ s.blocksize)
unfolding slide
slide_fields s = (refl, refl)

pub step-Sound : (d : Disk) (s t : Summer) → Scanning d s → step d s ≡ (true, t) → Sound d t
unfolding step
step-Sound d s t v done =
    let on : leb s.filesize s.currentoffset ≡ false = ground arith in
    elim (Bool-cases (leb s.filesize (s.currentoffset + 1))) [
      | inl last ↦
          inl (
            subst (Ended d) (ap (λ r. r.1) (rw (on, last) at done))
              (finish_file-Ended d s v.agrees))
      | inr more ↦
          let w = slide-Slid d s v (ground arith) in
          let (out, size) = slide_fields s in
          elim (Bool-cases (ltb (slide s).outpointer (slide s).blocksize)) [
            | inl low ↦ inr (
                subst (Scanning d) (ap (λ r. r.1) (rw (on, more, low) at done))
                  (Slid-Scanning w (ground arith)))
            | inr high ↦ inr (
                wrapped-Scanning d (slide s) t w (ground (arith, v.out_lt))
                  (ground (arith, v.out_lt)) (rw (on, more, high) at done))
          ]
    ]
