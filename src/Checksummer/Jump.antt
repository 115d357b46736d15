-- ===== src/Checksummer/Jump.antt =====
-- Jump and Start of filechecksummer.cpp on the invariant of the scan, and sequences of calls.
use mathlib.Core.Bool.{false≢true}
use par2tbb.Base.{ℕ, suc, ◌+◌, ◌-◌, ◌*◌, ◌≤◌, ◌<◌, ◌≡◌, refl, sym, ap, subst, ◌∙◌, arith, min}
use par2tbb.Base.{length, take, drop, length-take, length-drop}
use par2tbb.Base.{if◌then◌else◌, Bool-cases, true, false, inl, inr, ltb, leb, Bool, ◌==◌}
use par2tbb.Crc.{window_table, window_mask, block_crc}
use par2tbb.Md5.{reset, update}
use par2tbb.Md5.Stream.{update-nil}
use par2tbb.Md5.Digest.{reset-IsValid}
use par2tbb.Checksummer.{Summer, Disk, fill, keep_rest}
use par2tbb.Checksummer.{rescan, start, step, jump, head_size}
use par2tbb.Checksummer.Fill.{fill-Filled}
use par2tbb.Checksummer.Buffer.{Agrees, length-overwrite}
use par2tbb.Checksummer.Window.{Scanning, reaches, moved-same}
use par2tbb.Checksummer.Scan.{head_size_pos, Ended, Sound, finish_file-Ended, step-Sound}

-- Jump: the buffer's data from the new window on go to its start.
abbrev ahead : ℕ → Summer → Summer
ahead by s = record s { currentoffset = s.currentoffset + by; outpointer = s.outpointer + by }

keep_rest-Agrees :
    (d : Disk) (s : Summer) (by : ℕ)
    → Scanning d s
    → by ≤ s.blocksize
    → s.currentoffset + by < s.filesize
    → Agrees d (keep_rest (ahead by s))
unfolding keep_rest
keep_rest-Agrees d s by v h more =
    let a = v.agrees in
    let base = s.currentoffset - s.outpointer in
    let out = s.outpointer + by in
    let keep = s.tailpointer - out in
    let some_left =
      reaches a v.full v.before_end (suc by) (omega (arith, v.out_lt)) (omega arith) in
    let kept : ltb 0 keep ≡ true = ground (arith, some_left) in
    let whole : length (take keep (drop out s.buffer)) ≡ keep =
      omega (
        arith,
        length-take keep (drop out s.buffer),
        length-drop out s.buffer,
        a.room,
        a.tail_in,
      ) in
    rw kept (record {
      size = a.size;
      room =
          length-overwrite s.buffer 0 (take keep (drop out s.buffer))
            (omega (arith, whole, a.room, a.tail_in))
          ∙ a.room;
      tail_in = omega (arith, a.tail_in);
      read_in = a.read_in;
      out_in = omega arith;
      offsets = omega (arith, a.offsets, some_left);
      same =
          moved-same s.buffer d.contents base out s.tailpointer keep keep a.same
            (omega (arith, some_left)) (omega arith) whole
          ∙ ap (λ k. take keep (drop k d.contents)) {x = base + out} {y = s.currentoffset + by - 0}
              (omega (arith, a.out_in));
      hashed = record { head = a.hashed.head; whole = a.hashed.whole };
    })

rescan_lem :
    (r : Bool × Summer) (t : Summer)
    → rescan r ≡ (true, t)
    → (u : Summer) × (r ≡ (true, u))
      × (record u { checksum = block_crc (take u.blocksize u.buffer) } ≡ t)
unfolding rescan
rescan_lem (true, u) t h = (u, refl, ap (λ r. r.1) h)
rescan_lem (false, u) t h = absurd (false≢true (ap (λ r. r.0) h))

-- A window that is filled and summed anew.
rescan-Scanning :
    (d : Disk) (s t : Summer)
    → Agrees d s
    → s.outpointer ≡ 0
    → s.inpointer ≡ s.blocksize
    → 0 < s.blocksize
    → s.currentoffset < s.filesize
    → s.windowtable ≡ window_table s.blocksize
    → s.windowmask ≡ window_mask s.blocksize
    → rescan (fill d s) ≡ (true, t)
    → Scanning d t
rescan-Scanning d s t a out inp pos before table mask done =
    let (u, filled, same) = rescan_lem (fill d s) t done in
    let f = fill-Filled d s u a filled in
    let k = f.keeps in
    let g = f.agrees in
    subst (Scanning d) same (record {
      agrees = record {
        size = g.size;
        room = g.room;
        tail_in = g.tail_in;
        read_in = g.read_in;
        out_in = g.out_in;
        offsets = g.offsets;
        same = g.same;
        hashed = record { head = g.hashed.head; whole = g.hashed.whole };
      };
      full = f.full;
      out_lt = omega (arith, k.outpointer, k.blocksize);
      in_at = omega (arith, k.outpointer, k.inpointer, k.blocksize);
      before_end = omega (arith, k.currentoffset, k.filesize);
      window =
          ap (λ o. block_crc (take u.blocksize (drop o u.buffer))) {x = 0}
            (sym (k.outpointer ∙ out));
      tables = k.windowtable ∙ table ∙ ap window_table (sym k.blocksize);
      mask = k.windowmask ∙ mask ∙ ap window_mask (sym k.blocksize);
    })

keep_rest_fields :
    (s : Summer)
    → ((keep_rest s).outpointer ≡ 0)
      × ((keep_rest s).inpointer ≡ s.blocksize)
      × ((keep_rest s).blocksize ≡ s.blocksize)
      × ((keep_rest s).currentoffset ≡ s.currentoffset)
      × ((keep_rest s).filesize ≡ s.filesize)
      × ((keep_rest s).windowtable ≡ s.windowtable)
      × ((keep_rest s).windowmask ≡ s.windowmask)
unfolding keep_rest
keep_rest_fields s = (refl, refl, refl, refl, refl, refl, refl)

-- A jump by at most a block that stays in the file.
jumped-Scanning :
    (d : Disk) (by : ℕ) (s t : Summer)
    → Scanning d s
    → by ≤ s.blocksize
    → s.currentoffset + by < s.filesize
    → rescan (fill d (keep_rest (ahead by s))) ≡ (true, t)
    → Scanning d t
jumped-Scanning d by s t v h more done =
    let (out, inp, size, current, file, table, mask) = keep_rest_fields (ahead by s) in
    rescan-Scanning d (keep_rest (ahead by s)) t (keep_rest-Agrees d s by v h more) out
      (inp ∙ sym size) (omega (arith, size, v.out_lt)) (omega (arith, current, file))
      (table ∙ v.tables ∙ ap window_table (sym size)) (mask ∙ v.mask ∙ ap window_mask (sym size))
      done

pub jump-Sound :
    (d : Disk) (distance : ℕ) (s t : Summer)
    → Scanning d s
    → jump d distance s ≡ (true, t)
    → Sound d t
unfolding jump
jump-Sound d distance s t v done =
    let on : leb s.filesize s.currentoffset ≡ false = ground arith in
    let by : ℕ = if ltb s.blocksize distance then s.blocksize else distance in
    let short : by ≤ s.blocksize = ground arith in
    elim (Bool-cases (distance == 0)) [
      | inl stay ↦ absurd (false≢true (ap (λ r. r.0) (rw (on, stay) at done)))
      | inr moves ↦ elim (Bool-cases (distance == 1)) [
        | inl one ↦ step-Sound d s t v (rw (on, moves, one) at done)
        | inr far ↦ elim (Bool-cases (leb s.filesize (s.currentoffset + by))) [
          | inl last ↦ inl (
              subst (Ended d) (ap (λ r. r.1) (rw (on, moves, far, last) at done))
                (finish_file-Ended d s v.agrees))
          | inr more ↦ inr (
              jumped-Scanning d by s t v short (ground (arith, more))
                (rw (on, moves, far, more) at done))
        ]
      ]
    ]

-- A new object, as the constructor leaves it: the tables are for its block size, and the size is
-- the file's.
pub record IsFresh (d : Disk) (s : Summer) : Type 0 where
  pub some_block : 0 < s.blocksize
  pub some_file : 0 < s.filesize
  pub size : s.filesize ≡ length d.contents
  pub room : length s.buffer ≡ 2 * s.blocksize
  pub tables : s.windowtable ≡ window_table s.blocksize
  pub mask : s.windowmask ≡ window_mask s.blocksize
  pub head : s.context16k ≡ reset

pub start-Sound : (d : Disk) (s t : Summer) → IsFresh d s → start d s ≡ (true, t) → Scanning d t
unfolding start
start-Sound d s t v done =
    let at_start = record s {
      currentoffset = 0;
      readoffset = 0;
      tailpointer = 0;
      outpointer = 0;
      inpointer = s.blocksize;
    } in
    rescan-Scanning d at_start t
      (record {
        size = v.size;
        room = v.room;
        tail_in = omega arith;
        read_in = omega arith;
        out_in = omega arith;
        offsets = omega arith;
        same = refl;
        hashed = record {
          head =
              v.head
              ∙ sym (
                  ap (λ k. update reset (take k d.contents)) {x = min 0 head_size} {y = 0}
                    (omega arith)
                  ∙ update-nil reset reset-IsValid);
          whole = λ h. absurd (omega (arith, head_size_pos));
        };
      })
      refl refl v.some_block v.some_file v.tables v.mask done

-- The calls of a scan that return true.
pub data Run (d : Disk) (s : Summer) : Summer → Type 0 where
  started : {t : Summer} → start d s ≡ (true, t) → Run d s t
  stepped : {t u : Summer} → Run d s t → step d t ≡ (true, u) → Run d s u
  jumped : {t u : Summer} (distance : ℕ) → Run d s t → jump d distance t ≡ (true, u) → Run d s u
