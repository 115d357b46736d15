-- ===== src/Checksummer/Fill.antt =====
-- Fill of filechecksummer.cpp: the buffer, and the part of the file that is in it.
use par2tbb.Base.{ℕ, ◌+◌, ◌-◌, ◌*◌, ◌≤◌, ◌<◌, ◌≡◌, refl, sym, ap, ap₂, subst, ◌∙◌, arith, min}
use par2tbb.Base.{List, ◌++◌, length, take, drop, length-take, length-drop, length-append}
use par2tbb.Base.{Bool-cases, true, inl, inr, ltb, leb}
use par2tbb.Base.{length-replicate, ◌⊎◌}
use mathlib.Core.Bool.{false≢true}
use par2tbb.Md5.Stream.{zero_bytes}
use par2tbb.Checksummer.{Summer, Disk, read, take_in, blank_rest, filled, fill, overwrite}
use par2tbb.Checksummer.{update_hashes}
use par2tbb.Checksummer.Slices.{take-add, take-append_le, take-append_eq, drop-drop}
use par2tbb.Checksummer.Hashes.{Hashed, update_hashes-Hashed, take-take}
use par2tbb.Checksummer.Buffer.{
  Agrees, IsFull, Keeps, Keeps-refl, length-overwrite, take-overwrite_before, take-overwrite,
}

blank_rest-Keeps : (s : Summer) → s.tailpointer ≤ length s.buffer → Keeps s (blank_rest s)
unfolding blank_rest
blank_rest-Keeps s h = elim (Bool-cases (ltb 0 (2 * s.blocksize - s.tailpointer))) [
  | inl some_room ↦ rw some_room (record {
    blocksize = refl;
    windowtable = refl;
    windowmask = refl;
    filesize = refl;
    currentoffset = refl;
    outpointer = refl;
    inpointer = refl;
    checksum = refl;
    prefix = λ n k.
        take-append_le n (take s.tailpointer s.buffer) _
          (omega (arith, length-take s.tailpointer s.buffer))
        ∙ take-take n s.tailpointer s.buffer k;
  })
  | inr no_room ↦ rw no_room (Keeps-refl s)
]

blank_rest-Agrees : (d : Disk) (s : Summer) → Agrees d s → Agrees d (blank_rest s)
unfolding blank_rest
blank_rest-Agrees d s v = elim (Bool-cases (ltb 0 (2 * s.blocksize - s.tailpointer))) [
  | inl some_room ↦ rw some_room (record {
    size = v.size;
    room = omega (
      arith,
      v.room,
      v.tail_in,
      length-append (take s.tailpointer s.buffer) (zero_bytes (2 * s.blocksize - s.tailpointer)),
      length-take s.tailpointer s.buffer,
      length-replicate {A = ℕ} (2 * s.blocksize - s.tailpointer) 0,
    );
    tail_in = v.tail_in;
    read_in = v.read_in;
    out_in = v.out_in;
    offsets = v.offsets;
    same =
        take-append_eq s.tailpointer (take s.tailpointer s.buffer) _
          (omega (arith, v.room, v.tail_in, length-take s.tailpointer s.buffer))
        ∙ v.same;
    hashed = record { head = v.hashed.head; whole = v.hashed.whole };
  })
  | inr no_room ↦ rw no_room v
]

blank_rest_ends :
    (s : Summer)
    → ((blank_rest s).tailpointer ≡ s.tailpointer)
      × ((blank_rest s).readoffset ≡ s.readoffset)
      × ((blank_rest s).blocksize ≡ s.blocksize)
      × ((blank_rest s).filesize ≡ s.filesize)
unfolding blank_rest
blank_rest_ends s = elim (Bool-cases (ltb 0 (2 * s.blocksize - s.tailpointer))) [
  | inl some_room ↦ rw some_room (refl, refl, refl, refl)
  | inr no_room ↦ rw no_room (refl, refl, refl, refl)
]

-- The bytes that a read of the rest of the file returns.
module _ (d : Disk) (s : Summer) (v : Agrees d s) (want : ℕ)
    (in_file : want ≤ s.filesize - s.readoffset)
    (in_buffer : want ≤ 2 * s.blocksize - s.tailpointer) where
  abbrev next_bytes : List ℕ
  next_bytes = take want (drop s.readoffset d.contents)

  length-next_bytes : length next_bytes ≡ want
  length-next_bytes = omega (
    arith,
    length-take want (drop s.readoffset d.contents),
    length-drop s.readoffset d.contents,
    v.size,
  )

  take_in-same :
      take (s.tailpointer + length next_bytes) (overwrite s.buffer s.tailpointer next_bytes)
      ≡ take (s.tailpointer + length next_bytes) (drop (s.currentoffset - s.outpointer) d.contents)
  take_in-same =
      let base = s.currentoffset - s.outpointer in
      let joined : drop s.readoffset d.contents ≡ drop s.tailpointer (drop base d.contents) = sym (
        drop-drop base s.tailpointer d.contents
        ∙ ap (λ k. drop k d.contents) {x = base + s.tailpointer} {y = s.readoffset}
            (omega (arith, v.offsets, v.out_in))) in
      take-overwrite s.buffer s.tailpointer next_bytes (omega (arith, v.room, v.tail_in))
      ∙ ap₂ ◌++◌ v.same (ap (take want) joined)
      ∙ sym (take-add s.tailpointer want (drop base d.contents))
      ∙ ap (λ k. take (s.tailpointer + k) (drop base d.contents)) (sym length-next_bytes)

  take_in-Agrees : Agrees d (take_in next_bytes s)
  unfolding take_in
  take_in-Agrees =
      let read_on =
        update_hashes-Hashed d.contents s.readoffset want s (omega (arith, v.size, v.read_in))
          v.hashed in
      let read_on' =
        subst (λ k. Hashed d.contents (s.readoffset + k) (update_hashes s.readoffset next_bytes s))
          (sym length-next_bytes) read_on in
      record {
        size = v.size;
        room =
            length-overwrite s.buffer s.tailpointer next_bytes
              (omega (arith, length-next_bytes, v.room, v.tail_in))
            ∙ v.room;
        tail_in = omega (arith, length-next_bytes, v.tail_in);
        read_in = omega (arith, length-next_bytes, v.read_in);
        out_in = v.out_in;
        offsets = omega (arith, v.offsets);
        same = take_in-same;
        hashed = record { head = read_on'.head; whole = read_on'.whole };
      }

  take_in-Keeps : Keeps s (take_in next_bytes s)
  unfolding take_in
  take_in-Keeps = record {
    blocksize = refl;
    windowtable = refl;
    windowmask = refl;
    filesize = refl;
    currentoffset = refl;
    outpointer = refl;
    inpointer = refl;
    checksum = refl;
    prefix = λ n h.
        take-overwrite_before s.buffer s.tailpointer next_bytes n h
          (omega (arith, v.room, v.tail_in));
  }

  take_in_ends :
      ((take_in next_bytes s).tailpointer ≡ s.tailpointer + want)
      × ((take_in next_bytes s).readoffset ≡ s.readoffset + want)
  unfolding take_in
  take_in_ends = (omega (arith, length-next_bytes), omega (arith, length-next_bytes))

Keeps-trans : {s t u : Summer} → s.tailpointer ≤ t.tailpointer → Keeps s t → Keeps t u → Keeps s u
Keeps-trans le k l = record {
  blocksize = l.blocksize ∙ k.blocksize;
  windowtable = l.windowtable ∙ k.windowtable;
  windowmask = l.windowmask ∙ k.windowmask;
  filesize = l.filesize ∙ k.filesize;
  currentoffset = l.currentoffset ∙ k.currentoffset;
  outpointer = l.outpointer ∙ k.outpointer;
  inpointer = l.inpointer ∙ k.inpointer;
  checksum = l.checksum ∙ k.checksum;
  prefix = λ n h. l.prefix n (omega arith) ∙ k.prefix n h;
}

-- What Fill leaves when it succeeds.
pub record Filled (d : Disk) (s t : Summer) : Type 0 where
  pub agrees : Agrees d t
  pub full : IsFull t
  pub keeps : Keeps s t

abbrev wanted : Summer → ℕ
wanted s = min (s.filesize - s.readoffset) (2 * s.blocksize - s.tailpointer)

filled_lem :
    (d : Disk) (n len : ℕ) (s t : Summer)
    → filled (read d n len) s ≡ (true, t)
    → blank_rest (take_in (take len (drop n d.contents)) s) ≡ t
unfolding filled read
filled_lem d n len s t h = elim (Bool-cases (d.readable n len)) [
  | inl fine ↦ ap (λ r. r.1) (rw fine at h)
  | inr fault ↦ absurd (false≢true (ap (λ r. r.0) (rw fault at h)))
]

-- The branches of Fill that succeed.
fill-cases :
    (d : Disk) (s t : Summer)
    → fill d s ≡ (true, t)
    → ((s.filesize ≤ s.readoffset) × (s ≡ t))
      ⊎ ((wanted s ≡ 0) × (s.readoffset < s.filesize) × (blank_rest s ≡ t))
      ⊎ (blank_rest (take_in (take (wanted s) (drop s.readoffset d.contents)) s) ≡ t)
unfolding fill
fill-cases d s t h = elim (Bool-cases (leb s.filesize s.readoffset)) [
  | inl ended ↦ inl (ground arith, ap (λ r. r.1) (rw ended at h))
  | inr more ↦ elim (Bool-cases (ltb 0 (wanted s))) [
    | inl some_wanted ↦
        inr (inr (filled_lem d s.readoffset (wanted s) s t (rw (more, some_wanted) at h)))
    | inr none_wanted ↦
        inr (inl (ground arith, ground arith, ap (λ r. r.1) (rw (more, none_wanted) at h)))
  ]
]

fill_read :
    (d : Disk) (s : Summer)
    → Agrees d s
    → Filled d s (blank_rest (take_in (take (wanted s) (drop s.readoffset d.contents)) s))
fill_read d s v =
    let u = take_in (take (wanted s) (drop s.readoffset d.contents)) s in
    let a = take_in-Agrees d s v (wanted s) (omega arith) (omega arith) in
    let (tail, offset) = take_in_ends d s v (wanted s) (omega arith) (omega arith) in
    let (tail', offset', size', file') = blank_rest_ends u in
    let k = take_in-Keeps d s v (wanted s) (omega arith) (omega arith) in
    record {
      agrees = blank_rest-Agrees d u a;
      full = λ h. omega (
        arith, tail, offset, tail', offset', size', file', v.read_in, v.tail_in, k.blocksize,
        k.filesize, h,
      );
      keeps =
          Keeps-trans (omega (arith, tail)) k
            (blank_rest-Keeps u (omega (arith, a.room, a.tail_in)));
    }

-- A Fill that succeeds reads until the buffer is full or the file is at its end, and changes
-- nothing before `tailpointer`.
pub fill-Filled : (d : Disk) (s t : Summer) → Agrees d s → fill d s ≡ (true, t) → Filled d s t
fill-Filled d s t v done = elim (fill-cases d s t done) [
  | inl (ended, same) ↦
      subst (Filled d s) same
        (record { agrees = v; full = λ h. omega (arith, v.read_in); keeps = Keeps-refl s })
  | inr (inl (nothing, more, same)) ↦
      let (tail', offset', size', file') = blank_rest_ends s in
      subst (Filled d s) same (record {
        agrees = blank_rest-Agrees d s v;
        full = λ h. omega (arith, v.tail_in);
        keeps = blank_rest-Keeps s (omega (arith, v.room, v.tail_in));
      })
  | inr (inr same) ↦ subst (Filled d s) same (fill_read d s v)
]

-- At the end of the file Fill does nothing at all.
pub fill_ended : (d : Disk) (s : Summer) → s.filesize ≤ s.readoffset → fill d s ≡ (true, s)
unfolding fill
fill_ended d s h = let ended : leb s.filesize s.readoffset ≡ true = ground arith in rw ended
