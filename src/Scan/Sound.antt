-- ===== src/Scan/Sound.antt =====
-- LoadPacketsFromFile of par2repairer.cpp on any file: what is known of a packet that it takes.
use mathlib.Core.Option.{some-injective}
use par2tbb.Base.{
  ℕ, zero, suc, ◌+◌, ◌-◌, ◌≤◌, ◌<◌, ◌≡◌, ◌==◌, ==_iff, refl, sym, ap, ap₂, subst, ◌∙◌, arith, min,
  ltb, leb, leb→le,
}
use par2tbb.Base.{
  Bool-cases, Option-cases, true, inl, inr, Option, none, some, List, [], ◌∷◌, ◌++◌, take, drop,
}
use par2tbb.Creator.{u64}
use par2tbb.Md5.{reset, update, final}
use par2tbb.Md5.Stream.{update-update, update-IsValid}
use par2tbb.Md5.Digest.{rfc1321, final-update, reset-IsValid}
use par2tbb.Checksummer.{Disk, read, file_size}
use par2tbb.Checksummer.Slices.{drop-drop, piece-take}
use par2tbb.Matching.{hash_same}
use par2tbb.Repairer.{keep_first}
use par2tbb.Scan.{
  Found, packet_magic, magic_of, length_of, hash_of, setid_of, from_setid, find_magic, sought, seek,
  reached, hash_rest, header_or_next, scan,
}
use par2tbb.Scan.{check_packet, length_fits, take_packet, same_set, load_packets_from_file}
use par2tbb.Scan.Digest.{hash_rest-some, read-some}

-- The header is that of the file at the offset and has the magic value.
pub record IsAt (d : Disk) (f : Found) : Type 0 where
  pub header : f.header ≡ take 64 (drop f.offset d.contents)
  pub within : f.offset + 64 ≤ file_size d
  pub magic : magic_of f.header ≡ packet_magic

-- The packet is there, ends in the file as far as 64 bits tell, and hashes to its hash.
pub record IsSound (d : Disk) (f : Found) : Type 0 where
  pub at : IsAt d f
  pub fits : length_fits d f ≡ true
  pub hash :
      rfc1321 (
        from_setid f.header
        ++ take
            (u64 (f.offset + length_of f.header) - (f.offset + 64))
            (drop (f.offset + 64) d.contents))
      ≡ hash_of f.header

abbrev pub AreSound : Disk → List Found → Type 0
AreSound d [] = 0 < 1
AreSound d (f ∷ fs) = IsSound d f × AreSound d fs

AreSound-append :
    (d : Disk) (fs gs : List Found) → AreSound d fs → AreSound d gs → AreSound d (fs ++ gs)
AreSound-append d [] gs sound more = more
AreSound-append d (f ∷ fs) gs (here, sound) more = (here, AreSound-append d fs gs sound more)

hash_same→eq : (xs ys : List ℕ) → hash_same xs ys ≡ true → xs ≡ ys
unfolding hash_same
hash_same→eq [] [] same = refl
hash_same→eq [] (y ∷ ys) same = absurd (cc)
hash_same→eq (x ∷ xs) [] same = absurd (cc)
hash_same→eq (x ∷ xs) (y ∷ ys) same = elim (Bool-cases (x == y)) [
  | inl first ↦ ap₂ (λ a b. a ∷ b) ((==_iff x y).0 first) (hash_same→eq xs ys (rw first at same))
  | inr other ↦ absurd (cc (rw other at same))
]

-- The place that the loop over a buffer finds has the magic value.
find_magic_sound :
    (left : ℕ) (bytes : List ℕ)
    → find_magic left bytes < left
    → hash_same (magic_of (drop (find_magic left bytes) bytes)) packet_magic ≡ true
unfolding find_magic
find_magic_sound zero bytes h = absurd (omega arith)
find_magic_sound (suc left) bytes h = elim (Bool-cases (hash_same (magic_of bytes) packet_magic)) [
  | inl here ↦ rw here here
  | inr there ↦
      let below : suc (find_magic left (drop 1 bytes)) < suc left = rw there at h in
      let rest = find_magic_sound left (drop 1 bytes) (omega arith) in
      let place : drop (find_magic left (drop 1 bytes)) (drop 1 bytes)
          ≡ drop (suc (find_magic left (drop 1 bytes))) bytes =
        drop-drop 1 (find_magic left (drop 1 bytes)) bytes
        ∙ ap (λ n. drop n bytes) {y = suc (find_magic left (drop 1 bytes))} (omega arith) in
      rw there (ap (λ t. hash_same (magic_of t) packet_magic) (sym place) ∙ rest)
]

sought_sound :
    (d : Disk) (offset want : ℕ) (bytes : Option (List ℕ)) (rest : Option Found) (f : Found)
    → offset + want ≤ file_size d
    → ((xs : List ℕ) → bytes ≡ some xs → xs ≡ take want (drop offset d.contents))
    → (rest ≡ some f → IsAt d f)
    → sought offset (want - 63) bytes rest ≡ some f
    → IsAt d f
unfolding magic_of
sought_sound d offset want none rest f room piece later found = absurd (cc)
sought_sound d offset want (some bytes) rest f room piece later found =
    let current = find_magic (want - 63) bytes in
    elim (Bool-cases (ltb current (want - 63))) [
      | inl here ↦
          let less : current < want - 63 = ground arith in
          let magic = find_magic_sound (want - 63) bytes less in
          let header : take 64 (drop current bytes) ≡ take 64 (drop (offset + current) d.contents) =
            ap (λ t. take 64 (drop current t)) (piece bytes refl)
            ∙ piece-take current 64 want (drop offset d.contents) (omega arith)
            ∙ ap (take 64) (drop-drop offset current d.contents) in
          let at : IsAt d
              (record { offset = offset + current; header = take 64 (drop current bytes) }) =
            record {
              header = header;
              within = omega arith;
              magic =
                  piece-take 0 8 64 (drop current bytes) (omega arith)
                  ∙ hash_same→eq (take 8 (drop current bytes)) packet_magic magic;
            } in
          subst (IsAt d) (some-injective _ f (rw here at found)) at
      | inr away ↦ later (rw away at found)
    ]

seek_sound :
    (fuel : ℕ) (d : Disk) (buffersize offset : ℕ) (f : Found)
    → seek fuel d buffersize offset ≡ some f
    → IsAt d f
unfolding seek
seek_sound zero d buffersize offset f found = absurd (cc)
seek_sound (suc fuel) d buffersize offset f found =
    let want = min buffersize (file_size d - offset) in
    let bytes = read d offset want in
    let next = offset + reached (want - 63) bytes in
    elim (Bool-cases (leb (offset + 64) (file_size d))) [
      | inl within ↦
          let room : offset + want ≤ file_size d = ground arith in
          sought_sound d offset want bytes (seek fuel d buffersize next) f room
            (read-some d offset want) (seek_sound fuel d buffersize next f) (rw within at found)
      | inr ended ↦ absurd (cc (rw ended at found))
    ]

header_sound :
    (d : Disk) (buffersize offset : ℕ) (h : Option (List ℕ)) (f : Found)
    → offset + 64 ≤ file_size d
    → ((xs : List ℕ) → h ≡ some xs → xs ≡ take 64 (drop offset d.contents))
    → header_or_next d buffersize offset h ≡ some f
    → IsAt d f
header_sound d buffersize offset none f within piece found = absurd (cc)
header_sound d buffersize offset (some h) f within piece found =
    elim (Bool-cases (hash_same (magic_of h) packet_magic)) [
      | inl here ↦
          let at : IsAt d (record { offset = offset; header = h }) = record {
            header = piece h refl;
            within = within;
            magic = hash_same→eq (magic_of h) packet_magic here;
          } in
          subst (IsAt d) (some-injective _ f (rw here at found)) at
      | inr there ↦ seek_sound (file_size d) d buffersize (offset + 1) f (rw there at found)
    ]

check_packet_sound :
    (d : Disk) (buffersize : ℕ) (set : Option (List ℕ)) (f : Found)
    → 0 < buffersize
    → IsAt d f
    → AreSound d (check_packet d buffersize set f).found
unfolding check_packet take_packet
check_packet_sound d buffersize set f positive at = elim (Bool-cases (length_fits d f)) [
  | inr unfit ↦ rw unfit (omega arith)
  | inl fits ↦
      let limit = u64 (f.offset + length_of f.header) in
      let context = update reset (from_setid f.header) in
      let body = take (limit - (f.offset + 64)) (drop (f.offset + 64) d.contents) in
      elim (Option-cases (hash_rest limit d buffersize (f.offset + 64) limit context)) [
        | inl unread ↦ rw (fits, unread) (omega arith)
        | inr (c, hashes) ↦ elim (Bool-cases (hash_same (final c) (hash_of f.header))) [
          | inr differs ↦ rw (fits, hashes, differs) (omega arith)
          | inl agrees ↦
              let set_now = keep_first set (some (setid_of f.header)) in
              let whole : c ≡ update reset (from_setid f.header ++ body) =
                hash_rest-some limit d buffersize (f.offset + 64) limit context c
                  (update-IsValid reset (from_setid f.header) reset-IsValid) positive (omega arith)
                  hashes
                ∙ update-update reset (from_setid f.header) body reset-IsValid in
              let digest : rfc1321 (from_setid f.header ++ body) ≡ hash_of f.header =
                sym (final-update (from_setid f.header ++ body))
                ∙ ap final (sym whole)
                ∙ hash_same→eq (final c) (hash_of f.header) agrees in
              let sound : IsSound d f = record { at = at; fits = fits; hash = digest } in
              rw (fits, hashes, agrees)
                (elim (Bool-cases (same_set set_now (setid_of f.header))) [
                  | inl ours ↦ rw ours (sound, omega arith)
                  | inr other ↦ rw other (omega arith)
                ])
        ]
      ]
]

scan_sound :
    (fuel : ℕ) (d : Disk) (buffersize : ℕ) (set : Option (List ℕ)) (offset : ℕ)
    → 0 < buffersize
    → AreSound d (scan fuel d buffersize set offset)
unfolding scan
scan_sound zero d buffersize set offset positive = omega arith
scan_sound (suc fuel) d buffersize set offset positive =
    let at = header_or_next d buffersize offset (read d offset 64) in
    elim (Bool-cases (leb (offset + 64) (file_size d))) [
      | inr ended ↦ rw ended (omega arith)
      | inl more ↦ elim (Option-cases at) [
        | inl nothing ↦ rw (more, nothing) (omega arith)
        | inr (f, found) ↦
            let r = check_packet d buffersize set f in
            let there =
              header_sound d buffersize offset (read d offset 64) f (leb→le _ (file_size d) more)
                (read-some d offset 64) found in
            rw (more, found)
              (AreSound-append d r.found (scan fuel d buffersize r.setid r.offset)
                (check_packet_sound d buffersize set f positive there)
                (scan_sound fuel d buffersize r.setid r.offset positive))
      ]
    ]

-- In any file, whichever reads succeed, a packet that LoadPacketsFromFile takes has as its
-- header the 64 bytes of the file at its offset, which are all in the file and begin with the
-- magic value, passes the check of its length, and has as its hash the MD5 of the bytes of the
-- file from its set id up to its end, as 64 bits give that end, or up to the end of the header
-- if that is later.
pub load_packets_from_file-AreSound :
    (fuel : ℕ) (d : Disk) (setid : Option (List ℕ))
    → AreSound d (load_packets_from_file fuel d setid)
unfolding load_packets_from_file
load_packets_from_file-AreSound fuel d setid = elim (Bool-cases (ltb 0 (file_size d))) [
  | inl some_bytes ↦
      rw some_bytes (scan_sound fuel d (min 1048576 (file_size d)) setid 0 (ground arith))
  | inr no_bytes ↦ rw no_bytes (omega arith)
]
