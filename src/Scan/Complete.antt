-- ===== src/Scan/Complete.antt =====
-- LoadPacketsFromFile of par2repairer.cpp on a file that is a row of packets.
use par2tbb.Base.{
  ℕ, zero, suc, ◌+◌, ◌-◌, ◌%◌, ◌^◌, ◌≤◌, ◌<◌, ◌≡◌, ◌==◌, refl, sym, ap, ◌∙◌, arith, min, ltb, leb,
}
use par2tbb.Base.{
  Bool-cases, true, false, ◌&&◌, inl, inr, Option, some, List, [], ◌∷◌, ◌++◌, length, take, drop,
  length-append, length-drop,
}
use par2tbb.Creator.{u64}
use par2tbb.Md5.{reset, update, final}
use par2tbb.Md5.Stream.{update-update, update-IsValid}
use par2tbb.Md5.Digest.{rfc1321, final-update, reset-IsValid, joined}
use par2tbb.Checksummer.{Disk, read, file_size}
use par2tbb.Checksummer.Progress.{IsReadable}
use par2tbb.Checksummer.Slices.{drop-drop, take-append_eq, take-append_le}
use par2tbb.DataBlock.Bounds.{drop-append_eq}
use par2tbb.Matching.{hash_same}
use par2tbb.Repairer.{keep_first}
use par2tbb.Scan.{
  Found, packet_magic, magic_of, length_of, hash_of, setid_of, from_setid, hash_rest, scan,
}
use par2tbb.Scan.{check_packet, length_fits, take_packet, load_packets_from_file}
use par2tbb.Scan.Digest.{hash_rest_lem}
use par2tbb.DataBlock.Copy.{read_readable}

-- A packet of a set: the magic value, its length, which is a multiple of 4, and the MD5 of all that
-- stands behind the hash.
pub record IsPacket (setid packet : List ℕ) : Type 0 where
  pub long : 64 ≤ length packet
  pub magic : magic_of (take 64 packet) ≡ packet_magic
  pub size : length_of (take 64 packet) ≡ length packet
  pub whole : length packet % 4 ≡ 0
  pub hash : rfc1321 (from_setid (take 64 packet) ++ drop 64 packet) ≡ hash_of (take 64 packet)
  pub set : setid_of (take 64 packet) ≡ setid

abbrev pub ArePackets : List ℕ → List (List ℕ) → Type 0
ArePackets setid [] = 0 < 1
ArePackets setid (p ∷ ps) = IsPacket setid p × ArePackets setid ps

-- The packets with their places, from an offset on.
abbrev pub places : ℕ → List (List ℕ) → List Found
places offset [] = []
places offset (p ∷ ps) =
    record { offset = offset; header = take 64 p } ∷ places (offset + length p) ps

pub hash_same_refl : (xs : List ℕ) → hash_same xs xs ≡ true
unfolding hash_same
hash_same_refl [] = refl
hash_same_refl (x ∷ xs) = let same : (x == x) ≡ true = ground arith in rw same (hash_same_refl xs)

drop-append_le : (n : ℕ) (xs ys : List ℕ) → n ≤ length xs → drop n (xs ++ ys) ≡ drop n xs ++ ys
drop-append_le zero xs ys h = refl
drop-append_le (suc n) [] ys h = absurd (omega arith)
drop-append_le (suc n) (x ∷ xs) ys h = drop-append_le n xs ys (omega arith)

-- The set id that the scan has is none or that of the set.
abbrev pub HasSet : Option (List ℕ) → List ℕ → Type 0
HasSet set setid = keep_first set (some setid) ≡ some setid

le→leb : (a b : ℕ) → a ≤ b → leb a b ≡ true
le→leb a b h = ground arith

fits_lem :
    (n limit size : ℕ)
    → 64 ≤ n
    → n % 4 ≡ 0
    → limit ≤ size
    → (leb 64 n && (n % 4 == 0) && leb limit size) ≡ true
fits_lem n limit size long whole within =
    rw (le→leb 64 n long, whole, le→leb limit size within) refl

-- A round at a packet takes it, and goes on behind it.
check_packet_takes :
    (d : Disk) (buffersize offset : ℕ) (set : Option (List ℕ)) (setid p rest : List ℕ)
    → IsReadable d
    → file_size d < 2 ^ 64
    → 0 < buffersize
    → IsPacket setid p
    → HasSet set setid
    → offset ≤ file_size d
    → drop offset d.contents ≡ p ++ rest
    → check_packet d buffersize set (record { offset = offset; header = take 64 p }) ≡ record {
      offset = offset + length p;
      setid = some setid;
      found = record { offset = offset; header = take 64 p } ∷ [];
    }
unfolding check_packet length_fits take_packet
check_packet_takes d buffersize offset set setid p rest readable bound positive packet has within
      stands =
    let h = take 64 p in
    let long = packet.long in
    let whole = packet.whole in
    let left : length d.contents - offset ≡ length p + length rest =
      sym (length-drop offset d.contents) ∙ ap length stands ∙ length-append p rest in
    let limit : u64 (offset + length p) ≡ offset + length p = omega arith in
    let fits : (leb 64 (length p) && (length p % 4 == 0) && leb (offset + length p) (file_size d))
        ≡ true =
      fits_lem (length p) (offset + length p) (file_size d) long whole (omega arith) in
    let body : take (offset + length p - (offset + 64)) (drop (offset + 64) d.contents)
        ≡ drop 64 p =
      ap (take (offset + length p - (offset + 64)))
        (sym (drop-drop offset 64 d.contents) ∙ ap (drop 64) stands ∙ drop-append_le 64 p rest long)
      ∙ take-append_eq _ (drop 64 p) rest (omega (arith, length-drop 64 p)) in
    let context = update reset (from_setid h) in
    let context_valid = update-IsValid reset (from_setid h) reset-IsValid in
    let digest : hash_rest (offset + length p) d buffersize (offset + 64) (offset + length p)
          context
        ≡ some (update reset (from_setid h ++ drop 64 p)) =
      hash_rest_lem (offset + length p) d buffersize (offset + 64) (offset + length p) context
        readable context_valid positive (omega arith)
      ∙ ap (λ t. some (update context t)) body
      ∙ ap some (update-update reset (from_setid h) (drop 64 p) reset-IsValid) in
    let agrees : hash_same (final (update reset (from_setid h ++ drop 64 p))) (hash_of h) ≡ true =
      ap (λ t. hash_same t (hash_of h)) (final-update (from_setid h ++ drop 64 p) ∙ packet.hash)
      ∙ hash_same_refl (hash_of h) in
    let same_id : hash_same setid setid ≡ true = hash_same_refl setid in
    rw (packet.size, limit, fits, digest, agrees, packet.set, has, same_id)
      (rw (packet.size, limit) refl)

-- placeholder
pub scan_complete :
    (fuel offset : ℕ) (d : Disk) (buffersize : ℕ) (set : Option (List ℕ)) (setid : List ℕ)
    (ps : List (List ℕ))
    → IsReadable d
    → file_size d < 2 ^ 64
    → 0 < buffersize
    → ArePackets setid ps
    → HasSet set setid
    → offset ≤ file_size d
    → drop offset d.contents ≡ joined ps
    → length ps < fuel
    → scan fuel d buffersize set offset ≡ places offset ps
unfolding scan joined
scan_complete zero offset d buffersize set setid ps readable bound positive packets has within
      stands enough =
    absurd (omega arith)
scan_complete (suc fuel) offset d buffersize set setid [] readable bound positive packets has within
      stands enough =
    let left : length d.contents - offset ≡ 0 =
      sym (length-drop offset d.contents) ∙ ap length stands in
    let ended : leb (offset + 64) (file_size d) ≡ false = ground arith in rw ended refl
scan_complete (suc fuel) offset d buffersize set setid (p ∷ ps) readable bound positive
      (packet, packets) has within stands enough =
    let h = take 64 p in
    let long = packet.long in
    let left : length d.contents - offset ≡ length p + length (joined ps) =
      sym (length-drop offset d.contents) ∙ ap length stands ∙ length-append p (joined ps) in
    let more : leb (offset + 64) (file_size d) ≡ true =
      le→leb (offset + 64) (file_size d) (omega arith) in
    let header : read d offset 64 ≡ some h =
      read_readable d offset 64 readable
      ∙ ap (λ t. some (take 64 t)) stands
      ∙ ap some (take-append_le 64 p (joined ps) long) in
    let magic : hash_same (magic_of h) packet_magic ≡ true =
      ap (λ t. hash_same t packet_magic) packet.magic ∙ hash_same_refl packet_magic in
    let behind : drop (offset + length p) d.contents ≡ joined ps =
      sym (drop-drop offset (length p) d.contents)
      ∙ ap (drop (length p)) stands
      ∙ drop-append_eq (length p) p (joined ps) refl in
    let rest =
      scan_complete fuel (offset + length p) d buffersize (some setid) setid ps readable bound
        positive packets refl (omega arith) behind (omega arith) in
    rw
      (
        more,
        header,
        magic,
        check_packet_takes d buffersize offset set setid p (joined ps) readable bound positive
            packet has within stands,
      )
      (ap (λ r. record { offset = offset; header = h } ∷ r) rest)

no_places :
    (setid : List ℕ) (ps : List (List ℕ))
    → ArePackets setid ps
    → length (joined ps) ≡ 0
    → places 0 ps ≡ []
unfolding joined
no_places setid [] packets nothing = refl
no_places setid (p ∷ ps) (packet, packets) nothing =
    let long = packet.long in absurd (omega (arith, length-append p (joined ps)))

-- In a file of less than 2^64 bytes whose reads succeed and that is a row of packets of one
-- set, each with the magic value, its length, a multiple of 4, and the MD5 of what stands
-- behind its hash, LoadPacketsFromFile finds each packet at its place, in their order and no
-- other, when it has no set id yet or that of the set, and more rounds than there are packets.
pub load_packets_from_file_lem :
    (fuel : ℕ) (d : Disk) (set : Option (List ℕ)) (setid : List ℕ) (ps : List (List ℕ))
    → IsReadable d
    → file_size d < 2 ^ 64
    → ArePackets setid ps
    → HasSet set setid
    → d.contents ≡ joined ps
    → length ps < fuel
    → load_packets_from_file fuel d set ≡ places 0 ps
unfolding load_packets_from_file scan
load_packets_from_file_lem fuel d set setid ps readable bound packets has stands enough =
    elim (Bool-cases (ltb 0 (file_size d))) [
      | inl some_bytes ↦ rw some_bytes (
          scan_complete fuel 0 d (min 1048576 (file_size d)) set setid ps readable bound
            (ground arith) packets has (omega arith) stands enough)
      | inr no_bytes ↦
          let nothing : length (joined ps) ≡ 0 = ap length (sym stands) ∙ (ground arith) in
          rw no_bytes (sym (no_places setid ps packets nothing))
    ]
