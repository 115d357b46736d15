-- ===== src/Packets/Recovery/Finished.antt =====
-- What a recovery packet of recoverypacket.cpp is on disk after WriteHeader, and for Load.
use mathlib.Core.List.{append_assoc}
use par2tbb.Base.{ℕ, ◌+◌, ◌-◌, ◌%◌, ◌^◌, ◌<◌, ◌≤◌, ◌≡◌, refl, sym, ap, ap₂, subst, ◌∙◌}
use par2tbb.Base.{arith, true, Bool-cases, false, leb, ltb, inl, inr, some}
use par2tbb.Base.{List, [], ◌∷◌, ◌++◌, length, take, drop, length-append, length-take, min}
use par2tbb.Md5.{update, reset, final, little_endian}
use par2tbb.Md5.Stream.{update-update, update-IsValid}
use par2tbb.Md5.Digest.{
  final-update, reset-IsValid, rfc1321, joined, length-rfc1321, length-little_endian,
}
use par2tbb.Checksummer.{Disk, overwrite}
use par2tbb.Checksummer.Progress.{IsReadable}
use par2tbb.Checksummer.Slices.{drop-drop, take-append_eq, take-add}
use par2tbb.DataBlock.{DataBlock, Volume, write, write_data, set_length, set_location}
use par2tbb.DataBlock.Bounds.{drop-append_eq, written}
use par2tbb.DataBlock.Copy.{read_readable}
use par2tbb.Scan.Complete.{IsPacket}
use par2tbb.Packets.{hashed_fields, header_bytes}
use par2tbb.Packets.Fields.{
  IsHeader, packet_bytes-IsPacket, length-header_bytes, number-little_endian,
  header_of-header_bytes, length_of-header_bytes,
}
use par2tbb.Packets.Recovery.{
  RecoveryPacket, create_recovery_packet, write_packet_data, write_header, recovery_bytes,
  recovery_loaded, load_recovery_packet, data_location,
}
use par2tbb.Packets.Recovery.Written.{
  write_pieces, write_pieces_lem, write_recovery_packet, Piece, Piece-found,
}

-- No write fails.
abbrev pub IsWritable : Volume → Type 0
IsWritable v = (offset len : ℕ) → v.writable offset len ≡ true

write_total :
    (v : Volume) (offset : ℕ) (bytes : List ℕ)
    → IsWritable v
    → (w : Volume) × (write v offset bytes ≡ some w) × IsWritable w
unfolding write
write_total v offset bytes ok = (
  record v { disk = record v.disk { contents = overwrite v.disk.contents offset bytes } },
  rw (ok offset (length bytes)) refl,
  ok,
)

write_data_total :
    (v : Volume) (b : DataBlock) (position : ℕ) (bytes : List ℕ)
    → IsWritable v
    → (wrote : ℕ) × (w : Volume) × (write_data v b position bytes ≡ some (wrote, w)) × IsWritable w
unfolding write_data
write_data_total v b position bytes ok =
    let have = min (length bytes) (b.length - position) in
    elim (Bool-cases (ltb position b.length)) [
      | inl inside ↦
          let (w, done, writable) = write_total v (b.offset + position) (take have bytes) ok in
          (have, w, rw (inside, done) refl, writable)
      | inr outside ↦ (0, v, rw outside refl, ok)
    ]

write_pieces_total :
    (pieces : List (List ℕ)) (v : Volume) (p : RecoveryPacket) (position : ℕ)
    → IsWritable v
    → (q : RecoveryPacket) × (w : Volume) × (write_pieces v p position pieces ≡ some (q, w))
      × IsWritable w
unfolding write_pieces write_packet_data
write_pieces_total [] v p position ok = (p, v, refl, ok)
write_pieces_total (x ∷ pieces) v p position ok =
    let (wrote, u, done, writable) = write_data_total v p.datablock position x ok in
    let next = record p { packetcontext = update p.packetcontext x } in
    let (q, w, rest, last) = write_pieces_total pieces u next (position + length x) writable in
    (q, w, rw (done, rest) refl, last)

module _ (diskfile offset blocksize exponent : ℕ) (setid : List ℕ) (pieces : List (List ℕ)) where
  abbrev created : RecoveryPacket
  created = create_recovery_packet diskfile offset blocksize exponent setid

  -- The packet after its data, and after WriteHeader.
  abbrev filled : RecoveryPacket
  filled = record created { packetcontext = update created.packetcontext (joined pieces) }

  abbrev pub finished : RecoveryPacket
  finished = record filled { header = record created.header { hash = final filled.packetcontext } }

module _ (diskfile offset blocksize exponent : ℕ) (setid : List ℕ) (pieces : List (List ℕ))
    (set : length setid ≡ 16) (small : 68 + blocksize < 2 ^ 64) (whole : blocksize % 4 ≡ 0)
    (all : length (joined pieces) ≡ blocksize) where
  abbrev start : RecoveryPacket
  start = created diskfile offset blocksize exponent setid pieces

  abbrev middle : RecoveryPacket
  middle = filled diskfile offset blocksize exponent setid pieces

  abbrev packet : RecoveryPacket
  packet = finished diskfile offset blocksize exponent setid pieces

  finished-hash :
      final middle.packetcontext
      ≡ rfc1321 (hashed_fields packet.header ++ (little_endian 4 exponent ++ joined pieces))
  unfolding create_recovery_packet hashed_fields
  finished-hash =
      let fields = setid ++ packet.header.type in
      ap final
        (update-update reset (fields ++ little_endian 4 exponent) (joined pieces) reset-IsValid)
      ∙ final-update ((fields ++ little_endian 4 exponent) ++ joined pieces)
      ∙ ap rfc1321 (append_assoc fields (little_endian 4 exponent) (joined pieces))

  pub finished-IsHeader : IsHeader packet.header
  unfolding create_recovery_packet
  finished-IsHeader = record {
    magic = refl;
    size = omega arith;
    hash = ap length finished-hash ∙ length-rfc1321 _;
    setid = set;
    type = refl;
  }

  pub finished-IsPacket : IsPacket setid (recovery_bytes packet ++ joined pieces)
  unfolding recovery_bytes create_recovery_packet
  finished-IsPacket =
      let body = little_endian 4 exponent ++ joined pieces in
      let size : length body ≡ 4 + blocksize = omega (
        arith,
        length-append (little_endian 4 exponent) (joined pieces),
        length-little_endian 4 exponent,
      ) in
      subst (IsPacket setid)
        (sym (append_assoc (header_bytes packet.header) (little_endian 4 exponent) (joined pieces)))
        (packet_bytes-IsPacket packet.header body finished-IsHeader (omega (arith, size))
          finished-hash (omega (arith, size)))

  length-recovery_bytes : length (recovery_bytes packet) ≡ 68
  unfolding recovery_bytes header_bytes create_recovery_packet
  length-recovery_bytes = omega (
    arith,
    length-append (header_bytes packet.header) (little_endian 4 exponent),
    length-header_bytes packet.header finished-IsHeader,
    length-little_endian 4 exponent,
  )

  -- The header in front of the data that stand behind its place.
  header_written :
      (contents bytes : List ℕ)
      → offset + 68 + length bytes ≤ length contents
      → take (length bytes) (drop (offset + 68) contents) ≡ bytes
      → take (68 + length bytes) (drop offset (overwrite contents offset (recovery_bytes packet)))
        ≡ recovery_bytes packet ++ bytes
  header_written contents bytes room stands =
      let header = recovery_bytes packet in
      let behind = drop (offset + length header) contents in
      ap (take (68 + length bytes)) (
        drop-append_eq offset (take offset contents) (header ++ behind)
          (omega (arith, length-take offset contents)))
      ∙ ap (λ n. take (n + length bytes) (header ++ behind)) (sym length-recovery_bytes)
      ∙ take-add (length header) (length bytes) (header ++ behind)
      ∙ ap₂ ◌++◌ (take-append_eq (length header) header behind refl) (
          ap (take (length bytes)) (drop-append_eq (length header) header behind refl)
          ∙ ap (λ n. take (length bytes) (drop (offset + n) contents)) length-recovery_bytes
          ∙ stands)

  -- For a set id of 16 bytes, pieces of data that come to the block size, a block size that is
  -- a multiple of 4 and with the 68 bytes of the header below 2^64, and a file that is long
  -- enough and whose writes succeed, Create, WriteData of every piece in turn and WriteHeader
  -- succeed, and leave at the offset the header and the data, which are a packet of the set:
  -- its hash is the MD5 of all that stands behind it.
  pub write_recovery_packet_lem :
      (v : Volume)
      → IsWritable v
      → offset + 68 + blocksize ≤ length v.disk.contents
      → (w : Volume) × (write_recovery_packet v diskfile offset blocksize exponent setid pieces
          ≡ some (finished diskfile offset blocksize exponent setid pieces, w))
        × (take (68 + blocksize) (drop offset w.disk.contents)
            ≡ recovery_bytes (finished diskfile offset blocksize exponent setid pieces)
              ++ joined pieces)
        × IsPacket setid (
            recovery_bytes (finished diskfile offset blocksize exponent setid pieces)
            ++ joined pieces)
  unfolding write_recovery_packet write_header create_recovery_packet data_location set_length
      set_location
  write_recovery_packet_lem v ok room =
      let (q, u, done, writable) = write_pieces_total pieces v start 0 ok in
      let (after, piece) =
        write_pieces_lem pieces v u start q 0 (update-IsValid reset _ reset-IsValid)
          (omega (arith, room)) (omega (arith, all)) done in
      let (w, last, _) = write_total u offset (recovery_bytes packet) writable in
      let filled_up = done ∙ ap (λ t. some (t, u)) (sym after) in
      let there : take (length (joined pieces)) (drop (offset + 68) u.disk.contents)
          ≡ joined pieces =
        Piece-found v.disk.contents u.disk.contents (offset + 68) (joined pieces)
          (omega (arith, all))
          (subst (λ n. Piece v.disk.contents u.disk.contents n (joined pieces)) (omega arith)
            piece) in
      (
        w,
        rw (filled_up, last) refl,
        ap₂ (λ n c. take (68 + n) (drop offset c)) (sym all)
              (written u w offset (recovery_bytes packet) last)
            ∙ header_written u.disk.contents (joined pieces) (omega (arith, all, piece.size)) there,
        finished-IsPacket,
      )

-- Load on a packet that was written.
pub load_recovery_packet-recovery_bytes :
    (d : Disk) (p : RecoveryPacket) (rest : List ℕ)
    → IsReadable d
    → IsHeader p.header
    → 68 < p.header.length
    → p.exponent < 2 ^ 32
    → p.datablock ≡ data_location p.diskfile p.offset (p.header.length - 68)
    → drop p.offset d.contents ≡ recovery_bytes p ++ rest
    → load_recovery_packet d p.diskfile p.offset (header_bytes p.header)
      ≡ some (record p { packetcontext = reset })
unfolding load_recovery_packet recovery_loaded recovery_bytes
load_recovery_packet-recovery_bytes d p rest readable header long small block stands =
    let size = length_of-header_bytes p.header header in
    let behind : drop (p.offset + 64) d.contents ≡ little_endian 4 p.exponent ++ rest =
      sym (drop-drop p.offset 64 d.contents)
      ∙ ap (drop 64)
          (stands ∙ append_assoc (header_bytes p.header) (little_endian 4 p.exponent) rest)
      ∙ drop-append_eq 64 (header_bytes p.header) (little_endian 4 p.exponent ++ rest)
          (sym (length-header_bytes p.header header)) in
    let exponent : take 4 (drop (p.offset + 64) d.contents) ≡ little_endian 4 p.exponent =
      ap (take 4) behind
      ∙ take-append_eq 4 (little_endian 4 p.exponent) rest
          (sym (length-little_endian 4 p.exponent)) in
    let test : leb p.header.length 68 ≡ false = ground arith in
    rw
      (
        size,
        read_readable d (p.offset + 64) 4 readable,
        exponent,
        number-little_endian 4 p.exponent (omega arith),
        header_of-header_bytes p.header header,
        test,
        size,
        sym block,
      )
      refl
