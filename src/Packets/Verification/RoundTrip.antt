-- ===== src/Packets/Verification/RoundTrip.antt =====
-- VerificationPacket::Load of verificationpacket.cpp on what Create and SetBlockHashAndCRC make.
use par2tbb.Base.{ℕ, suc, ◌+◌, ◌-◌, ◌*◌, ◌/◌, ◌%◌, ◌^◌, ◌<◌, ◌≤◌, ◌≡◌, refl, sym, ap, subst, ◌∙◌}
use par2tbb.Base.{arith, ltb, leb, some, none}
use mathlib.Core.List.{append_assoc}
use par2tbb.Base.{
  List, [], ◌∷◌, ◌++◌, length, take, drop, map, replicate, length-append, length-replicate,
}
use par2tbb.Creator.{u32}
use par2tbb.Md5.{little_endian}
use par2tbb.Md5.Digest.{length-little_endian, joined}
use par2tbb.Checksummer.{Disk}
use par2tbb.Checksummer.Progress.{IsReadable}
use par2tbb.Checksummer.Slices.{take-append_eq}
use par2tbb.DataBlock.Bounds.{drop-append_eq}
use par2tbb.Scan.{number, length_of}
use par2tbb.Scan.Complete.{IsPacket}
use par2tbb.Packets.{
  header_bytes, packet_bytes, new_header, finish_packet, fileverificationpacket_type,
}
use par2tbb.Packets.Fields.{
  IsHeader, header_of-header_bytes, length_of-header_bytes, finish_packet-IsHeader,
  finish_packet-IsPacket, finish_packet-length, length-packet_bytes, number-little_endian,
  read_body_lem, choose_last,
}
use par2tbb.Packets.Verification.{
  Entry, VerificationPacket, entry_bytes, verification_body, create_verification_packet,
  set_file_id, finish_verification, set_entry, set_block_hash_and_crc, entries_of,
  verification_loaded, load_verification_packet,
}

-- An entry has a hash of 16 bytes and a 32-bit CRC.
abbrev pub AreEntries : List Entry → Type 0
AreEntries [] = 0 < 1
AreEntries (e ∷ es) = (length e.hash ≡ 16) × (e.crc < 2 ^ 32) × AreEntries es

length-entry_bytes : (e : Entry) → length e.hash ≡ 16 → length (entry_bytes e) ≡ 20
unfolding entry_bytes
length-entry_bytes e h =
    omega (arith, length-append e.hash (little_endian 4 e.crc), length-little_endian 4 e.crc)

length-entries :
    (es : List Entry) → AreEntries es → length (joined (map entry_bytes es)) ≡ 20 * length es
unfolding joined
length-entries [] v = refl
length-entries (e ∷ es) (size, small, v) = omega (
  arith,
  length-append (entry_bytes e) (joined (map entry_bytes es)),
  length-entry_bytes e size,
  length-entries es v,
)

entries_of-joined :
    (es : List Entry) → AreEntries es → entries_of (length es) (joined (map entry_bytes es)) ≡ es
unfolding entries_of joined entry_bytes
entries_of-joined [] v = refl
entries_of-joined (e ∷ es) (size, small, v) =
    let rest = joined (map entry_bytes es) in
    let crc = little_endian 4 e.crc in
    let all : (e.hash ++ crc) ++ rest ≡ e.hash ++ (crc ++ rest) = append_assoc e.hash crc rest in
    let hash : take 16 ((e.hash ++ crc) ++ rest) ≡ e.hash =
      ap (take 16) all ∙ take-append_eq 16 e.hash (crc ++ rest) (sym size) in
    let number_at : number (take 4 (drop 16 ((e.hash ++ crc) ++ rest))) ≡ e.crc =
      ap (λ t. number (take 4 (drop 16 t))) all
      ∙ ap (λ t. number (take 4 t)) (drop-append_eq 16 e.hash (crc ++ rest) (sym size))
      ∙ ap number (take-append_eq 4 crc rest (sym (length-little_endian 4 e.crc)))
      ∙ number-little_endian 4 e.crc (omega (arith, small)) in
    let next : drop 20 ((e.hash ++ crc) ++ rest) ≡ rest =
      drop-append_eq 20 (e.hash ++ crc) rest
        (sym (unfold entry_bytes in length-entry_bytes e size)) in
    rw (hash, number_at, next, entries_of-joined es v) refl

-- Setting the entries of the blocks from `blocknumber` on.
pub set_entries : ℕ → List Entry → VerificationPacket → VerificationPacket
set_entries blocknumber [] p = p
set_entries blocknumber (e ∷ es) p =
    set_entries (suc blocknumber) es (set_block_hash_and_crc blocknumber e p)

set_entry_at :
    (done rest : List Entry) (x e : Entry)
    → set_entry (done ++ (x ∷ rest)) (length done) e ≡ (done ++ (e ∷ [])) ++ rest
unfolding set_entry
set_entry_at [] rest x e = refl
set_entry_at (y ∷ done) rest x e = ap (λ t. y ∷ t) (set_entry_at done rest x e)

set_entries_lem :
    (es done rest : List Entry) (p : VerificationPacket)
    → p.entries ≡ done ++ rest
    → length rest ≡ length es
    → set_entries (length done) es p ≡ record p { entries = done ++ es }
unfolding set_entries set_block_hash_and_crc
set_entries_lem [] done [] p stands size = ap (λ t. record p { entries = t }) stands
set_entries_lem [] done (x ∷ rest) p stands size = absurd (omega arith)
set_entries_lem (e ∷ es) done [] p stands size = absurd (omega arith)
set_entries_lem (e ∷ es) done (x ∷ rest) p stands size =
    let next = record p { entries = set_entry p.entries (length done) e } in
    let there : next.entries ≡ (done ++ (e ∷ [])) ++ rest =
      ap (λ t. set_entry t (length done) e) stands ∙ set_entry_at done rest x e in
    ap (λ n. set_entries n es next) {y = length (done ++ (e ∷ []))}
      (omega (arith, length-append done (e ∷ [])))
    ∙ set_entries_lem es (done ++ (e ∷ [])) rest next there (omega arith)
    ∙ ap (λ t. record p { entries = t }) (append_assoc done (e ∷ []) es)

-- What the creator makes for a file with these blocks, finished.
pub verified : List ℕ → List ℕ → List Entry → VerificationPacket
verified setid fileid es =
    finish_verification setid
      (set_entries 0 es (set_file_id fileid (create_verification_packet (length es))))

module _ (setid fileid : List ℕ) (es : List Entry) (set : length setid ≡ 16)
    (id : length fileid ≡ 16) (v : AreEntries es) (few : length es ≤ 32768) where
  abbrev made : VerificationPacket
  made = verified setid fileid es

  abbrev body : List ℕ
  body = fileid ++ joined (map entry_bytes es)

  made_size : length body ≡ 16 + length es * 20
  made_size = omega (arith, length-append fileid (joined (map entry_bytes es)), length-entries es v)

  made_lem : made ≡ record {
    header = finish_packet setid body (new_header (length body) fileverificationpacket_type);
    fileid = fileid;
    entries = es;
    blockcount = length es;
  }
  unfolding verified finish_verification set_file_id create_verification_packet verification_body
  made_lem =
      rw
        (
          set_entries_lem es [] (replicate (length es) _)
              (set_file_id fileid (create_verification_packet (length es))) refl
              (length-replicate (length es) _),
          made_size,
        )
        refl

  pub verified-IsPacket : IsPacket setid (packet_bytes made.header (verification_body made))
  unfolding verification_body
  verified-IsPacket =
      subst
        (λ (p : VerificationPacket). IsPacket setid (packet_bytes p.header (verification_body p)))
        (sym made_lem)
        (finish_packet-IsPacket setid body fileverificationpacket_type set refl
          (omega (arith, made_size)) (omega (arith, made_size)))

  made-IsHeader : IsHeader made.header
  made-IsHeader =
      subst (λ (p : VerificationPacket). IsHeader p.header) (sym made_lem)
        (finish_packet-IsHeader setid body fileverificationpacket_type set refl)

  pub length-verified :
      length (packet_bytes made.header (verification_body made)) ≡ 80 + length es * 20
  length-verified =
      let here : verification_body made ≡ body =
        ap verification_body made_lem ∙ unfold verification_body in refl in
      omega (
        arith,
        length-packet_bytes made.header (verification_body made) made-IsHeader,
        ap length here,
        made_size,
      )

  made_length : made.header.length ≡ 64 + length body
  made_length =
      ap (λ (p : VerificationPacket). p.header.length) made_lem
      ∙ finish_packet-length setid body fileverificationpacket_type (omega (arith, made_size))

  -- What Load makes of the body.
  loaded_lem :
      (total : ℕ)
      → total ≡ length es
      → record {
        header = made.header;
        fileid = take 16 body;
        entries = entries_of total (drop 16 body);
        blockcount = total;
      }
        ≡ made
  loaded_lem total same =
      rw
        (
          same,
          take-append_eq 16 fileid (joined (map entry_bytes es)) (sym id),
          drop-append_eq 16 fileid (joined (map entry_bytes es)) (sym id),
          entries_of-joined es v,
          made_lem,
        )
        refl

  -- For a set id and a file id of 16 bytes and 1 to 32768 entries with a hash of 16 bytes and a
  -- 32-bit CRC, VerificationPacket::Load on a disk whose reads succeed and that has the
  -- finished packet at the offset gives the same packet again, with the entries that
  -- SetBlockHashAndCRC stored, the file id and the number of blocks.
  pub load_verification_packet-verified :
      (d : Disk) (offset : ℕ) (rest : List ℕ)
      → IsReadable d
      → 0 < length es
      → drop offset d.contents ≡ packet_bytes made.header (verification_body made) ++ rest
      → (load_verification_packet d offset (header_bytes made.header) ≡ some made)
        × (made.entries ≡ es)
        × (made.fileid ≡ fileid)
        × (made.blockcount ≡ length es)
  unfolding load_verification_packet verification_loaded
  load_verification_packet-verified d offset rest readable some_blocks stands =
      let h = header_bytes made.header in
      let len = length_of h in
      let size : len ≡ 80 + length es * 20 =
        length_of-header_bytes made.header made-IsHeader ∙ omega (arith, made_length, made_size) in
      let body_is : verification_body made ≡ body =
        ap verification_body made_lem ∙ unfold verification_body in refl in
      let here = stands ∙ ap (λ b. packet_bytes made.header b ++ rest) body_is in
      (
        choose_last (leb len 80) (ltb 0 ((len - 80) % 20)) (ltb (80 + 32768 * 20) len) none _
              (ground (arith, size)) (ground (arith, size)) (ground (arith, size))
            ∙ rw
                (
                  read_body_lem d offset made.header body rest readable made-IsHeader made_length
                      here,
                  header_of-header_bytes made.header made-IsHeader,
                )
                (ap some (loaded_lem (u32 ((len - 80) / 20)) (omega (arith, size)))),
        ap (λ (p : VerificationPacket). p.entries) made_lem,
        ap (λ (p : VerificationPacket). p.fileid) made_lem,
        ap (λ (p : VerificationPacket). p.blockcount) made_lem,
      )
