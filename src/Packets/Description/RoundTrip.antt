-- ===== src/Packets/Description/RoundTrip.antt =====
-- DescriptionPacket::Load of descriptionpacket.cpp on what Create and the hashes make.
use par2tbb.Base.{ℕ, ◌+◌, ◌-◌, ◌^◌, ◌<◌, ◌≤◌, ◌≡◌, refl, sym, ap, subst, ◌∙◌}
use par2tbb.Base.{arith, ltb, leb, not, ◌&&◌, Bool-cases, inl, inr, leb→le, false, some, none}
use par2tbb.Base.{List, ◌++◌, length, drop}
use par2tbb.Checksummer.{Disk}
use par2tbb.Checksummer.Progress.{IsReadable}
use par2tbb.Matching.{hash_same}
use par2tbb.Scan.{length_of}
use par2tbb.Scan.Complete.{IsPacket, hash_same_refl}
use par2tbb.Packets.{
  Header, header_bytes, packet_bytes, padded_text, pad_to_4, new_header, finish_packet,
  filedescriptionpacket_type,
}
use par2tbb.Packets.Fields.{
  IsHeader, length_of-header_bytes, finish_packet-IsHeader, finish_packet-IsPacket,
  finish_packet-length, length-packet_bytes, length-digest, read_body_lem, choose_last,
}
use par2tbb.Packets.Description.{
  DescriptionPacket, description_body, description_loaded, load_description_packet, c_string,
  file_name, create_description_packet, set_hash16k, set_hashfull, compute_file_id,
  finish_description,
}
use par2tbb.Packets.Description.Body.{
  HasNoNul, c_string-append, length-padded_text, IsDescription, description_of_lem,
  length-description_body,
}

-- What Open of par2creatorsourcefile.cpp makes of a file with these hashes, finished.
pub described : List ℕ → List ℕ → ℕ → List ℕ → List ℕ → DescriptionPacket
described setid filename filesize hash16k hashfull = finish_description setid (
    compute_file_id
      (set_hashfull hashfull (set_hash16k hash16k (create_description_packet filename filesize))))

-- The test of Load on the two hashes.
consistent :
    (filesize : ℕ) (hash16k hashfull : List ℕ)
    → (filesize ≤ 16384 → hash16k ≡ hashfull)
    → (leb filesize 16384 && not (hash_same hash16k hashfull)) ≡ false
consistent filesize hash16k hashfull same = elim (Bool-cases (leb filesize 16384)) [
  | inl short ↦ rw (short, same (leb→le filesize 16384 short), hash_same_refl hashfull) refl
  | inr long ↦ rw long refl
]

module _ (setid filename : List ℕ) (filesize : ℕ) (hash16k hashfull : List ℕ)
    (set : length setid ≡ 16) (few : pad_to_4 (length filename) ≤ 100000)
    (small : filesize < 2 ^ 64) (first : length hash16k ≡ 16) (full : length hashfull ≡ 16) where
  abbrev made : DescriptionPacket
  made = described setid filename filesize hash16k hashfull

  made_header :
      made.header
      ≡ finish_packet setid
          (description_body made)
          (new_header (56 + length (padded_text filename)) filedescriptionpacket_type)
  unfolding described finish_description compute_file_id set_hashfull set_hash16k
      create_description_packet description_body
  made_header = refl

  made_fields :
      (made.hashfull ≡ hashfull)
      × (made.hash16k ≡ hash16k)
      × (made.filesize ≡ filesize)
      × (made.name ≡ padded_text filename)
      × (length made.fileid ≡ 16)
  unfolding described finish_description compute_file_id set_hashfull set_hash16k
      create_description_packet
  made_fields = (refl, refl, refl, refl, length-digest _)

  made_length : length made.name ≡ pad_to_4 (length filename)
  made_length = ap length made_fields.3 ∙ length-padded_text filename

  made-IsDescription : IsDescription made
  made-IsDescription = record {
    fileid = made_fields.4;
    hashfull = ap length made_fields.0 ∙ full;
    hash16k = ap length made_fields.1 ∙ first;
    filesize = omega (arith, made_fields.2);
  }

  made_body : length (description_body made) ≡ 56 + pad_to_4 (length filename)
  made_body = length-description_body made made-IsDescription ∙ ap (λ n. 56 + n) made_length

  finished :
      made.header
      ≡ finish_packet setid
          (description_body made)
          (new_header (length (description_body made)) filedescriptionpacket_type)
  finished =
      made_header
      ∙ ap
          (λ n.
            finish_packet setid (description_body made) (new_header n filedescriptionpacket_type))
          (omega (arith, made_body, length-padded_text filename))

  made-IsHeader : IsHeader made.header
  made-IsHeader =
      subst IsHeader (sym finished)
        (finish_packet-IsHeader setid (description_body made) filedescriptionpacket_type set refl)

  made_size : made.header.length ≡ 64 + length (description_body made)
  made_size =
      ap (λ (h : Header). h.length) finished
      ∙ finish_packet-length setid (description_body made) filedescriptionpacket_type
          (omega (arith, made_body))

  pub length-described :
      length (packet_bytes made.header (description_body made)) ≡ 120 + pad_to_4 (length filename)
  length-described =
      omega
        (arith, length-packet_bytes made.header (description_body made) made-IsHeader, made_body)

  pub described-IsPacket : IsPacket setid (packet_bytes made.header (description_body made))
  described-IsPacket =
      subst (λ h. IsPacket setid (packet_bytes h (description_body made))) (sym finished)
        (finish_packet-IsPacket setid (description_body made) filedescriptionpacket_type set refl
          (omega (arith, made_body)) (omega (arith, made_body)))

  -- For a set id and two hashes of 16 bytes, a size below 2^64, a name that has a byte, no NUL
  -- and takes at most 100000 bytes with its padding, and hashes that are the same when the file
  -- has at most 16384 bytes, DescriptionPacket::Load on a disk whose reads succeed and that has
  -- the finished packet at the offset gives the same packet again, with the name, the size and
  -- both hashes.
  pub load_description_packet-described :
      (d : Disk) (offset : ℕ) (rest : List ℕ)
      → IsReadable d
      → 0 < length filename
      → HasNoNul filename
      → (filesize ≤ 16384 → hash16k ≡ hashfull)
      → drop offset d.contents ≡ packet_bytes made.header (description_body made) ++ rest
      → (load_description_packet d offset (header_bytes made.header) ≡ some made)
        × (file_name made ≡ filename)
        × (made.filesize ≡ filesize)
        × (made.hash16k ≡ hash16k)
        × (made.hashfull ≡ hashfull)
  unfolding load_description_packet description_loaded file_name padded_text
  load_description_packet-described d offset rest readable named nul same stands =
      let len = length_of (header_bytes made.header) in
      let size : len ≡ 120 + pad_to_4 (length filename) =
        length_of-header_bytes made.header made-IsHeader ∙ omega (arith, made_size, made_body) in
      (
        choose_last (leb len 120) (ltb 100000 (len - 120)) false none _ (ground (arith, size))
              (ground (arith, size)) refl
            ∙ rw
                (
                  read_body_lem d offset made.header (description_body made) rest readable
                      made-IsHeader made_size stands,
                  description_of_lem made made-IsDescription made-IsHeader,
                  made_fields.0,
                  made_fields.1,
                  made_fields.2,
                  consistent filesize hash16k hashfull same,
                )
                refl,
        ap c_string made_fields.3 ∙ c_string-append filename _ nul,
        made_fields.2,
        made_fields.1,
        made_fields.0,
      )
