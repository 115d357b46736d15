-- ===== src/Packets/Main/RoundTrip.antt =====
-- MainPacket::Load of mainpacket.cpp on what Create makes, and on anything else.
use par2tbb.Base.{
  ℕ, suc, ◌+◌, ◌-◌, ◌*◌, ◌/◌, ◌%◌, ◌^◌, ◌<◌, ◌≤◌, ◌≡◌, refl, sym, ap, ap₂, subst, ◌∙◌,
}
use par2tbb.Base.{arith, ltb, ◌==◌, not, ◌||◌, false, Option-cases, inl, inr, some, none}
use par2tbb.Base.{List, [], ◌∷◌, ◌++◌, length, take, drop, length-append}
use par2tbb.Creator.{u32}
use par2tbb.Md5.{update, reset, final, little_endian}
use par2tbb.Md5.Digest.{rfc1321, final-update, joined, length-little_endian}
use par2tbb.Checksummer.{Disk}
use par2tbb.Checksummer.Progress.{IsReadable}
use par2tbb.Checksummer.Slices.{drop-drop, take-append_eq}
use par2tbb.DataBlock.Bounds.{drop-append_eq}
use par2tbb.Scan.{number, length_of}
use par2tbb.Scan.Complete.{IsPacket}
use par2tbb.Packets.{header_bytes, packet_bytes, read_body}
use par2tbb.Packets.Fields.{
  IsHeader, length-header_bytes, length_of-header_bytes, finish_packet-IsHeader,
  finish_packet-IsPacket, finish_packet-length, number-little_endian, length-digest,
  length-packet_bytes, read_body_lem, choose_last,
}
use par2tbb.Packets.Main.Sort.{AreHashes}
use par2tbb.Packets.Main.{
  MainPacket, main_body, main_header, main_packet, main_loaded, load_main_packet, file_id,
  file_ids_from,
}

length-joined : (ids : List (List ℕ)) → AreHashes ids → length (joined ids) ≡ 16 * length ids
unfolding joined
length-joined [] v = refl
length-joined (x ∷ xs) ((sx, bx), vs) =
    omega (arith, length-append x (joined xs), sx, length-joined xs vs)

length-main_body :
    (blocksize : ℕ) (ids : List (List ℕ))
    → AreHashes ids
    → length (main_body blocksize ids) ≡ 12 + 16 * length ids
unfolding main_body
length-main_body blocksize ids v =
    let count = little_endian 4 (u32 (length ids)) in
    omega (
      arith,
      length-append (little_endian 8 blocksize) (count ++ joined ids),
      length-append count (joined ids),
      length-little_endian 8 blocksize,
      length-little_endian 4 (u32 (length ids)),
      length-joined ids v,
    )

main_header-IsHeader : (body : List ℕ) → IsHeader (main_header body)
unfolding main_header
main_header-IsHeader body =
    finish_packet-IsHeader (final (update reset body)) body _ (length-digest body) refl

main_header-length :
    (body : List ℕ) → 64 + length body < 2 ^ 64 → (main_header body).length ≡ 64 + length body
unfolding main_header
main_header-length body small = finish_packet-length (final (update reset body)) body _ small

pub length-main_packet :
    (blocksize : ℕ) (ids : List (List ℕ))
    → AreHashes ids
    → length (main_packet blocksize ids).packetdata ≡ 76 + 16 * length ids
unfolding main_packet
length-main_packet blocksize ids v =
    let body = main_body blocksize ids in
    omega (
      arith,
      length-packet_bytes (main_header body) body (main_header-IsHeader body),
      length-main_body blocksize ids v,
    )

pub main_packet-IsPacket :
    (blocksize : ℕ) (ids : List (List ℕ))
    → AreHashes ids
    → length ids < 2 ^ 32
    → IsPacket (rfc1321 (main_body blocksize ids)) (main_packet blocksize ids).packetdata
unfolding main_packet main_header
main_packet-IsPacket blocksize ids v small =
    let body = main_body blocksize ids in
    subst (λ t. IsPacket t (packet_bytes (main_header body) body)) (final-update body)
      (finish_packet-IsPacket (final (update reset body)) body _ (length-digest body) refl
        (omega (arith, length-main_body blocksize ids v))
        (omega (arith, length-main_body blocksize ids v)))

body_blocksize :
    (blocksize : ℕ) (ids : List (List ℕ))
    → blocksize < 2 ^ 64
    → number (take 8 (main_body blocksize ids)) ≡ blocksize
unfolding main_body
body_blocksize blocksize ids small =
    ap number
      (take-append_eq 8 (little_endian 8 blocksize) _ (sym (length-little_endian 8 blocksize)))
    ∙ number-little_endian 8 blocksize (omega arith)

body_count :
    (blocksize : ℕ) (ids : List (List ℕ))
    → length ids < 2 ^ 32
    → number (take 4 (drop 8 (main_body blocksize ids))) ≡ length ids
unfolding main_body
body_count blocksize ids small =
    let count = u32 (length ids) in
    ap (λ t. number (take 4 t))
      (drop-append_eq 8 (little_endian 8 blocksize) _ (sym (length-little_endian 8 blocksize)))
    ∙ ap number
        (take-append_eq 4 (little_endian 4 count) (joined ids) (sym (length-little_endian 4 count)))
    ∙ number-little_endian 4 count (omega arith)
    ∙ omega arith

not_less : (n : ℕ) → ltb n n ≡ false
not_less n = ground arith

file_ids_from_lem :
    (p : MainPacket) (start : ℕ) (ids : List (List ℕ))
    → AreHashes ids
    → drop (76 + start * 16) p.packetdata ≡ joined ids
    → file_ids_from p (length ids) start ≡ ids
unfolding file_ids_from file_id joined
file_ids_from_lem p start [] v stands = refl
file_ids_from_lem p start (x ∷ xs) ((sx, bx), vs) stands =
    ap₂ ◌∷◌ (ap (take 16) stands ∙ take-append_eq 16 x (joined xs) (sym sx)) (
      file_ids_from_lem p (suc start) xs vs (
        ap (λ t. drop t p.packetdata) {y = 76 + start * 16 + 16} (omega arith)
        ∙ sym (drop-drop (76 + start * 16) 16 p.packetdata)
        ∙ ap (drop 16) stands
        ∙ drop-append_eq 16 x (joined xs) (sym sx)))

behind_count :
    (blocksize : ℕ) (ids : List (List ℕ))
    → drop 76 (main_packet blocksize ids).packetdata ≡ joined ids
unfolding main_packet main_body
behind_count blocksize ids =
    let size = little_endian 8 blocksize in
    let count = little_endian 4 (u32 (length ids)) in
    let body = main_body blocksize ids in
    let h = header_bytes (main_header body) in
    sym (drop-drop 64 12 (h ++ body))
    ∙ ap (drop 12) (
        drop-append_eq 64 h body
          (sym (length-header_bytes (main_header body) (main_header-IsHeader body))))
    ∙ sym (drop-drop 8 4 body)
    ∙ ap (drop 4)
        (drop-append_eq 8 size (count ++ joined ids) (sym (length-little_endian 8 blocksize)))
    ∙ drop-append_eq 4 count (joined ids) (sym (length-little_endian 4 (u32 (length ids))))

-- The tests of Load on the length of a packet of `n` file ids, and on its body.
body_tests :
    (blocksize n : ℕ)
    → 0 < blocksize
    → blocksize % 4 ≡ 0
    → (blocksize == 0 || not (blocksize % 4 == 0)) ≡ false
body_tests blocksize n positive aligned = ground arith

-- For at most 32768 file ids that are hashes and a positive block size below 2^64 that is a
-- multiple of 4, MainPacket::Load on a disk whose reads succeed and that has the packet made of
-- them at the offset gives the same object again, and its FileId gives the ids in their order.
pub load_main_packet-main_packet :
    (d : Disk) (offset blocksize : ℕ) (ids : List (List ℕ)) (rest : List ℕ)
    → IsReadable d
    → AreHashes ids
    → length ids ≤ 32768
    → 0 < blocksize
    → blocksize < 2 ^ 64
    → blocksize % 4 ≡ 0
    → drop offset d.contents ≡ (main_packet blocksize ids).packetdata ++ rest
    → (load_main_packet d offset (header_bytes (main_header (main_body blocksize ids)))
        ≡ some (main_packet blocksize ids))
      × (file_ids_from (main_packet blocksize ids) (length ids) 0 ≡ ids)
unfolding load_main_packet main_loaded main_packet
load_main_packet-main_packet d offset blocksize ids rest readable v few positive small aligned
      stands =
    let n = length ids in
    let body = main_body blocksize ids in
    let h = main_header body in
    let all : h.length ≡ 64 + length body =
      main_header-length body (omega (arith, length-main_body blocksize ids v)) in
    let size : length_of (header_bytes h) ≡ 76 + 16 * n =
      length_of-header_bytes h (main_header-IsHeader body)
      ∙ omega (arith, all, length-main_body blocksize ids v) in
    let total : u32 n ≡ n = omega arith in
    let count : u32 ((length_of (header_bytes h) - 76) / 16) ≡ n = omega (arith, size) in
    let len = length_of (header_bytes h) in
    let loaded =
      main_loaded (header_bytes h) (u32 ((len - 76) / 16)) (read_body d offset (header_bytes h)) in
    (
      choose_last (ltb len 76) (ltb 0 ((len - 76) % 16)) (ltb (76 + 32768 * 16) len) none loaded
            (ground (arith, size)) (ground (arith, size)) (ground (arith, size))
          ∙ rw
              (
                read_body_lem d offset h body rest readable (main_header-IsHeader body) all stands,
                count,
                body_blocksize blocksize ids small,
                body_count blocksize ids (omega arith),
                not_less n,
                body_tests blocksize n positive aligned,
                total,
              )
              refl,
      file_ids_from_lem (main_packet blocksize ids) 0 ids v (behind_count blocksize ids),
    )

-- A main packet that Load accepts has at most as many recoverable files as files, at most 32768
-- files, exactly the bytes of its file ids in its length, and a block size that is not 0 and a
-- multiple of 4.
pub load_main_packet_validates :
    (d : Disk) (offset : ℕ) (h : List ℕ) (p : MainPacket)
    → load_main_packet d offset h ≡ some p
    → (p.recoverablefilecount ≤ p.totalfilecount)
      × (p.totalfilecount ≤ 32768)
      × (length_of h ≡ 76 + 16 * p.totalfilecount)
      × (0 < p.blocksize)
      × (p.blocksize % 4 ≡ 0)
unfolding load_main_packet main_loaded
load_main_packet_validates d offset h p loaded = elim (Option-cases (read_body d offset h)) [
  | inl none_read ↦ absurd (ground (arith, loaded, none_read))
  | inr (body, got) ↦ ground (arith, loaded, got)
]
