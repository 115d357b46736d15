-- ===== src/Packets/Fields.antt =====
-- The header of a packet of par2fileformat.h, and its fields when they are read back.
use par2tbb.Base.{ℕ, zero, suc, ◌+◌, ◌-◌, ◌*◌, ◌/◌, ◌%◌, ◌^◌, ◌<◌, ◌≡◌, refl, sym, ap, ap₂, ◌∙◌}
use par2tbb.Base.{
  Bool, false, if◌then◌else◌, some, arith, List, ◌++◌, length, take, drop, length-append,
}
use mathlib.Core.List.{append_assoc}
use par2tbb.Md5.{little_endian, update, reset, final}
use par2tbb.Md5.Digest.{rfc1321, final-update, length-little_endian, length-rfc1321}
use par2tbb.Checksummer.Slices.{drop-drop, take-append_eq, take_all}
use par2tbb.DataBlock.Bounds.{drop-append_eq}
use par2tbb.Scan.{number, packet_magic, magic_of, length_of, hash_of, setid_of, from_setid}
use par2tbb.Checksummer.{Disk}
use par2tbb.Checksummer.Progress.{IsReadable}
use par2tbb.DataBlock.Copy.{read_readable}
use par2tbb.Scan.Complete.{IsPacket}
use par2tbb.Packets.{
  Header, header_bytes, hashed_fields, new_header, finish_packet, packet_bytes, read_body,
}

-- A number stored in `n` bytes and read back.
pub number-little_endian : (n x : ℕ) → x < 256 ^ n → number (little_endian n x) ≡ x
unfolding little_endian
number-little_endian zero x h = grind arith
number-little_endian (suc n) x h =
    ap (λ t. x % 256 + 256 * t) (number-little_endian n (x / 256) (grind arith)) ∙ omega arith

-- The fields of a header have their sizes, and the magic value is that of a packet.
pub record IsHeader (h : Header) : Type 0 where
  pub magic : h.magic ≡ packet_magic
  pub size : h.length < 2 ^ 64
  pub hash : length h.hash ≡ 16
  pub setid : length h.setid ≡ 16
  pub type : length h.type ≡ 16

length-magic : (h : Header) → IsHeader h → 8 ≡ length h.magic
length-magic h v = ap length (sym v.magic)

pub length-header_bytes : (h : Header) → IsHeader h → length (header_bytes h) ≡ 64
unfolding header_bytes hashed_fields
length-header_bytes h v = omega (
  arith,
  length-append h.magic (little_endian 8 h.length ++ (h.hash ++ (h.setid ++ h.type))),
  length-magic h v,
  length-append (little_endian 8 h.length) (h.hash ++ (h.setid ++ h.type)),
  length-little_endian 8 h.length,
  length-append h.hash (h.setid ++ h.type),
  length-append h.setid h.type,
  v.hash,
  v.setid,
  v.type,
)

-- What stands behind `n` bytes, and `m` more.
pub behind :
    (n m : ℕ) (all xs ys : List ℕ) → n ≡ length xs → drop m all ≡ xs ++ ys → drop (m + n) all ≡ ys
behind n m all xs ys size stands =
    sym (drop-drop m n all) ∙ ap (drop n) stands ∙ drop-append_eq n xs ys size

module _ (h : Header) (v : IsHeader h) where
  behind_magic : drop 8 (header_bytes h) ≡ little_endian 8 h.length ++ (h.hash ++ hashed_fields h)
  unfolding header_bytes
  behind_magic = drop-append_eq 8 h.magic _ (length-magic h v)

  behind_length : drop 16 (header_bytes h) ≡ h.hash ++ hashed_fields h
  behind_length =
      behind 8 8 (header_bytes h) (little_endian 8 h.length) (h.hash ++ hashed_fields h)
        (sym (length-little_endian 8 h.length)) behind_magic

  behind_hash : drop 32 (header_bytes h) ≡ hashed_fields h
  behind_hash = behind 16 16 (header_bytes h) h.hash (hashed_fields h) (sym v.hash) behind_length

  pub magic_of-header_bytes : magic_of (header_bytes h) ≡ packet_magic
  unfolding magic_of header_bytes
  magic_of-header_bytes = take-append_eq 8 h.magic _ (length-magic h v) ∙ v.magic

  pub length_of-header_bytes : length_of (header_bytes h) ≡ h.length
  unfolding length_of
  length_of-header_bytes =
      let next = h.hash ++ hashed_fields h in
      ap (λ t. number (take 8 t)) behind_magic
      ∙ ap number
          (take-append_eq 8 (little_endian 8 h.length) next (sym (length-little_endian 8 h.length)))
      ∙ number-little_endian 8 h.length (omega (arith, v.size))

  pub hash_of-header_bytes : hash_of (header_bytes h) ≡ h.hash
  unfolding hash_of
  hash_of-header_bytes =
      ap (take 16) behind_length ∙ take-append_eq 16 h.hash (hashed_fields h) (sym v.hash)

  pub from_setid-header_bytes : from_setid (header_bytes h) ≡ hashed_fields h
  unfolding from_setid
  from_setid-header_bytes = behind_hash

  pub setid_of-header_bytes : setid_of (header_bytes h) ≡ h.setid
  unfolding setid_of hashed_fields
  setid_of-header_bytes = ap (take 16) behind_hash ∙ take-append_eq 16 h.setid h.type (sym v.setid)

pub length-packet_bytes :
    (h : Header) (body : List ℕ) → IsHeader h → length (packet_bytes h body) ≡ 64 + length body
length-packet_bytes h body v =
    omega (arith, length-append (header_bytes h) body, length-header_bytes h v)

-- A header with the length and the hash of a body makes a packet of it.
pub packet_bytes-IsPacket :
    (h : Header) (body : List ℕ)
    → IsHeader h
    → h.length ≡ 64 + length body
    → h.hash ≡ rfc1321 (hashed_fields h ++ body)
    → length body % 4 ≡ 0
    → IsPacket h.setid (packet_bytes h body)
packet_bytes-IsPacket h body v size hash whole =
    let first : take 64 (packet_bytes h body) ≡ header_bytes h =
      take-append_eq 64 (header_bytes h) body (sym (length-header_bytes h v)) in
    let rest : drop 64 (packet_bytes h body) ≡ body =
      drop-append_eq 64 (header_bytes h) body (sym (length-header_bytes h v)) in
    let all : length (packet_bytes h body) ≡ 64 + length body = length-packet_bytes h body v in
    record {
      long = omega (arith, all);
      magic = ap magic_of first ∙ magic_of-header_bytes h v;
      size = ap length_of first ∙ length_of-header_bytes h v ∙ size ∙ sym all;
      whole = omega (arith, all, whole);
      hash =
          ap₂ (λ x y. rfc1321 (from_setid x ++ y)) first rest
          ∙ ap (λ x. rfc1321 (x ++ body)) (from_setid-header_bytes h v)
          ∙ sym (ap hash_of first ∙ hash_of-header_bytes h v ∙ hash);
      set = ap setid_of first ∙ setid_of-header_bytes h v;
    }

-- A finished header.
pub finish_packet-IsHeader :
    (setid body type : List ℕ)
    → length setid ≡ 16
    → length type ≡ 16
    → IsHeader (finish_packet setid body (new_header (length body) type))
unfolding finish_packet new_header hashed_fields
finish_packet-IsHeader setid body type i t = record {
  magic = refl;
  size = omega arith;
  hash =
      ap length (final-update ((setid ++ type) ++ body)) ∙ length-rfc1321 ((setid ++ type) ++ body);
  setid = i;
  type = t;
}

pub finish_packet-hash :
    (setid body : List ℕ) (h : Header)
    → (finish_packet setid body h).hash
      ≡ rfc1321 (hashed_fields (finish_packet setid body h) ++ body)
unfolding finish_packet hashed_fields
finish_packet-hash setid body h = final-update ((setid ++ h.type) ++ body)

pub finish_packet-length :
    (setid body type : List ℕ)
    → 64 + length body < 2 ^ 64
    → (finish_packet setid body (new_header (length body) type)).length ≡ 64 + length body
unfolding finish_packet new_header
finish_packet-length setid body type small = omega arith

-- A header that was made by `new_header` for a body and then finished with a set id is that of a
-- packet of the set, whatever the body.
pub finish_packet-IsPacket :
    (setid body type : List ℕ)
    → length setid ≡ 16
    → length type ≡ 16
    → 64 + length body < 2 ^ 64
    → length body % 4 ≡ 0
    → IsPacket setid (packet_bytes (finish_packet setid body (new_header (length body) type)) body)
unfolding finish_packet
finish_packet-IsPacket setid body type i t small whole =
    packet_bytes-IsPacket (finish_packet setid body (new_header (length body) type)) body
      (finish_packet-IsHeader setid body type i t) (finish_packet-length setid body type small)
      (finish_packet-hash setid body (new_header (length body) type)) whole

-- A header from its bytes.
unfoldable pub header_of : List ℕ → Header
header_of h = record {
  magic = magic_of h;
  length = length_of h;
  hash = hash_of h;
  setid = setid_of h;
  type = take 16 (drop 48 h);
}

pub header_of-header_bytes : (h : Header) → IsHeader h → header_of (header_bytes h) ≡ h
unfolding header_of
header_of-header_bytes h v =
    let type : take 16 (drop 48 (header_bytes h)) ≡ h.type =
      ap (take 16) (
        behind 16 32 (header_bytes h) h.setid h.type (sym v.setid)
          (behind_hash h v ∙ unfold hashed_fields in refl))
      ∙ take_all 16 h.type (omega (arith, v.type)) in
    rw
      (
        magic_of-header_bytes h v,
        length_of-header_bytes h v,
        hash_of-header_bytes h v,
        setid_of-header_bytes h v,
        type,
        sym v.magic,
      )
      refl

pub length-digest : (m : List ℕ) → length (final (update reset m)) ≡ 16
length-digest m = ap length (final-update m) ∙ length-rfc1321 m

-- What Load reads behind the header of a packet that stands at an offset.
pub read_body_lem :
    (d : Disk) (offset : ℕ) (h : Header) (body rest : List ℕ)
    → IsReadable d
    → IsHeader h
    → h.length ≡ 64 + length body
    → drop offset d.contents ≡ packet_bytes h body ++ rest
    → read_body d offset (header_bytes h) ≡ some body
unfolding read_body
read_body_lem d offset h body rest readable v size stands =
    read_readable d (offset + 64) (length_of (header_bytes h) - 64) readable
    ∙ ap some (
        ap₂ take {y = length body} (omega (arith, length_of-header_bytes h v)) (
          sym (drop-drop offset 64 d.contents)
          ∙ ap (drop 64) (stands ∙ append_assoc (header_bytes h) body rest)
          ∙ drop-append_eq 64 (header_bytes h) (body ++ rest) (sym (length-header_bytes h v)))
        ∙ take-append_eq (length body) body rest refl)

-- The tests of a Load, which all fail.
pub choose_last {ℓ} :
    {A : Type ℓ} (a b c : Bool) (x y : A)
    → a ≡ false
    → b ≡ false
    → c ≡ false
    → (if a then x else if b then x else if c then x else y) ≡ y
choose_last a b c x y p q r = rw (p, q, r) refl
