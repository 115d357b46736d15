-- ===== src/Packets/Description/Body.antt =====
-- The body of a file description packet in descriptionpacket.cpp, and the text that pads its name.
use par2tbb.Base.{ℕ, zero, suc, ◌+◌, ◌-◌, ◌^◌, ◌<◌, ◌≡◌, refl, sym, ap, ◌∙◌}
use par2tbb.Base.{arith, ◌==◌, false}
use par2tbb.Base.{
  List, [], ◌∷◌, ◌++◌, length, take, drop, replicate, length-append, length-replicate,
}
use par2tbb.Md5.{little_endian}
use par2tbb.Md5.Digest.{length-little_endian}
use par2tbb.Checksummer.Slices.{take-append_eq}
use par2tbb.DataBlock.Bounds.{drop-append_eq}
use par2tbb.Scan.{number}
use par2tbb.Packets.{header_bytes, padded_text, pad_to_4}
use par2tbb.Packets.Fields.{IsHeader, header_of-header_bytes, number-little_endian, behind}
use par2tbb.Packets.Description.{DescriptionPacket, description_body, description_of, c_string}

-- The text that pads a name is cut off again.
abbrev pub HasNoNul : List ℕ → Type 0
HasNoNul [] = 0 < 1
HasNoNul (b ∷ bs) = (0 < b) × HasNoNul bs

c_string-zeros : (n : ℕ) → c_string (replicate n 0) ≡ []
unfolding c_string
c_string-zeros zero = refl
c_string-zeros (suc n) = refl

pub c_string-append :
    (text : List ℕ) (n : ℕ) → HasNoNul text → c_string (text ++ replicate n 0) ≡ text
unfolding c_string
c_string-append [] n v = c_string-zeros n
c_string-append (b ∷ bs) n (positive, v) =
    let no_nul : (b == 0) ≡ false = ground arith in rw (no_nul, c_string-append bs n v) refl

pub length-padded_text : (text : List ℕ) → length (padded_text text) ≡ pad_to_4 (length text)
unfolding padded_text
length-padded_text text = omega (
  arith,
  length-append text (replicate (pad_to_4 (length text) - length text) 0),
  length-replicate {A = ℕ} (pad_to_4 (length text) - length text) 0,
)

-- The fields of a packet have their sizes.
pub record IsDescription (p : DescriptionPacket) : Type 0 where
  pub fileid : length p.fileid ≡ 16
  pub hashfull : length p.hashfull ≡ 16
  pub hash16k : length p.hash16k ≡ 16
  pub filesize : p.filesize < 2 ^ 64

module _ (p : DescriptionPacket) (v : IsDescription p) where
  behind_fileid :
      drop 16 (description_body p)
      ≡ p.hashfull ++ (p.hash16k ++ (little_endian 8 p.filesize ++ p.name))
  unfolding description_body
  behind_fileid = drop-append_eq 16 p.fileid _ (sym v.fileid)

  behind_hashfull :
      drop 32 (description_body p) ≡ p.hash16k ++ (little_endian 8 p.filesize ++ p.name)
  behind_hashfull = behind 16 16 (description_body p) p.hashfull _ (sym v.hashfull) behind_fileid

  behind_hash16k : drop 48 (description_body p) ≡ little_endian 8 p.filesize ++ p.name
  behind_hash16k = behind 16 32 (description_body p) p.hash16k _ (sym v.hash16k) behind_hashfull

  behind_filesize : drop 56 (description_body p) ≡ p.name
  behind_filesize =
      behind 8 48 (description_body p) (little_endian 8 p.filesize) p.name
        (sym (length-little_endian 8 p.filesize)) behind_hash16k

  pub description_of_lem :
      IsHeader p.header → description_of (header_bytes p.header) (description_body p) ≡ p
  unfolding description_of
  description_of_lem header =
      let fileid : take 16 (description_body p) ≡ p.fileid =
        unfold description_body in take-append_eq 16 p.fileid _ (sym v.fileid) in
      let filesize : number (take 8 (drop 48 (description_body p))) ≡ p.filesize =
        ap (λ t. number (take 8 t)) behind_hash16k
        ∙ ap number (
            take-append_eq 8 (little_endian 8 p.filesize) p.name
              (sym (length-little_endian 8 p.filesize)))
        ∙ number-little_endian 8 p.filesize (omega (arith, v.filesize)) in
      rw
        (
          header_of-header_bytes p.header header,
          fileid,
          behind_fileid,
          behind_hashfull,
          filesize,
          behind_filesize,
          take-append_eq 16 p.hashfull (p.hash16k ++ (little_endian 8 p.filesize ++ p.name))
              (sym v.hashfull),
          take-append_eq 16 p.hash16k (little_endian 8 p.filesize ++ p.name) (sym v.hash16k),
        )
        refl

  pub length-description_body : length (description_body p) ≡ 56 + length p.name
  unfolding description_body
  length-description_body = omega (
    arith,
    length-append p.fileid (p.hashfull ++ (p.hash16k ++ (little_endian 8 p.filesize ++ p.name))),
    length-append p.hashfull (p.hash16k ++ (little_endian 8 p.filesize ++ p.name)),
    length-append p.hash16k (little_endian 8 p.filesize ++ p.name),
    length-append (little_endian 8 p.filesize) p.name,
    length-little_endian 8 p.filesize,
    v.fileid,
    v.hashfull,
    v.hash16k,
  )
