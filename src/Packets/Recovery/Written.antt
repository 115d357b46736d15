-- ===== src/Packets/Recovery/Written.antt =====
-- A recovery packet of recoverypacket.cpp that is written in pieces.
use mathlib.Core.List.{append_assoc}
use mathlib.Core.Option.{some-injective}
use par2tbb.Base.{ℕ, ◌+◌, ◌≤◌, ◌≡◌, refl, sym, ap, subst, ◌∙◌}
use par2tbb.Base.{arith, inl, inr, Option, Option-cases, none, some}
use par2tbb.Base.{List, [], ◌∷◌, ◌++◌, length, take, drop, length-append, length-take}
use par2tbb.Md5.{update}
use par2tbb.Md5.Stream.{update-update, update-IsValid, IsValid, update-nil}
use par2tbb.Md5.Digest.{joined}
use par2tbb.Checksummer.{overwrite}
use par2tbb.Checksummer.Buffer.{take-overwrite, length-overwrite}
use par2tbb.Checksummer.Slices.{take-add, take_all}
use par2tbb.DataBlock.{DataBlock, Volume, write_data}
use par2tbb.DataBlock.Bounds.{drop-append_eq, write_data-cases}
use par2tbb.Packets.Recovery.{
  RecoveryPacket, create_recovery_packet, write_packet_data, write_header,
}

-- The pieces of the data, each written behind the one before it.
abbrev pub bind_packet :
    Option (RecoveryPacket × Volume)
    → (RecoveryPacket → Volume → Option (RecoveryPacket × Volume))
    → Option (RecoveryPacket × Volume)
bind_packet none next = none
bind_packet (some (p, v)) next = next p v

unfoldable pub write_pieces :
    Volume → RecoveryPacket → ℕ → List (List ℕ) → Option (RecoveryPacket × Volume)
write_pieces v p position [] = some (p, v)
write_pieces v p position (x ∷ pieces) =
    bind_packet (write_packet_data v p position x)
      λ q w. write_pieces w q (position + length x) pieces

-- Create, WriteData for every piece, and WriteHeader.
unfoldable pub write_recovery_packet :
    Volume → ℕ → ℕ → ℕ → ℕ → List ℕ → List (List ℕ) → Option (RecoveryPacket × Volume)
write_recovery_packet v diskfile offset blocksize exponent setid pieces =
    bind_packet
      (write_pieces v (create_recovery_packet diskfile offset blocksize exponent setid) 0 pieces)
      λ p w. write_header w p

-- One piece on disk: the file has it behind what stands there.
pub record Piece (before after : List ℕ) (at : ℕ) (x : List ℕ) : Type 0 where
  pub size : length after ≡ length before
  pub bytes : take (at + length x) after ≡ take at before ++ x

append-nil_eq : (xs ys : List ℕ) → length ys ≡ 0 → xs ++ ys ≡ xs
append-nil_eq [] [] h = refl
append-nil_eq [] (y ∷ ys) h = absurd (omega arith)
append-nil_eq (x ∷ xs) ys h = ap (λ t. x ∷ t) (append-nil_eq xs ys h)

pub overwrite-Piece :
    (before : List ℕ) (at : ℕ) (x : List ℕ)
    → at + length x ≤ length before
    → Piece before (overwrite before at x) at x
overwrite-Piece before at x room = record {
  size = length-overwrite before at x room;
  bytes = take-overwrite before at x (omega arith);
}

write_data-Piece :
    (v w : Volume) (b : DataBlock) (position wrote : ℕ) (x : List ℕ)
    → b.offset + b.length ≤ length v.disk.contents
    → position + length x ≤ b.length
    → write_data v b position x ≡ some (wrote, w)
    → Piece v.disk.contents w.disk.contents (b.offset + position) x
write_data-Piece v w b position wrote x room fits done =
    let at = b.offset + position in
    elim (write_data-cases v w b position wrote x done) [
      | inl (outside, nothing, same) ↦ rw same (record {
        size = refl;
        bytes =
            ap (λ n. take n v.disk.contents) {y = at} (omega arith)
            ∙ sym (append-nil_eq (take at v.disk.contents) x (omega arith));
      })
      | inr (inside, size, stands) ↦
          rw (stands, take_all wrote x (omega arith))
            (overwrite-Piece v.disk.contents at x (omega arith))
    ]

-- The piece is found at its place.
pub Piece-found :
    (before after : List ℕ) (at : ℕ) (x : List ℕ)
    → at + length x ≤ length before
    → Piece before after at x
    → take (length x) (drop at after) ≡ x
Piece-found before after at x room piece =
    sym (drop-append_eq at (take at after) _ (omega (arith, piece.size, length-take at after)))
    ∙ ap (drop at) (sym (take-add at (length x) after) ∙ piece.bytes)
    ∙ drop-append_eq at (take at before) x (omega (arith, length-take at before))

write_packet_data_lem :
    (v w : Volume) (p q : RecoveryPacket) (position : ℕ) (x : List ℕ)
    → p.datablock.offset + p.datablock.length ≤ length v.disk.contents
    → position + length x ≤ p.datablock.length
    → write_packet_data v p position x ≡ some (q, w)
    → (record p { packetcontext = update p.packetcontext x } ≡ q)
      × Piece v.disk.contents w.disk.contents (p.datablock.offset + position) x
unfolding write_packet_data
write_packet_data_lem v w p q position x room fits done =
    elim (Option-cases (write_data v p.datablock position x)) [
      | inl failed ↦ absurd (cc (rw failed at done))
      | inr ((wrote, u), took) ↦
          let same = some-injective _ _ (rw took at done) in
          (
            ap (λ t. t.0) same,
            subst
                (λ (t : Volume).
                  Piece v.disk.contents t.disk.contents (p.datablock.offset + position) x)
                (ap (λ t. t.1) same)
                (write_data-Piece v u p.datablock position wrote x room fits took),
          )
    ]

Piece-append :
    (a b c : List ℕ) (at : ℕ) (x y : List ℕ)
    → Piece a b at x
    → Piece b c (at + length x) y
    → Piece a c at (x ++ y)
Piece-append a b c at x y first second = record {
  size = second.size ∙ first.size;
  bytes =
      ap (λ n. take n c) {y = at + length x + length y} (omega (arith, length-append x y))
      ∙ second.bytes
      ∙ ap (λ t. t ++ y) first.bytes
      ∙ append_assoc (take at a) x y;
}

-- All the pieces.
pub write_pieces_lem :
    (pieces : List (List ℕ)) (v w : Volume) (p q : RecoveryPacket) (position : ℕ)
    → IsValid p.packetcontext
    → p.datablock.offset + p.datablock.length ≤ length v.disk.contents
    → position + length (joined pieces) ≤ p.datablock.length
    → write_pieces v p position pieces ≡ some (q, w)
    → (record p { packetcontext = update p.packetcontext (joined pieces) } ≡ q)
      × Piece v.disk.contents w.disk.contents (p.datablock.offset + position) (joined pieces)
unfolding write_pieces joined
write_pieces_lem [] v w p q position valid room fits done =
    let same = some-injective _ _ done in
    (
      ap (λ c. record p { packetcontext = c }) (update-nil p.packetcontext valid)
          ∙ ap (λ t. t.0) same,
      subst
          (λ (t : Volume). Piece v.disk.contents t.disk.contents (p.datablock.offset + position) [])
          (ap (λ t. t.1) same)
          (record {
            size = refl;
            bytes =
                ap (λ n. take n v.disk.contents) {x = p.datablock.offset + position + 0}
                  (omega arith)
                ∙ sym (append-nil_eq _ [] refl);
          }),
    )
write_pieces_lem (x ∷ pieces) v w p q position valid room fits done =
    elim (Option-cases (write_packet_data v p position x)) [
      | inl failed ↦ absurd (cc (rw failed at done))
      | inr ((r, u), took) ↦
          let fits_all : position + length x + length (joined pieces) ≤ p.datablock.length =
            omega (arith, length-append x (joined pieces)) in
          let (packet, piece) =
            write_packet_data_lem v u p r position x room (omega (arith, fits_all)) took in
          let later =
            subst (λ t. write_pieces u t (position + length x) pieces ≡ some (q, w)) (sym packet)
              (rw took at done) in
          let (packets, rest) =
            write_pieces_lem pieces u w (record p { packetcontext = update p.packetcontext x }) q
              (position + length x) (update-IsValid p.packetcontext x valid)
              (omega (arith, piece.size)) fits_all later in
          (
            ap (λ c. record p { packetcontext = c })
                  (sym (update-update p.packetcontext x (joined pieces) valid))
                ∙ packets,
            Piece-append v.disk.contents u.disk.contents w.disk.contents
                (p.datablock.offset + position) x (joined pieces) piece
                (subst (λ n. Piece u.disk.contents w.disk.contents n (joined pieces)) (omega arith)
                  rest),
          )
    ]
