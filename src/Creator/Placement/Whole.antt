-- ===== src/Creator/Placement/Whole.antt =====
-- The loops over a recovery file of par2creator.cpp, from its first packet to its last.
use mathlib.Core.List.{append-nil}
use native.Mathlib.Nat.{mod-eq_of_lt, mul_comm}
use par2tbb.Base.{ℕ, suc, ◌+◌, ◌-◌, ◌*◌, ◌%◌, ◌^◌, ◌<◌, ◌≤◌, ◌≡◌, refl, sym, ap, ap₂, ◌∙◌}
use par2tbb.Base.{
  arith, ◌==◌, ==_iff, if◌then◌else◌, Bool-cases, inl, inr, List, [], ◌∷◌, ◌++◌, length,
}
use par2tbb.Creator.{u32, u64}
use par2tbb.Creator.Placement.Sizes.{
  critical_size, AreSized, place_packets-AreSized, total_size-place_packets,
}
use par2tbb.Creator.Allocation.{FileAllocation, halvings}
use par2tbb.Creator.Placement.{Content, Placing, place, add_recovery, add_all, place_packets}
use par2tbb.Creator.Placement.Copies.{
  IsTiled, IsLaid, laid-IsTiled, length-numbers, place-Extends, turns, numbers, critical_in,
  exponent_in, picked, criticals, exponents,
}
use par2tbb.Creator.Placement.Paid.{IsPaid, same-IsPaid, add_recovery-IsPaid}

-- All that is owed is paid when it is a multiple of `count`.
all_paid : (t count p total : ℕ) → p < count → t * count + p ≡ total * count → t ≡ total
all_paid t count p total less same = grind arith

-- One set of critical packets.
add_all-IsPlacing :
    (lengths : List ℕ) (n from done at : ℕ) (s : Placing)
    → at + length lengths ≤ n
    → IsLaid 0 s.placed s.offset
    → picked critical_in s.placed ≡ turns n at
    → picked exponent_in s.placed ≡ numbers from done
    → let r = add_all at lengths s in
      IsLaid 0 r.placed r.offset
      × (picked critical_in r.placed ≡ turns n (at + length lengths))
      × (picked exponent_in r.placed ≡ numbers from done)
unfolding add_all turns
add_all-IsPlacing [] n from done at s room tiled first second =
    (tiled, first ∙ ap (turns n) {x = at} {y = at + 0} (omega arith), second)
add_all-IsPlacing (x ∷ lengths) n from done at s room tiled first second =
    let t = place x (Content.critical at) s in
    let e = place-Extends x (Content.critical at) s tiled in
    let same : at % n ≡ at = mod-eq_of_lt (omega arith) in
    let (a, b, c) =
      add_all-IsPlacing lengths n from done (at + 1) t (omega arith) e.tiled
        (e.criticals
          ∙ ap₂ (λ y z. y ++ (z ∷ [])) first (sym same)
          ∙ ap (turns n) {x = suc at} {y = at + 1} (omega arith))
        (e.exponents ∙ append-nil (picked exponent_in s.placed) ∙ second) in
    (
      a,
      b ∙ ap (turns n) {x = at + 1 + length lengths} {y = at + suc (length lengths)} (omega arith),
      c,
    )

-- How often a file holds each critical packet: as often as the count of its blocks can be halved.
unfoldable pub copies_of : FileAllocation → ℕ
copies_of file = if file.count == 0 then 1 else halvings file.count 0 file.count

-- A result with the creator packet at its end.
with_creator :
    (size : ℕ) (s : Placing) (first second : List ℕ)
    → IsLaid 0 s.placed s.offset
    → picked critical_in s.placed ≡ first
    → picked exponent_in s.placed ≡ second
    → let r = place size Content.creator s in
      IsLaid 0 r.placed r.offset × (criticals r.placed ≡ first) × (exponents r.placed ≡ second)
with_creator size s first second tiled a b =
    let e = place-Extends size Content.creator s tiled in
    (
      e.tiled,
      e.criticals ∙ append-nil (picked critical_in s.placed) ∙ a,
      e.exponents ∙ append-nil (picked exponent_in s.placed) ∙ b,
    )

first_turn : (n : ℕ) → 0 < n → (if n == n then 0 else n) ≡ 0 % n
first_turn n positive = ground (arith, mod-eq_of_lt positive)

-- The offsets as 64 bits give them, and what is in the file.
place_packets-IsLaid :
    (lengths : List ℕ) (creator_length blocksize : ℕ) (file : FileAllocation)
    → 0 < length lengths
    → copies_of file * length lengths + file.count < 2 ^ 32
    → file.exponent + file.count < 2 ^ 32
    → let r = place_packets lengths creator_length blocksize file in
      IsLaid 0 r.placed r.offset
      × (criticals r.placed ≡ turns (length lengths) (copies_of file * length lengths))
      × (exponents r.placed ≡ numbers file.exponent file.count)
unfolding place_packets copies_of turns numbers
place_packets-IsLaid lengths creator_length blocksize file positive small below =
    let n = length lengths in
    let s : Placing = record { offset = 0; packetcount = 0; next = n; placed = [] } in
    elim (Bool-cases (file.count == 0)) [
      | inl none ↦
          let (a, b, c) =
            add_all-IsPlacing lengths n file.exponent 0 0 s (omega arith) refl refl refl in
          let zero_blocks : file.count ≡ 0 = (==_iff file.count 0).0 none in
          rw none (
            with_creator creator_length (add_all 0 lengths s) _ _ a
              (b ∙ ap (turns n) {x = 0 + n} {y = 1 * n} (omega arith))
              (c ∙ ap (numbers file.exponent) (sym zero_blocks)))
      | inr blocks ↦
          let some_blocks : 0 < file.count = ground (arith, blocks) in
          let copies = halvings file.count 0 file.count in
          let start : IsPaid n file.exponent 0 file.count 0 s = record {
            t = 0;
            placing = record {
              tiled = refl;
              turn = first_turn n positive;
              criticals = refl;
              exponents = refl;
            };
            less = some_blocks;
            paid = omega arith;
          } in
          let after = add_recovery file.count lengths blocksize file.count copies file.exponent s in
          let v : IsPaid n file.exponent file.count file.count (copies * n * file.count) after =
            same-IsPaid n file.exponent file.count (omega arith)
              (omega (arith, mul_comm file.count (copies * n)))
              (ap (λ e. add_recovery file.count lengths blocksize file.count copies e s)
                {x = file.exponent + 0} (omega arith))
              (add_recovery-IsPaid file.count lengths blocksize file.count copies file.exponent 0 0
                s positive some_blocks (rw blocks at small) start) in
          let total = all_paid v.t file.count after.packetcount (copies * n) v.less v.paid in
          let rounds : u32 (file.exponent + file.count) - file.exponent ≡ file.count =
            omega arith in
          rw (blocks, rounds)
            (with_creator creator_length after (turns n (copies * n))
              (numbers file.exponent file.count) v.placing.tiled
              (v.placing.criticals ∙ ap (turns n) total) v.placing.exponents)
    ]

-- For at least one critical packet, copies and blocks that fit in 32 bits, exponents whose
-- limit fits in 32 bits, and critical, recovery and creator packets that take less than 2^64
-- bytes together, the packets of a recovery file stand one behind the other from its start to
-- its end without a gap, each with the length of its kind, the recovery packets have the
-- exponents of the file in their order, and the critical packets come in turn, each as often as
-- the number of blocks can be halved before it is 0, or once in a file without blocks.
pub place_packets_lem :
    (lengths : List ℕ) (creator_length blocksize : ℕ) (file : FileAllocation)
    → 0 < length lengths
    → copies_of file * length lengths + file.count < 2 ^ 32
    → file.exponent + file.count < 2 ^ 32
    → critical_size lengths (turns (length lengths) (copies_of file * length lengths))
        + file.count * u64 (68 + blocksize)
        + creator_length
      < 2 ^ 64
    → let r = place_packets lengths creator_length blocksize file in
      IsTiled 0 r.placed r.offset
      × AreSized lengths creator_length blocksize r.placed
      × (criticals r.placed ≡ turns (length lengths) (copies_of file * length lengths))
      × (exponents r.placed ≡ numbers file.exponent file.count)
place_packets_lem lengths creator_length blocksize file positive small below fits =
    let r = place_packets lengths creator_length blocksize file in
    let (laid, turned, numbered) =
      place_packets-IsLaid lengths creator_length blocksize file positive small below in
    let count : length (exponents r.placed) ≡ file.count =
      ap length numbered ∙ length-numbers file.exponent file.count in
    let size =
      total_size-place_packets lengths creator_length blocksize file
      ∙ ap₂ (λ is n. critical_size lengths is + n * u64 (68 + blocksize) + creator_length) turned
          count in
    (
      laid-IsTiled 0 r.offset r.placed (omega (arith, size)) laid,
      place_packets-AreSized lengths creator_length blocksize file,
      turned,
      numbered,
    )
