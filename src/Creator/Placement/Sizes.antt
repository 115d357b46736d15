-- ===== src/Creator/Placement/Sizes.antt =====
-- The sizes of the packets in a recovery file of par2creator.cpp.
use mathlib.Core.List.{append-nil}
use par2tbb.Base.{ℕ, zero, suc, ◌+◌, ◌-◌, ◌*◌, ◌<◌, ◌≡◌, refl, sym, ap, ap₂, ◌∙◌}
use par2tbb.Base.{
  arith, leb, ◌==◌, if◌then◌else◌, Bool-cases, inl, inr, List, [], ◌∷◌, ◌++◌, length,
}
use par2tbb.Creator.{u32, u64}
use par2tbb.Creator.Allocation.{FileAllocation, halvings}
use par2tbb.Creator.Placement.{
  Content, Placed, Placing, length_at, place, next_critical, add_critical, add_recovery, add_all,
  place_packets,
}
use par2tbb.Creator.Placement.Copies.{
  criticals, exponents, total_size, critical_in, exponent_in, picked-append,
}

-- The lengths of some critical packets, one behind the other, by their numbers.
abbrev pub critical_size : List ℕ → List ℕ → ℕ
critical_size lengths [] = 0
critical_size lengths (i ∷ is) = length_at lengths i + critical_size lengths is

module _ (lengths : List ℕ) (creator_length blocksize : ℕ) where
  -- The length of a packet: a recovery packet has 68 bytes in front of its block.
  abbrev pub size_of : Content → ℕ
  size_of (Content.critical i) = length_at lengths i
  size_of (Content.recovery e) = u64 (68 + blocksize)
  size_of Content.creator = creator_length

  abbrev pub AreSized : List Placed → Type 0
  AreSized [] = 0 < 1
  AreSized (p ∷ ps) = (p.size ≡ size_of p.content) × AreSized ps

  AreSized-append :
      (ps : List Placed) (p : Placed)
      → AreSized ps
      → p.size ≡ size_of p.content
      → AreSized (ps ++ (p ∷ []))
  AreSized-append [] p sized one = (one, omega arith)
  AreSized-append (q ∷ ps) p (here, sized) one = (here, AreSized-append ps p sized one)

  place-AreSized :
      (size : ℕ) (content : Content) (s : Placing)
      → AreSized s.placed
      → size ≡ size_of content
      → AreSized (place size content s).placed
  unfolding place
  place-AreSized size content s sized one = AreSized-append s.placed _ sized one

  next_critical-AreSized :
      (count : ℕ) (s : Placing)
      → AreSized s.placed
      → AreSized (next_critical lengths count s).placed
  unfolding next_critical
  next_critical-AreSized count s sized = place-AreSized _ (Content.critical _) s sized refl

  add_critical-AreSized :
      (fuel count : ℕ) (s : Placing)
      → AreSized s.placed
      → AreSized (add_critical fuel lengths count s).placed
  unfolding add_critical
  add_critical-AreSized zero count s sized = sized
  add_critical-AreSized (suc fuel) count s sized = elim (Bool-cases (leb count s.packetcount)) [
    | inl more ↦
        let next = next_critical lengths count s in
        rw more (add_critical-AreSized fuel count next (next_critical-AreSized count s sized))
    | inr last ↦ rw last sized
  ]

  add_recovery-AreSized :
      (left count copies exponent : ℕ) (s : Placing)
      → AreSized s.placed
      → AreSized (add_recovery left lengths blocksize count copies exponent s).placed
  unfolding add_recovery
  add_recovery-AreSized zero count copies exponent s sized = sized
  add_recovery-AreSized (suc left) count copies exponent s sized =
      let t = place (u64 (68 + blocksize)) (Content.recovery exponent) s in
      let owed = u32 (s.packetcount + copies * length lengths) in
      let u : Placing = record t { packetcount = owed } in
      add_recovery-AreSized left count copies (exponent + 1)
        (add_critical (suc owed) lengths count u)
        (add_critical-AreSized (suc owed) count u
          (place-AreSized (u64 (68 + blocksize)) (Content.recovery exponent) s sized refl))

  add_all-AreSized :
      (at : ℕ) (xs : List ℕ) (s : Placing)
      → ((i : ℕ) → length_at lengths (at + i) ≡ length_at xs i)
      → AreSized s.placed
      → AreSized (add_all at xs s).placed
  unfolding add_all
  add_all-AreSized at [] s same sized = sized
  add_all-AreSized at (x ∷ xs) s same sized =
      add_all-AreSized (at + 1) xs (place x (Content.critical at) s)
        (λ i. ap (length_at lengths) {x = at + 1 + i} {y = at + suc i} (omega arith) ∙ same (suc i))
        (place-AreSized x (Content.critical at) s sized
          (sym (ap (length_at lengths) {x = at} {y = at + 0} (omega arith) ∙ same 0)))

  one_size :
      (c : Content) (is es : List ℕ)
      → creator_length ≡ 0
      → size_of c + (critical_size lengths is + length es * u64 (68 + blocksize))
        ≡ critical_size lengths (critical_in c ++ is)
          + length (exponent_in c ++ es) * u64 (68 + blocksize)
  one_size (Content.critical i) is es none = omega arith
  one_size (Content.recovery e) is es none = grind arith
  one_size Content.creator is es none = omega arith

  -- The packets, but for the creator packet, take the bytes of the critical and recovery packets.
  sized-total_size :
      (ps : List Placed)
      → AreSized ps
      → creator_length ≡ 0
      → total_size ps
        ≡ critical_size lengths (criticals ps) + length (exponents ps) * u64 (68 + blocksize)
  sized-total_size [] sized none = omega arith
  sized-total_size (p ∷ ps) (here, sized) none =
      ap₂ (λ x y. x + y) here (sized-total_size ps sized none)
      ∙ one_size p.content (criticals ps) (exponents ps) none

-- The packets of a file in front of the creator packet.
abbrev body : List ℕ → ℕ → FileAllocation → Placing
body lengths blocksize file =
    let s : Placing = record { offset = 0; packetcount = 0; next = length lengths; placed = [] } in
    let copies = halvings file.count 0 file.count in
    let limit = u32 (file.exponent + file.count) in
    if file.count == 0
    then add_all 0 lengths s
    else add_recovery (limit - file.exponent) lengths blocksize file.count copies file.exponent s

body-AreSized :
    (lengths : List ℕ) (creator_length blocksize : ℕ) (file : FileAllocation)
    → AreSized lengths creator_length blocksize (body lengths blocksize file).placed
body-AreSized lengths creator_length blocksize file =
    let s : Placing = record { offset = 0; packetcount = 0; next = length lengths; placed = [] } in
    elim (Bool-cases (file.count == 0)) [
      | inl none ↦ rw none (
          add_all-AreSized lengths creator_length blocksize 0 lengths s
            (λ i. ap (length_at lengths) {x = 0 + i} {y = i} (omega arith)) (omega arith))
      | inr blocks ↦ rw blocks (
          add_recovery-AreSized lengths creator_length blocksize _ file.count _ file.exponent s
            (omega arith))
    ]

-- Each packet of a file has its own length.
pub place_packets-AreSized :
    (lengths : List ℕ) (creator_length blocksize : ℕ) (file : FileAllocation)
    → AreSized lengths creator_length blocksize
        (place_packets lengths creator_length blocksize file).placed
unfolding place_packets
place_packets-AreSized lengths creator_length blocksize file =
    place-AreSized lengths creator_length blocksize creator_length Content.creator
      (body lengths blocksize file) (body-AreSized lengths creator_length blocksize file) refl

total_size-append :
    (ps : List Placed) (p : Placed) → total_size (ps ++ (p ∷ [])) ≡ total_size ps + p.size
total_size-append [] p = omega arith
total_size-append (q ∷ ps) p = omega (arith, total_size-append ps p)

-- A whole file takes the bytes of its critical packets, its recovery packets and the creator packet.
pub total_size-place_packets :
    (lengths : List ℕ) (creator_length blocksize : ℕ) (file : FileAllocation)
    → let ps = (place_packets lengths creator_length blocksize file).placed in
      total_size ps
      ≡ critical_size lengths (criticals ps)
        + length (exponents ps) * u64 (68 + blocksize)
        + creator_length
unfolding place_packets place
total_size-place_packets lengths creator_length blocksize file =
    let ps = (body lengths blocksize file).placed in
    let last : Placed = record {
      offset = (body lengths blocksize file).offset;
      size = creator_length;
      content = Content.creator;
    } in
    total_size-append ps last
    ∙ ap (λ n. n + creator_length)
        (sized-total_size lengths 0 blocksize ps (body-AreSized lengths 0 blocksize file) refl
          ∙ ap₂ (λ is es. critical_size lengths is + length es * u64 (68 + blocksize))
              (sym (picked-append critical_in ps (last ∷ []) ∙ append-nil (criticals ps)))
              (sym (picked-append exponent_in ps (last ∷ []) ∙ append-nil (exponents ps))))
