-- ===== src/Creator/Placement.antt =====
-- The end of InitialiseOutputFiles of par2creator.cpp: which packets each recovery file holds, and
-- where. The packets of a file are one list, in the order in which the loops allocate them; the
-- program keeps its critical packets in criticalpacketentries and the others in recoverypackets.
pub mod Copies
pub mod Paid
pub mod Sizes
pub mod Whole
use par2tbb.Base.{
  ℕ, zero, suc, ◌+◌, ◌-◌, ◌*◌, leb, ◌==◌, if◌then◌else◌, List, [], ◌∷◌, ◌++◌, length,
}
use par2tbb.Creator.{u32, u64}
use par2tbb.Creator.Allocation.{FileAllocation, halvings}

-- A critical packet by its place in criticalpackets, a recovery packet by its exponent.
pub data Content : Type 0 where
  critical : ℕ → Content
  recovery : ℕ → Content
  creator : Content

pub record Placed : Type 0 where
  pub offset : ℕ
  pub size : ℕ
  pub content : Content

-- The variables of the loops; `next` is the number of critical packets at the end of their list.
pub record Placing : Type 0 where
  pub offset : ℕ
  pub packetcount : ℕ
  pub next : ℕ
  pub placed : List Placed

-- The length of a critical packet, and a packet at the end of a file.
abbrev pub length_at : List ℕ → ℕ → ℕ
length_at [] i = 0
length_at (x ∷ xs) zero = x
length_at (x ∷ xs) (suc i) = length_at xs i

unfoldable pub place : ℕ → Content → Placing → Placing
place size content s = record s {
  offset = u64 (s.offset + size);
  placed = s.placed ++ (record { offset = s.offset; size = size; content = content } ∷ []);
}

-- The loop that adds critical packets behind a recovery packet; `packetcount` falls, so it is fuel.
unfoldable pub next_critical : List ℕ → ℕ → Placing → Placing
next_critical lengths count s =
    let at = if s.next == length lengths then 0 else s.next in
    let t = place (length_at lengths at) (Content.critical at) s in
    record t { next = at + 1; packetcount = s.packetcount - count }

unfoldable pub add_critical : ℕ → List ℕ → ℕ → Placing → Placing
add_critical zero lengths count s = s
add_critical (suc fuel) lengths count s =
    let rest = add_critical fuel lengths count (next_critical lengths count s) in
    if leb count s.packetcount then rest else s

-- The loop over the recovery packets of a file for `left` exponents from one on, which are below the
-- limit of the loop and so in 32 bits.
unfoldable pub add_recovery : ℕ → List ℕ → ℕ → ℕ → ℕ → ℕ → Placing → Placing
add_recovery zero lengths blocksize count copies exponent s = s
add_recovery (suc left) lengths blocksize count copies exponent s =
    let t = place (u64 (68 + blocksize)) (Content.recovery exponent) s in
    let u = record t { packetcount = u32 (s.packetcount + copies * length lengths) } in
    add_recovery left lengths blocksize count copies (exponent + 1)
      (add_critical (suc u.packetcount) lengths count u)

-- One set of critical packets.
unfoldable pub add_all : ℕ → List ℕ → Placing → Placing
add_all at [] s = s
add_all at (x ∷ lengths) s = add_all (at + 1) lengths (place x (Content.critical at) s)

-- A recovery file; its offset at the end is the size of the file on disk.
unfoldable pub place_packets : List ℕ → ℕ → ℕ → FileAllocation → Placing
place_packets lengths creator_length blocksize file =
    let s : Placing = record { offset = 0; packetcount = 0; next = length lengths; placed = [] } in
    let copies = halvings file.count 0 file.count in
    let limit = u32 (file.exponent + file.count) in
    let t =
      if file.count == 0
      then add_all 0 lengths s
      else add_recovery (limit - file.exponent) lengths blocksize file.count copies file.exponent
          s in
    place creator_length Content.creator t
