-- ===== src/Repairer.antt =====
-- par2repairer.h and par2repairer.cpp: the packets of the recovery files, and the checks on them.
-- A packet is what its Load stores, and `none` where Load refuses it. A file id is a number. The
-- maps are lists, and a method returns its result and the object.
pub mod Files
pub mod Packets
pub mod Loaded
pub mod Consistency
pub mod Recovery
pub mod Results
pub mod ScanFile
use par2tbb.Base.{ℕ, ◌+◌, ◌-◌, ◌/◌, ◌==◌, if◌then◌else◌, Bool, true, false}
use par2tbb.Base.{Option, none, some, List, [], ◌∷◌, ◌++◌}
use par2tbb.Creator.{u32, u64}

pub record DescriptionPacket : Type 0 where
  pub fileid : ℕ
  pub filesize : ℕ

pub record VerificationPacket : Type 0 where
  pub fileid : ℕ
  pub blockcount : ℕ

pub record MainPacket : Type 0 where
  pub blocksize : ℕ
  pub recoverablefilecount : ℕ
  pub fileids : List ℕ

pub record RecoveryPacket : Type 0 where
  pub exponent : ℕ
  pub blocksize : ℕ

-- Par2RepairerSourceFile, under its key in the map.
pub record SourceFile : Type 0 where
  pub fileid : ℕ
  pub descriptionpacket : Option DescriptionPacket
  pub verificationpacket : Option VerificationPacket
  pub blockcount : ℕ

pub record Repairer : Type 0 where
  pub mainpacket : Option MainPacket
  pub creatorpacket : Option ℕ
  pub recoverypacketmap : List RecoveryPacket
  pub sourcefilemap : List SourceFile
  pub blocksize : ℕ

abbrev pub no_packets : Repairer
no_packets = record {
  mainpacket = none;
  creatorpacket = none;
  recoverypacketmap = [];
  sourcefilemap = [];
  blocksize = 0;
}

-- sourcefilemap: find, and the entry of a key replaced or made.
abbrev pub find : ℕ → List SourceFile → Option SourceFile
find id [] = none
find id (f ∷ fs) = if f.fileid == id then some f else find id fs

abbrev pub put : SourceFile → List SourceFile → List SourceFile
put g [] = g ∷ []
put g (f ∷ fs) = if f.fileid == g.fileid then g ∷ fs else f ∷ put g fs

-- recoverypacketmap, by the exponent.
abbrev pub find_recovery : ℕ → List RecoveryPacket → Option RecoveryPacket
find_recovery e [] = none
find_recovery e (p ∷ ps) = if p.exponent == e then some p else find_recovery e ps

abbrev pub put_recovery : RecoveryPacket → List RecoveryPacket → List RecoveryPacket
put_recovery q [] = q ∷ []
put_recovery q (p ∷ ps) = if p.exponent == q.exponent then q ∷ ps else p ∷ put_recovery q ps

-- LoadRecoveryPacket, in the form for concurrent processing: the packet takes its exponent.
unfoldable pub load_recovery_packet : Option RecoveryPacket → Repairer → Bool × Repairer
load_recovery_packet none r = (false, r)
load_recovery_packet (some p) r =
    (true, record r { recoverypacketmap = put_recovery p r.recoverypacketmap })

-- LoadDescriptionPacket, for the source file found and the packet it has.
unfoldable pub set_description_packet :
    DescriptionPacket → SourceFile → Option DescriptionPacket → Repairer → Bool × Repairer
set_description_packet p f (some q) r = (false, r)
set_description_packet p f none r = (
  true,
  record r { sourcefilemap = put (record f { descriptionpacket = some p }) r.sourcefilemap },
)

unfoldable pub describe : DescriptionPacket → Option SourceFile → Repairer → Bool × Repairer
describe p (some f) r = set_description_packet p f f.descriptionpacket r
describe p none r =
    let f : SourceFile = record {
      fileid = p.fileid;
      descriptionpacket = some p;
      verificationpacket = none;
      blockcount = 0;
    } in
    (true, record r { sourcefilemap = put f r.sourcefilemap })

unfoldable pub load_description_packet : Option DescriptionPacket → Repairer → Bool × Repairer
load_description_packet none r = (false, r)
load_description_packet (some p) r = describe p (find p.fileid r.sourcefilemap) r

-- LoadVerificationPacket
unfoldable pub set_verification_packet :
    VerificationPacket → SourceFile → Option VerificationPacket → Repairer → Bool × Repairer
set_verification_packet p f (some q) r = (false, r)
set_verification_packet p f none r = (
  true,
  record r { sourcefilemap = put (record f { verificationpacket = some p }) r.sourcefilemap },
)

unfoldable pub verify : VerificationPacket → Option SourceFile → Repairer → Bool × Repairer
verify p (some f) r = set_verification_packet p f f.verificationpacket r
verify p none r =
    let f : SourceFile = record {
      fileid = p.fileid;
      descriptionpacket = none;
      verificationpacket = some p;
      blockcount = 0;
    } in
    (true, record r { sourcefilemap = put f r.sourcefilemap })

unfoldable pub load_verification_packet : Option VerificationPacket → Repairer → Bool × Repairer
load_verification_packet none r = (false, r)
load_verification_packet (some p) r = verify p (find p.fileid r.sourcefilemap) r

-- LoadMainPacket and LoadCreatorPacket: the first packet is kept.
abbrev pub keep_first {ℓ} : {A : Type ℓ} → Option A → Option A → Option A
keep_first none new = new
keep_first (some old) new = some old

abbrev pub takes {ℓ} : {A : Type ℓ} → Option A → Option A → Bool
takes none (some new) = true
takes none none = false
takes (some old) new = false

unfoldable pub load_main_packet : Option MainPacket → Repairer → Bool × Repairer
load_main_packet p r = (takes r.mainpacket p, record r { mainpacket = keep_first r.mainpacket p })

unfoldable pub load_creator_packet : Option ℕ → Repairer → Bool × Repairer
load_creator_packet p r =
    (takes r.creatorpacket p, record r { creatorpacket = keep_first r.creatorpacket p })

-- The packets of the set that LoadPacketsFromFile hands on, in the order of the file.
pub data Packet : Type 0 where
  recovery : Option RecoveryPacket → Packet
  verification : Option VerificationPacket → Packet
  description : Option DescriptionPacket → Packet
  main : Option MainPacket → Packet
  creator : Option ℕ → Packet

unfoldable pub load_packet : Packet → Repairer → Bool × Repairer
load_packet (Packet.recovery p) r = load_recovery_packet p r
load_packet (Packet.verification p) r = load_verification_packet p r
load_packet (Packet.description p) r = load_description_packet p r
load_packet (Packet.main p) r = load_main_packet p r
load_packet (Packet.creator p) r = load_creator_packet p r

unfoldable pub load_packets : List Packet → Repairer → Repairer
load_packets [] r = r
load_packets (p ∷ ps) r = load_packets ps (load_packet p r).1

-- Par2RepairerSourceFile::SetBlockCount
abbrev pub block_count : ℕ → Option DescriptionPacket → ℕ
block_count blocksize none = 0
block_count blocksize (some d) = u32 (u64 (d.filesize + blocksize - 1) / blocksize)

unfoldable pub set_block_count : ℕ → SourceFile → SourceFile
set_block_count blocksize f = record f { blockcount = block_count blocksize f.descriptionpacket }

-- CheckPacketConsistency: the recovery packets of the block size, and the source files with a
-- description packet and no verification packet of another size.
abbrev pub keep_sized : ℕ → List RecoveryPacket → List RecoveryPacket
keep_sized blocksize [] = []
keep_sized blocksize (p ∷ ps) =
    let rest = keep_sized blocksize ps in if p.blocksize == blocksize then p ∷ rest else rest

abbrev pub check_verification :
    ℕ → DescriptionPacket → Option VerificationPacket → SourceFile → Option SourceFile
check_verification blocksize d none f = some f
check_verification blocksize d (some v) f =
    if u64 (d.filesize + blocksize - 1) / blocksize == v.blockcount then some f else none

abbrev pub check_description : ℕ → Option DescriptionPacket → SourceFile → Option SourceFile
check_description blocksize none f = none
check_description blocksize (some d) f =
    check_verification blocksize d f.verificationpacket
      (record f { blockcount = block_count blocksize (some d) })

abbrev pub check_source_file : ℕ → SourceFile → Option SourceFile
check_source_file blocksize f = check_description blocksize f.descriptionpacket f

abbrev pub cons_some : Option SourceFile → List SourceFile → List SourceFile
cons_some none fs = fs
cons_some (some f) fs = f ∷ fs

abbrev pub keep_consistent : ℕ → List SourceFile → List SourceFile
keep_consistent blocksize [] = []
keep_consistent blocksize (f ∷ fs) =
    cons_some (check_source_file blocksize f) (keep_consistent blocksize fs)

unfoldable pub check_against : Option MainPacket → Repairer → Bool × Repairer
check_against none r = (false, r)
check_against (some m) r = (
  true,
  record r {
    blocksize = m.blocksize;
    recoverypacketmap = keep_sized m.blocksize r.recoverypacketmap;
    sourcefilemap = keep_consistent m.blocksize r.sourcefilemap;
  },
)

unfoldable pub check_packet_consistency : Repairer → Bool × Repairer
check_packet_consistency r = check_against r.mainpacket r
