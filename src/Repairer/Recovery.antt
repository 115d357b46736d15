-- ===== src/Repairer/Recovery.antt =====
-- The recovery packets that CheckPacketConsistency of par2repairer.cpp keeps.
use par2tbb.Base.{
  ℕ, ◌==◌, ==_iff, ◌≡◌, ◌<◌, refl, sym, ap, ◌∙◌, if◌then◌else◌, false, Bool-cases, inl, inr,
}
use par2tbb.Base.{Option, none, some, List, [], ◌∷◌, arith}
use par2tbb.Repairer.{RecoveryPacket, MainPacket, Repairer, Packet}
use par2tbb.Repairer.{find_recovery, put_recovery, no_packets, load_packet, load_packets}
use par2tbb.Repairer.{
  load_recovery_packet, load_main_packet, load_creator_packet, keep_sized, check_against,
  check_packet_consistency,
}
use par2tbb.Repairer.Files.{find_recovery-put}
use par2tbb.Repairer.Packets.{first_of, last_of, main_in, recovery_in}
use par2tbb.Repairer.Loaded.{describe-rest, verify-rest, load_packets_lem}

-- Every exponent of the map has one packet.
abbrev pub AreSeparate : List RecoveryPacket → Type 0
AreSeparate [] = 0 < 1
AreSeparate (p ∷ ps) = (find_recovery p.exponent ps ≡ none) × AreSeparate ps

put-AreSeparate :
    (q : RecoveryPacket) (ps : List RecoveryPacket)
    → AreSeparate ps
    → AreSeparate (put_recovery q ps)
put-AreSeparate q [] separate = (refl, separate)
put-AreSeparate q (p ∷ ps) (alone, separate) = elim (Bool-cases (p.exponent == q.exponent)) [
  | inl same ↦ rw same (rw (← (==_iff p.exponent q.exponent).0 same) alone, separate)
  | inr other ↦
      let away : (q.exponent == p.exponent) ≡ false = ground arith in
      rw other (find_recovery-put p.exponent q ps ∙ rw away alone, put-AreSeparate q ps separate)
]

load_packet-AreSeparate :
    (p : Packet) (r : Repairer)
    → AreSeparate r.recoverypacketmap
    → AreSeparate (load_packet p r).1.recoverypacketmap
unfolding load_packet load_recovery_packet load_main_packet load_creator_packet
load_packet-AreSeparate (Packet.recovery none) r separate = separate
load_packet-AreSeparate (Packet.recovery (some q)) r separate =
    put-AreSeparate q r.recoverypacketmap separate
load_packet-AreSeparate (Packet.verification v) r separate = rw (verify-rest v r).1 separate
load_packet-AreSeparate (Packet.description d) r separate = rw (describe-rest d r).1 separate
load_packet-AreSeparate (Packet.main m) r separate = separate
load_packet-AreSeparate (Packet.creator c) r separate = separate

load_packets-AreSeparate :
    (ps : List Packet) (r : Repairer)
    → AreSeparate r.recoverypacketmap
    → AreSeparate (load_packets ps r).recoverypacketmap
unfolding load_packets
load_packets-AreSeparate [] r separate = separate
load_packets-AreSeparate (p ∷ ps) r separate =
    load_packets-AreSeparate ps (load_packet p r).1 (load_packet-AreSeparate p r separate)

-- A packet of the block size.
abbrev pub sized : ℕ → Option RecoveryPacket → Option RecoveryPacket
sized blocksize none = none
sized blocksize (some p) = if p.blocksize == blocksize then some p else none

find-keep_sized-none :
    (blocksize e : ℕ) (ps : List RecoveryPacket)
    → find_recovery e ps ≡ none
    → find_recovery e (keep_sized blocksize ps) ≡ none
find-keep_sized-none blocksize e [] missing = refl
find-keep_sized-none blocksize e (p ∷ ps) missing = elim (Bool-cases (p.exponent == e)) [
  | inl here ↦ absurd (cc (rw here at missing))
  | inr there ↦
      let rest = find-keep_sized-none blocksize e ps (rw there at missing) in
      elim (Bool-cases (p.blocksize == blocksize)) [
        | inl fits ↦ rw (fits, there) rest
        | inr differs ↦ rw differs rest
      ]
]

find-keep_sized :
    (blocksize e : ℕ) (ps : List RecoveryPacket)
    → AreSeparate ps
    → find_recovery e (keep_sized blocksize ps) ≡ sized blocksize (find_recovery e ps)
find-keep_sized blocksize e [] separate = refl
find-keep_sized blocksize e (p ∷ ps) (alone, separate) =
    let rest = find-keep_sized blocksize e ps separate in
    elim (Bool-cases (p.exponent == e)) [
      | inl here ↦ elim (Bool-cases (p.blocksize == blocksize)) [
        | inl fits ↦ rw (here, fits, here) refl
        | inr differs ↦
            let gone : find_recovery e ps ≡ none =
              ap (λ k. find_recovery k ps) (sym ((==_iff p.exponent e).0 here)) ∙ alone in
            rw (here, differs) (find-keep_sized-none blocksize e ps gone)
      ]
      | inr there ↦ elim (Bool-cases (p.blocksize == blocksize)) [
        | inl fits ↦ rw (there, fits, there) rest
        | inr differs ↦ rw (there, differs) rest
      ]
    ]

-- After any sequence of packets with a main packet, CheckPacketConsistency keeps for an
-- exponent the last recovery packet when it has the block size of the first main packet, and
-- otherwise none.
pub check_packet_consistency_recovery :
    (m : MainPacket) (e : ℕ) (ps : List Packet)
    → first_of main_in ps ≡ some m
    → find_recovery e (check_packet_consistency (load_packets ps no_packets)).1.recoverypacketmap
      ≡ sized m.blocksize (last_of (recovery_in e) ps)
unfolding check_packet_consistency check_against
check_packet_consistency_recovery m e ps first =
    let r = load_packets ps no_packets in
    let (has_description, has_verification, has_main, has_recovery) = load_packets_lem 0 e ps in
    rw (has_main ∙ first) (
      find-keep_sized m.blocksize e r.recoverypacketmap
        (load_packets-AreSeparate ps no_packets (omega arith))
      ∙ ap (sized m.blocksize) has_recovery)
