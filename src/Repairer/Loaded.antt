-- ===== src/Repairer/Loaded.antt =====
-- The main packet and the recovery packets that a sequence of packets leaves in par2repairer.cpp,
-- and the keys of its map of source files.
use par2tbb.Base.{ℕ, ◌==◌, ◌≡◌, refl, sym, ap, ◌∙◌, Bool-cases, Option-cases, inl, inr}
use par2tbb.Base.{Option, none, some, List, [], ◌∷◌}
use par2tbb.Repairer.{DescriptionPacket, VerificationPacket, Repairer, Packet}
use par2tbb.Repairer.{find, find_recovery, keep_first, no_packets, load_packet, load_packets}
use par2tbb.Repairer.{
  load_description_packet, load_verification_packet, load_recovery_packet, load_main_packet,
  load_creator_packet,
}
use par2tbb.Repairer.{describe, verify, set_description_packet, set_verification_packet}
use par2tbb.Repairer.Files.{find_recovery-put}
use par2tbb.Repairer.Packets.{
  first_of, last_of, main_in, recovery_in, description_in, verification_in, description_of,
  verification_of, load_packets-kept,
}
use par2tbb.Repairer.Packets.{keep_first_assoc, keep_first-none}

-- What every packet but the one concerned leaves.
pub describe-rest :
    (d : Option DescriptionPacket) (r : Repairer)
    → let s = (load_description_packet d r).1 in
      (s.mainpacket ≡ r.mainpacket) × (s.recoverypacketmap ≡ r.recoverypacketmap)
unfolding load_description_packet describe set_description_packet
describe-rest none r = (refl, refl)
describe-rest (some d) r = elim (Option-cases (find d.fileid r.sourcefilemap)) [
  | inl missing ↦ rw missing (refl, refl)
  | inr (f, found) ↦ elim (Option-cases f.descriptionpacket) [
    | inl bare ↦ rw (found, bare) (refl, refl)
    | inr (old, has) ↦ rw (found, has) (refl, refl)
  ]
]

pub verify-rest :
    (v : Option VerificationPacket) (r : Repairer)
    → let s = (load_verification_packet v r).1 in
      (s.mainpacket ≡ r.mainpacket) × (s.recoverypacketmap ≡ r.recoverypacketmap)
unfolding load_verification_packet verify set_verification_packet
verify-rest none r = (refl, refl)
verify-rest (some v) r = elim (Option-cases (find v.fileid r.sourcefilemap)) [
  | inl missing ↦ rw missing (refl, refl)
  | inr (f, found) ↦ elim (Option-cases f.verificationpacket) [
    | inl bare ↦ rw (found, bare) (refl, refl)
    | inr (old, has) ↦ rw (found, has) (refl, refl)
  ]
]

main-kept :
    (p : Packet) (r : Repairer)
    → (load_packet p r).1.mainpacket ≡ keep_first r.mainpacket (main_in p)
unfolding load_packet load_recovery_packet load_main_packet load_creator_packet
main-kept (Packet.recovery none) r = sym (keep_first-none r.mainpacket)
main-kept (Packet.recovery (some q)) r = sym (keep_first-none r.mainpacket)
main-kept (Packet.verification v) r = (verify-rest v r).0 ∙ sym (keep_first-none r.mainpacket)
main-kept (Packet.description d) r = (describe-rest d r).0 ∙ sym (keep_first-none r.mainpacket)
main-kept (Packet.main m) r = refl
main-kept (Packet.creator c) r = sym (keep_first-none r.mainpacket)

recovery-kept :
    (e : ℕ) (p : Packet) (r : Repairer)
    → find_recovery e (load_packet p r).1.recoverypacketmap
      ≡ keep_first (recovery_in e p) (find_recovery e r.recoverypacketmap)
unfolding load_packet load_recovery_packet load_main_packet load_creator_packet
recovery-kept e (Packet.recovery none) r = refl
recovery-kept e (Packet.recovery (some q)) r =
    find_recovery-put e q r.recoverypacketmap
    ∙ elim (Bool-cases (q.exponent == e)) [ inl here ↦ rw here refl | inr there ↦ rw there refl ]
recovery-kept e (Packet.verification v) r = ap (find_recovery e) (verify-rest v r).1
recovery-kept e (Packet.description d) r = ap (find_recovery e) (describe-rest d r).1
recovery-kept e (Packet.main m) r = refl
recovery-kept e (Packet.creator c) r = refl

load_packets-main :
    (ps : List Packet) (r : Repairer)
    → (load_packets ps r).mainpacket ≡ keep_first r.mainpacket (first_of main_in ps)
unfolding load_packets
load_packets-main [] r = sym (keep_first-none r.mainpacket)
load_packets-main (p ∷ ps) r =
    load_packets-main ps (load_packet p r).1
    ∙ ap (λ o. keep_first o (first_of main_in ps)) (main-kept p r)
    ∙ keep_first_assoc r.mainpacket (main_in p) (first_of main_in ps)

load_packets-recovery :
    (e : ℕ) (ps : List Packet) (r : Repairer)
    → find_recovery e (load_packets ps r).recoverypacketmap
      ≡ keep_first (last_of (recovery_in e) ps) (find_recovery e r.recoverypacketmap)
unfolding load_packets
load_packets-recovery e [] r = refl
load_packets-recovery e (p ∷ ps) r =
    load_packets-recovery e ps (load_packet p r).1
    ∙ ap (keep_first (last_of (recovery_in e) ps)) (recovery-kept e p r)
    ∙ sym (
        keep_first_assoc (last_of (recovery_in e) ps) (recovery_in e p)
          (find_recovery e r.recoverypacketmap))

-- After any sequence of packets, the repairer has for each file id the first description and
-- the first verification packet with that id, the first main packet, and for each exponent the
-- last recovery packet.
pub load_packets_lem :
    (id e : ℕ) (ps : List Packet)
    → let r = load_packets ps no_packets in
      (description_of id r ≡ first_of (description_in id) ps)
      × (verification_of id r ≡ first_of (verification_in id) ps)
      × (r.mainpacket ≡ first_of main_in ps)
      × (find_recovery e r.recoverypacketmap ≡ last_of (recovery_in e) ps)
load_packets_lem id e ps =
    let kept = load_packets-kept id ps no_packets in
    (
      kept.0,
      kept.1,
      load_packets-main ps no_packets,
      load_packets-recovery e ps no_packets ∙ keep_first-none (last_of (recovery_in e) ps),
    )
