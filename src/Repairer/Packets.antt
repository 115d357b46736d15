-- ===== src/Repairer/Packets.antt =====
-- Any sequence of packets that LoadPacketsFromFile of par2repairer.cpp hands to its Load methods,
-- and what is kept of it.
use par2tbb.Base.{
  ℕ, ◌==◌, ==_iff, ◌≡◌, refl, sym, ap, ◌∙◌, if◌then◌else◌, true, false, Bool-cases, Option-cases,
  inl, inr,
}
use par2tbb.Base.{Option, none, some, List, [], ◌∷◌, arith}
use par2tbb.Repairer.{
  SourceFile, RecoveryPacket, DescriptionPacket, VerificationPacket, MainPacket, Repairer, Packet,
}
use par2tbb.Repairer.{find, put, keep_first, load_packet, load_packets}
use par2tbb.Repairer.{
  load_description_packet, load_verification_packet, load_recovery_packet, load_main_packet,
  load_creator_packet,
}
use par2tbb.Repairer.{describe, verify, set_description_packet, set_verification_packet}
use par2tbb.Repairer.Files.{find-put, find_id}

-- The packets that the repairer has for a file id.
abbrev pub description : Option SourceFile → Option DescriptionPacket
description none = none
description (some f) = f.descriptionpacket

abbrev pub verification : Option SourceFile → Option VerificationPacket
verification none = none
verification (some f) = f.verificationpacket

abbrev pub description_of : ℕ → Repairer → Option DescriptionPacket
description_of id r = description (find id r.sourcefilemap)

abbrev pub verification_of : ℕ → Repairer → Option VerificationPacket
verification_of id r = verification (find id r.sourcefilemap)

-- The packet of a sequence for a file id, and for an exponent.
abbrev pub description_in : ℕ → Packet → Option DescriptionPacket
description_in id (Packet.recovery p) = none
description_in id (Packet.verification p) = none
description_in id (Packet.description none) = none
description_in id (Packet.description (some d)) = if d.fileid == id then some d else none
description_in id (Packet.main p) = none
description_in id (Packet.creator p) = none

abbrev pub verification_in : ℕ → Packet → Option VerificationPacket
verification_in id (Packet.recovery p) = none
verification_in id (Packet.verification none) = none
verification_in id (Packet.verification (some v)) = if v.fileid == id then some v else none
verification_in id (Packet.description p) = none
verification_in id (Packet.main p) = none
verification_in id (Packet.creator p) = none

abbrev pub main_in : Packet → Option MainPacket
main_in (Packet.recovery p) = none
main_in (Packet.verification p) = none
main_in (Packet.description p) = none
main_in (Packet.main p) = p
main_in (Packet.creator p) = none

abbrev pub recovery_in : ℕ → Packet → Option RecoveryPacket
recovery_in e (Packet.recovery none) = none
recovery_in e (Packet.recovery (some p)) = if p.exponent == e then some p else none
recovery_in e (Packet.verification p) = none
recovery_in e (Packet.description p) = none
recovery_in e (Packet.main p) = none
recovery_in e (Packet.creator p) = none

-- The first packet of a sequence that a test takes, and the last one.
module _ {ℓ} {A : Type ℓ} (choose : Packet → Option A) where
  abbrev pub first_of : List Packet → Option A
  first_of [] = none
  first_of (p ∷ ps) = keep_first (choose p) (first_of ps)

  abbrev pub last_of : List Packet → Option A
  last_of [] = none
  last_of (p ∷ ps) = keep_first (last_of ps) (choose p)

pub keep_first_assoc {ℓ} :
    {A : Type ℓ} (a b c : Option A) → keep_first (keep_first a b) c ≡ keep_first a (keep_first b c)
keep_first_assoc none b c = refl
keep_first_assoc (some a) b c = refl

pub keep_first-none {ℓ} : {A : Type ℓ} (a : Option A) → keep_first a none ≡ a
keep_first-none none = refl
keep_first-none (some a) = refl

-- What one packet does to those of a file id.
record IsKept (id : ℕ) (p : Packet) (r s : Repairer) : Type 0 where
  described : description_of id s ≡ keep_first (description_of id r) (description_in id p)
  verified : verification_of id s ≡ keep_first (verification_of id r) (verification_in id p)

same-IsKept :
    (id : ℕ) (p : Packet) (r : Repairer)
    → description_in id p ≡ none
    → verification_in id p ≡ none
    → IsKept id p r r
same-IsKept id p r no_description no_verification = record {
  described = rw no_description (sym (keep_first-none (description_of id r)));
  verified = rw no_verification (sym (keep_first-none (verification_of id r)));
}

-- An entry that is put under its key, when it holds what is to be kept there.
put-IsKept :
    (id : ℕ) (p : Packet) (r : Repairer) (g : SourceFile)
    → ((g.fileid == id) ≡ true
        → (g.descriptionpacket ≡ keep_first (description_of id r) (description_in id p))
          × (g.verificationpacket ≡ keep_first (verification_of id r) (verification_in id p)))
    → ((g.fileid == id) ≡ false → (description_in id p ≡ none) × (verification_in id p ≡ none))
    → IsKept id p r (record r { sourcefilemap = put g r.sourcefilemap })
put-IsKept id p r g at_key elsewhere = elim (Bool-cases (g.fileid == id)) [
  | inl here ↦
      let holds = at_key here in
      record {
        described = ap description (find-put id g r.sourcefilemap) ∙ rw here holds.0;
        verified = ap verification (find-put id g r.sourcefilemap) ∙ rw here holds.1;
      }
  | inr there ↦
      let nothing = elsewhere there in
      let same = same-IsKept id p r nothing.0 nothing.1 in
      record {
        described = ap description (find-put id g r.sourcefilemap) ∙ rw there same.described;
        verified = ap verification (find-put id g r.sourcefilemap) ∙ rw there same.verified;
      }
]

at_id : (a b : ℕ) → (a == b) ≡ true → a ≡ b
at_id a b h = (==_iff a b).0 h

description-IsKept :
    (id : ℕ) (d : Option DescriptionPacket) (r : Repairer)
    → IsKept id (Packet.description d) r (load_description_packet d r).1
unfolding load_description_packet describe set_description_packet
description-IsKept id none r = same-IsKept id (Packet.description none) r refl refl
description-IsKept id (some d) r = elim (Option-cases (find d.fileid r.sourcefilemap)) [
  | inl missing ↦ rw missing (
      put-IsKept id (Packet.description (some d)) r _
        (λ here.
          let gone : find id r.sourcefilemap ≡ none =
            ap (λ k. find k r.sourcefilemap) (sym (at_id d.fileid id here)) ∙ missing in
          (rw (gone, here) refl, rw gone refl))
        (λ there. (rw there refl, refl)))
  | inr (f, found) ↦
      let key = find_id d.fileid r.sourcefilemap f found in
      elim (Option-cases f.descriptionpacket) [
        | inl bare ↦
            rw (found, bare)
              (put-IsKept id (Packet.description (some d)) r _
                (λ here.
                  let same = sym (at_id f.fileid id here) ∙ key in
                  let at : find id r.sourcefilemap ≡ some f =
                    ap (λ k. find k r.sourcefilemap) same ∙ found in
                  let hit : (d.fileid == id) ≡ true = ground arith in
                  (rw (at, bare, hit) refl, rw at (sym (keep_first-none f.verificationpacket))))
                (λ there.
                  let miss : (d.fileid == id) ≡ false = ground arith in (rw miss refl, refl)))
        | inr (old, has) ↦
            rw (found, has)
              (elim (Bool-cases (d.fileid == id)) [
                | inl here ↦
                    let at : find id r.sourcefilemap ≡ some f =
                      ap (λ k. find k r.sourcefilemap) (sym (at_id d.fileid id here)) ∙ found in
                    record {
                      described = rw (at, has) refl;
                      verified = sym (keep_first-none (verification_of id r));
                    }
                | inr there ↦ same-IsKept id (Packet.description (some d)) r (rw there refl) refl
              ])
      ]
]

verification-IsKept :
    (id : ℕ) (v : Option VerificationPacket) (r : Repairer)
    → IsKept id (Packet.verification v) r (load_verification_packet v r).1
unfolding load_verification_packet verify set_verification_packet
verification-IsKept id none r = same-IsKept id (Packet.verification none) r refl refl
verification-IsKept id (some v) r = elim (Option-cases (find v.fileid r.sourcefilemap)) [
  | inl missing ↦ rw missing (
      put-IsKept id (Packet.verification (some v)) r _
        (λ here.
          let gone : find id r.sourcefilemap ≡ none =
            ap (λ k. find k r.sourcefilemap) (sym (at_id v.fileid id here)) ∙ missing in
          (rw gone refl, rw (gone, here) refl))
        (λ there. (refl, rw there refl)))
  | inr (f, found) ↦
      let key = find_id v.fileid r.sourcefilemap f found in
      elim (Option-cases f.verificationpacket) [
        | inl bare ↦
            rw (found, bare)
              (put-IsKept id (Packet.verification (some v)) r _
                (λ here.
                  let same = sym (at_id f.fileid id here) ∙ key in
                  let at : find id r.sourcefilemap ≡ some f =
                    ap (λ k. find k r.sourcefilemap) same ∙ found in
                  let hit : (v.fileid == id) ≡ true = ground arith in
                  (rw at (sym (keep_first-none f.descriptionpacket)), rw (at, bare, hit) refl))
                (λ there.
                  let miss : (v.fileid == id) ≡ false = ground arith in (refl, rw miss refl)))
        | inr (old, has) ↦
            rw (found, has)
              (elim (Bool-cases (v.fileid == id)) [
                | inl here ↦
                    let at : find id r.sourcefilemap ≡ some f =
                      ap (λ k. find k r.sourcefilemap) (sym (at_id v.fileid id here)) ∙ found in
                    record {
                      described = sym (keep_first-none (description_of id r));
                      verified = rw (at, has) refl;
                    }
                | inr there ↦ same-IsKept id (Packet.verification (some v)) r refl (rw there refl)
              ])
      ]
]

packet-IsKept : (id : ℕ) (p : Packet) (r : Repairer) → IsKept id p r (load_packet p r).1
unfolding load_packet load_recovery_packet load_main_packet load_creator_packet
packet-IsKept id (Packet.recovery none) r = same-IsKept id (Packet.recovery none) r refl refl
packet-IsKept id (Packet.recovery (some q)) r = record {
  described = sym (keep_first-none (description_of id r));
  verified = sym (keep_first-none (verification_of id r));
}
packet-IsKept id (Packet.verification v) r = verification-IsKept id v r
packet-IsKept id (Packet.description d) r = description-IsKept id d r
packet-IsKept id (Packet.main m) r = record {
  described = sym (keep_first-none (description_of id r));
  verified = sym (keep_first-none (verification_of id r));
}
packet-IsKept id (Packet.creator c) r = record {
  described = sym (keep_first-none (description_of id r));
  verified = sym (keep_first-none (verification_of id r));
}

pub load_packets-kept :
    (id : ℕ) (ps : List Packet) (r : Repairer)
    → (description_of id (load_packets ps r)
        ≡ keep_first (description_of id r) (first_of (description_in id) ps))
      × (verification_of id (load_packets ps r)
          ≡ keep_first (verification_of id r) (first_of (verification_in id) ps))
unfolding load_packets
load_packets-kept id [] r =
    (sym (keep_first-none (description_of id r)), sym (keep_first-none (verification_of id r)))
load_packets-kept id (p ∷ ps) r =
    let one = packet-IsKept id p r in
    let rest = load_packets-kept id ps (load_packet p r).1 in
    (
      rest.0
          ∙ ap (λ o. keep_first o (first_of (description_in id) ps)) one.described
          ∙ keep_first_assoc (description_of id r) (description_in id p)
              (first_of (description_in id) ps),
      rest.1
          ∙ ap (λ o. keep_first o (first_of (verification_in id) ps)) one.verified
          ∙ keep_first_assoc (verification_of id r) (verification_in id p)
              (first_of (verification_in id) ps),
    )
