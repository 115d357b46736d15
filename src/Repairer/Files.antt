-- ===== src/Repairer/Files.antt =====
-- The maps of par2repairer.h by their keys.
use mathlib.Core.Option.{some-injective}
use par2tbb.Base.{
  ℕ, ◌==◌, ==_iff, ◌≡◌, ◌<◌, refl, sym, ap, ◌∙◌, if◌then◌else◌, true, false, Bool-cases, inl, inr,
}
use par2tbb.Base.{none, some, List, [], ◌∷◌, arith}
use par2tbb.Repairer.{SourceFile, RecoveryPacket, find, put, find_recovery, put_recovery}

abbrev pub AreDistinct : List SourceFile → Type 0
AreDistinct [] = 0 < 1
AreDistinct (f ∷ fs) = (find f.fileid fs ≡ none) × AreDistinct fs

eq_iff : (a b : ℕ) → (a == b) ≡ true → a ≡ b
eq_iff a b h = (==_iff a b).0 h

pub find-put :
    (id : ℕ) (g : SourceFile) (fs : List SourceFile)
    → find id (put g fs) ≡ (if g.fileid == id then some g else find id fs)
find-put id g [] = refl
find-put id g (f ∷ fs) = elim (Bool-cases (f.fileid == g.fileid)) [
  | inl same ↦
      rw (same, eq_iff f.fileid g.fileid same)
        (elim (Bool-cases (g.fileid == id)) [ inl here ↦ rw here refl | inr there ↦ rw there refl ])
  | inr other ↦ elim (Bool-cases (f.fileid == id)) [
    | inl here ↦ let away : (g.fileid == id) ≡ false = ground arith in rw (other, here, away) refl
    | inr there ↦ rw (other, there) (find-put id g fs)
  ]
]

pub find_id : (id : ℕ) (fs : List SourceFile) (f : SourceFile) → find id fs ≡ some f → f.fileid ≡ id
find_id id [] f found = absurd (cc)
find_id id (g ∷ fs) f found = elim (Bool-cases (g.fileid == id)) [
  | inl here ↦
      ap (λ (h : SourceFile). h.fileid) (sym (some-injective _ f (rw here at found)))
      ∙ eq_iff g.fileid id here
  | inr there ↦ find_id id fs f (rw there at found)
]

pub put-AreDistinct :
    (g : SourceFile) (fs : List SourceFile) → AreDistinct fs → AreDistinct (put g fs)
put-AreDistinct g [] d = (refl, d)
put-AreDistinct g (f ∷ fs) (alone, d) = elim (Bool-cases (f.fileid == g.fileid)) [
  | inl same ↦ rw same (rw (← eq_iff f.fileid g.fileid same) alone, d)
  | inr other ↦
      let away : (g.fileid == f.fileid) ≡ false = ground arith in
      rw other (find-put f.fileid g fs ∙ rw away alone, put-AreDistinct g fs d)
]

pub find_recovery-put :
    (e : ℕ) (q : RecoveryPacket) (ps : List RecoveryPacket)
    → find_recovery e (put_recovery q ps) ≡ (if q.exponent == e then some q else find_recovery e ps)
find_recovery-put e q [] = refl
find_recovery-put e q (p ∷ ps) = elim (Bool-cases (p.exponent == q.exponent)) [
  | inl same ↦
      rw (same, eq_iff p.exponent q.exponent same)
        (elim (Bool-cases (q.exponent == e)) [
          | inl here ↦ rw here refl
          | inr there ↦ rw there refl
        ])
  | inr other ↦ elim (Bool-cases (p.exponent == e)) [
    | inl here ↦ let away : (q.exponent == e) ≡ false = ground arith in rw (other, here, away) refl
    | inr there ↦ rw (other, there) (find_recovery-put e q ps)
  ]
]
