-- ===== src/Creator/Placement/Paid.antt =====
-- The critical packets that each recovery packet owes in par2creator.cpp, and when they are placed.
use mathlib.Core.List.{append-nil}
use par2tbb.Base.{ℕ, zero, suc, ◌+◌, ◌-◌, ◌*◌, ◌^◌, ◌<◌, ◌≤◌, ◌≡◌, refl, ap, ◌∙◌, subst}
use par2tbb.Base.{arith, leb, leb→le, Bool-cases, inl, inr, List, [], ◌∷◌, ◌++◌, length}
use par2tbb.Creator.{u32, u64}
use par2tbb.Creator.Placement.{Content, Placing, place, next_critical, add_critical, add_recovery}
use par2tbb.Creator.Placement.Copies.{
  place-Extends, numbers, critical_in, picked, IsPlacing, next_critical-IsPlacing,
}

-- After the loop fewer than `count` are owed, and what was owed is placed.
pub record IsPaid (n from done count owed : ℕ) (s : Placing) : Type 0 where
  pub t : ℕ
  pub placing : IsPlacing n from done t s
  pub less : s.packetcount < count
  pub paid : t * count + s.packetcount ≡ owed

one_more : (t count p : ℕ) → count ≤ p → suc t * count + (p - count) ≡ t * count + p
one_more t count p h = grind arith

pub add_critical-IsPaid :
    (fuel : ℕ) (lengths : List ℕ) (count from done t : ℕ) (s : Placing)
    → 0 < length lengths
    → 0 < count
    → s.packetcount < fuel
    → IsPlacing (length lengths) from done t s
    → IsPaid
        (length lengths)
        from
        done
        count
        (t * count + s.packetcount)
        (add_critical fuel lengths count s)
unfolding add_critical
add_critical-IsPaid zero lengths count from done t s positive some_blocks enough v =
    absurd (omega arith)
add_critical-IsPaid (suc fuel) lengths count from done t s positive some_blocks enough v =
    elim (Bool-cases (leb count s.packetcount)) [
      | inl more ↦
          let next = next_critical lengths count s in
          let left : next.packetcount ≡ s.packetcount - count = unfold next_critical in refl in
          let h = leb→le count s.packetcount more in
          let rest =
            add_critical-IsPaid fuel lengths count from done (suc t) next positive some_blocks
              (omega (arith, left, h))
              (next_critical-IsPlacing lengths count from done t s positive v) in
          rw more (record {
            t = rest.t;
            placing = rest.placing;
            less = rest.less;
            paid = rest.paid ∙ ap (λ x. suc t * count + x) left ∙ one_more t count s.packetcount h;
          })
      | inr last ↦ rw last (record { t = t; placing = v; less = ground (arith, last); paid = refl })
    ]

more_owed : (owed left each : ℕ) → owed + each + left * each ≡ owed + suc left * each
more_owed owed left each = grind arith

-- A recovery packet owes `each` more.
recovery-IsPlacing :
    (n from done t size : ℕ) (s : Placing) (packetcount : ℕ)
    → IsPlacing n from done t s
    → IsPlacing n from
        (suc done)
        t
        (record (place size (Content.recovery (from + done)) s) { packetcount = packetcount })
unfolding numbers place
recovery-IsPlacing n from done t size s packetcount v =
    let e = place-Extends size (Content.recovery (from + done)) s v.tiled in
    record {
      tiled = e.tiled;
      turn = v.turn;
      criticals = e.criticals ∙ append-nil (picked critical_in s.placed) ∙ v.criticals;
      exponents = e.exponents ∙ ap (λ x. x ++ ((from + done) ∷ [])) v.exponents;
    }

pub same-IsPaid :
    (n from count : ℕ) {d e o p : ℕ} {s r : Placing}
    → d ≡ e
    → o ≡ p
    → s ≡ r
    → IsPaid n from d count o s
    → IsPaid n from e count p r
same-IsPaid n from count a b c v =
    subst (λ (x : ℕ × ℕ × Placing). IsPaid n from x.0 count x.1 x.2) (λ i. (a i, b i, c i)) v

pub add_recovery-IsPaid :
    (left : ℕ) (lengths : List ℕ) (blocksize count copies from done owed : ℕ) (s : Placing)
    → 0 < length lengths
    → 0 < count
    → copies * length lengths + count < 2 ^ 32
    → IsPaid (length lengths) from done count owed s
    → IsPaid
        (length lengths)
        from
        (done + left)
        count
        (owed + left * (copies * length lengths))
        (add_recovery left lengths blocksize count copies (from + done) s)
unfolding add_recovery
add_recovery-IsPaid zero lengths blocksize count copies from done owed s positive some_blocks small
      v =
    same-IsPaid (length lengths) from count (omega arith) (omega arith) refl v
add_recovery-IsPaid (suc left) lengths blocksize count copies from done owed s positive some_blocks
      small v =
    let each = copies * length lengths in
    let t = place (u64 (68 + blocksize)) (Content.recovery (from + done)) s in
    let u : Placing = record t { packetcount = u32 (s.packetcount + each) } in
    let next =
      add_critical-IsPaid (suc u.packetcount) lengths count from (suc done) v.t u positive
        some_blocks (omega arith)
        (recovery-IsPlacing (length lengths) from done v.t (u64 (68 + blocksize)) s
          (u32 (s.packetcount + each)) v.placing) in
    let after = add_critical (suc u.packetcount) lengths count u in
    let owes : v.t * count + u.packetcount ≡ owed + each = omega (arith, v.paid, v.less) in
    let rest =
      add_recovery-IsPaid left lengths blocksize count copies from (suc done) (owed + each) after
        positive some_blocks small (same-IsPaid (length lengths) from count refl owes refl next) in
    same-IsPaid (length lengths) from count (omega arith) (more_owed owed left each)
      (ap (λ e. add_recovery left lengths blocksize count copies e after) {x = from + suc done}
        (omega arith))
      rest
