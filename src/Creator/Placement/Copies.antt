-- ===== src/Creator/Placement/Copies.antt =====
-- What the recovery files of par2creator.cpp hold: the packets without gaps, and the critical
-- packets in turn.
use mathlib.Core.List.{append_assoc, append-nil}
use native.Mathlib.Nat.{
  mod-add-div, mod-lt, mod-eq_of_lt, mul_comm, mul-mod_left, add-mul-mod_self_left,
}
use par2tbb.Base.{ℕ, zero, suc, ◌+◌, ◌*◌, ◌/◌, ◌%◌, ◌^◌, ◌<◌, ◌≡◌, refl, sym, ap, ap₂, ◌∙◌}
use par2tbb.Base.{
  arith, ◌==◌, ==_iff, if◌then◌else◌, Bool-cases, inl, inr, List, [], ◌∷◌, ◌++◌, length,
  length-append,
}
use par2tbb.Creator.{u64}
use par2tbb.Creator.Placement.{Content, Placed, Placing, length_at, place, next_critical}

-- The packets stand one behind the other, from an offset to another.
abbrev pub IsTiled : ℕ → List Placed → ℕ → Type 0
IsTiled from [] to = from ≡ to
IsTiled from (p ∷ ps) to = (p.offset ≡ from) × IsTiled (from + p.size) ps to

-- The numbers of the critical packets, and the exponents, in their order.
abbrev pub critical_in : Content → List ℕ
critical_in (Content.critical i) = i ∷ []
critical_in (Content.recovery e) = []
critical_in Content.creator = []

abbrev pub exponent_in : Content → List ℕ
exponent_in (Content.critical i) = []
exponent_in (Content.recovery e) = e ∷ []
exponent_in Content.creator = []

module _ (pick : Content → List ℕ) where
  abbrev pub picked : List Placed → List ℕ
  picked [] = []
  picked (p ∷ ps) = pick p.content ++ picked ps

  pub picked-append : (ps qs : List Placed) → picked (ps ++ qs) ≡ picked ps ++ picked qs
  picked-append [] qs = refl
  picked-append (p ∷ ps) qs =
      ap (λ t. pick p.content ++ t) (picked-append ps qs)
      ∙ sym (append_assoc (pick p.content) (picked ps) (picked qs))

abbrev pub criticals : List Placed → List ℕ
criticals = picked critical_in

abbrev pub exponents : List Placed → List ℕ
exponents = picked exponent_in

-- The first `t` numbers of the rounds 0, 1, ..., n - 1, 0, 1, ..., and `count` numbers from one on.
unfoldable pub turns : ℕ → ℕ → List ℕ
turns n zero = []
turns n (suc t) = turns n t ++ (t % n ∷ [])

unfoldable pub numbers : ℕ → ℕ → List ℕ
numbers from zero = []
numbers from (suc count) = numbers from count ++ ((from + count) ∷ [])

pub length-numbers : (from count : ℕ) → length (numbers from count) ≡ count
unfolding numbers
length-numbers from zero = refl
length-numbers from (suc count) =
    omega
      (arith, length-append (numbers from count) ((from + count) ∷ []), length-numbers from count)

-- The same with the offsets as 64 bits give them.
abbrev pub IsLaid : ℕ → List Placed → ℕ → Type 0
IsLaid from [] to = u64 from ≡ to
IsLaid from (p ∷ ps) to = (p.offset ≡ u64 from) × IsLaid (from + p.size) ps to

abbrev pub total_size : List Placed → ℕ
total_size [] = 0
total_size (p ∷ ps) = p.size + total_size ps

IsLaid-append :
    (from offset size : ℕ) (content : Content) (ps : List Placed)
    → IsLaid from ps offset
    → IsLaid from
        (ps ++ (record { offset = offset; size = size; content = content } ∷ []))
        (u64 (offset + size))
IsLaid-append from offset size content [] h = (omega arith, omega arith)
IsLaid-append from offset size content (p ∷ ps) (here, h) =
    (here, IsLaid-append (from + p.size) offset size content ps h)

-- Sizes that sum to less than 2^64 do not wrap.
pub laid-IsTiled :
    (from to : ℕ) (ps : List Placed)
    → from + total_size ps < 2 ^ 64
    → IsLaid from ps to
    → IsTiled from ps to
laid-IsTiled from to [] small h = omega arith
laid-IsTiled from to (p ∷ ps) small (here, h) =
    (omega arith, laid-IsTiled (from + p.size) to ps (omega arith) h)

-- One more packet at the end.
pub record Extends (s t : Placing) (content : Content) : Type 0 where
  pub tiled : IsLaid 0 t.placed t.offset
  pub criticals : picked critical_in t.placed ≡ picked critical_in s.placed ++ critical_in content
  pub exponents : picked exponent_in t.placed ≡ picked exponent_in s.placed ++ exponent_in content

pub place-Extends :
    (size : ℕ) (content : Content) (s : Placing)
    → IsLaid 0 s.placed s.offset
    → Extends s (place size content s) content
unfolding place
place-Extends size content s h =
    let new : List Placed = record { offset = s.offset; size = size; content = content } ∷ [] in
    record {
      tiled = IsLaid-append 0 s.offset size content s.placed h;
      criticals =
          picked-append critical_in s.placed new
          ∙ ap (λ t. picked critical_in s.placed ++ t) (append-nil (critical_in content));
      exponents =
          picked-append exponent_in s.placed new
          ∙ ap (λ t. picked exponent_in s.placed ++ t) (append-nil (exponent_in content));
    }

-- The next critical packet in turn.
abbrev pub turn : ℕ → Placing → ℕ
turn n s = if s.next == n then 0 else s.next

wrap : (n t at : ℕ) → 0 < n → at ≡ t % n → (if (at + 1) == n then 0 else (at + 1)) ≡ (t + 1) % n
wrap n t at positive same = elim (Bool-cases ((at + 1) == n)) [
  | inl last ↦ rw last (
      let whole : t + 1 ≡ (1 + t / n) * n =
        omega (arith, mod-add-div t n, (==_iff (at + 1) n).0 last, mul_comm n (t / n)) in
      sym (ap (λ x. x % n) whole ∙ mul-mod_left (1 + t / n) n))
  | inr inner ↦ rw inner (
      let less : at + 1 < n = ground (arith, mod-lt t positive) in
      let split : t + 1 ≡ (at + 1) + n * (t / n) = omega (arith, mod-add-div t n) in
      sym (ap (λ x. x % n) split ∙ add-mul-mod_self_left (at + 1) n (t / n) ∙ mod-eq_of_lt less))
]

-- What the loops keep: `t` critical packets of `n` are placed.
pub record IsPlacing (n from done t : ℕ) (s : Placing) : Type 0 where
  pub tiled : IsLaid 0 s.placed s.offset
  pub turn : turn n s ≡ t % n
  pub criticals : picked critical_in s.placed ≡ turns n t
  pub exponents : picked exponent_in s.placed ≡ numbers from done

pub next_critical-IsPlacing :
    (lengths : List ℕ) (count from done t : ℕ) (s : Placing)
    → 0 < length lengths
    → IsPlacing (length lengths) from done t s
    → IsPlacing (length lengths) from done (suc t) (next_critical lengths count s)
unfolding next_critical turns
next_critical-IsPlacing lengths count from done t s positive v =
    let n = length lengths in
    let at = turn n s in
    let e = place-Extends (length_at lengths at) (Content.critical at) s v.tiled in
    record {
      tiled = e.tiled;
      turn = wrap n t at positive v.turn ∙ ap (λ x. x % n) {y = suc t} (omega arith);
      criticals = e.criticals ∙ ap₂ (λ x y. x ++ (y ∷ [])) v.criticals v.turn;
      exponents = e.exponents ∙ append-nil (picked exponent_in s.placed) ∙ v.exponents;
    }
