-- ===== src/Crc/Bitwise.antt =====
-- CRCUpdateBlock of crc.h beside the definition of the CRC, a digit at a time.
use native.Mathlib.Nat.{pow-suc, zero-mul}
use par2tbb.Base.{ℕ, zero, suc, ◌*◌, ◌/◌, ◌%◌, ◌^◌, ◌<◌, ◌≡◌, refl, sym, ap, ap₂, ◌∙◌, arith}
use par2tbb.Base.{List, [], ◌∷◌, ◌==◌, if◌then◌else◌}
use par2tbb.Base.Bits.{◌⊕◌, xor-zero, xor_below, xor_assoc, xor-lt}
use par2tbb.Crc.{polynomial, table_round, table_rounds, generate_table, ccitt_table, update_char}
use par2tbb.Crc.{update_block}
use par2tbb.Crc.Linear.{table_rounds-xor, table_round_lem, update_block-cons}

-- The reference: a byte is added to the register, and its digits leave one by one.
pub bitwise_block : ℕ → List ℕ → ℕ
bitwise_block crc [] = crc
bitwise_block crc (ch ∷ buffer) = bitwise_block (table_rounds polynomial 8 (crc ⊕ ch)) buffer

abbrev pub AreBytes : List ℕ → Type 0
AreBytes [] = Unit {0}
AreBytes (x ∷ xs) = (x < 256) × AreBytes xs

table_round-double : (p a : ℕ) → table_round p (a * 2) ≡ a
table_round-double p a =
    table_round_lem p (a * 2)
    ∙ ap₂ ◌⊕◌ {x = a * 2 / 2} {y = a} {u = a * 2 % 2 * p} {v = 0} (omega arith)
        (ap (λ t. t * p) {x = a * 2 % 2} {y = 0} (omega arith) ∙ zero-mul p)
    ∙ xor-zero a

table_rounds-shifted : (p k a : ℕ) → table_rounds p k (a * 2 ^ k) ≡ a
unfolding table_rounds
table_rounds-shifted p zero a = omega arith
table_rounds-shifted p (suc k) a =
    ap (table_rounds p k) (
      ap (table_round p) {y = a * 2 ^ k * 2} (omega (arith, ap (λ (t : ℕ). a * t) (pow-suc 2 k)))
      ∙ table_round-double p (a * 2 ^ k))
    ∙ table_rounds-shifted p k a

table_round-lt : (a : ℕ) → a < 2 ^ 32 → table_round polynomial a < 2 ^ 32
unfolding table_round
table_round-lt a h =
    xor-lt 32 (a / 2) (if a % 2 == 1 then polynomial else 0) (omega arith) (ground arith)

table_rounds-lt : (n a : ℕ) → a < 2 ^ 32 → table_rounds polynomial n a < 2 ^ 32
unfolding table_rounds
table_rounds-lt zero a h = h
table_rounds-lt (suc n) a h = table_rounds-lt n _ (table_round-lt a h)

-- One lookup does the eight rounds.
pub update_char-eq-rounds :
    (crc ch : ℕ) → crc < 2 ^ 32 → update_char crc ch ≡ table_rounds polynomial 8 (crc ⊕ ch)
unfolding update_char ccitt_table generate_table
update_char-eq-rounds crc ch h = sym (
    ap (table_rounds polynomial 8) split
    ∙ table_rounds-xor polynomial 8 (crc / 2 ^ 8 * 2 ^ 8) (crc % 2 ^ 8 ⊕ ch)
    ∙ ap (λ t. t ⊕ table_rounds polynomial 8 (crc % 2 ^ 8 ⊕ ch))
        (table_rounds-shifted polynomial 8 (crc / 2 ^ 8) ∙ omega arith))
  where
    split : crc ⊕ ch ≡ crc / 2 ^ 8 * 2 ^ 8 ⊕ (crc % 2 ^ 8 ⊕ ch)
    split =
        ap (λ t. t ⊕ ch) {y = crc / 2 ^ 8 * 2 ^ 8 ⊕ crc % 2 ^ 8}
          (omega (arith, xor_below 8 (crc / 2 ^ 8) (crc % 2 ^ 8) (omega arith)))
        ∙ xor_assoc (crc / 2 ^ 8 * 2 ^ 8) (crc % 2 ^ 8) ch

-- The update by table over bytes, from a CRC of 32 bits, is the definition of the CRC, a digit
-- at a time.
pub update_block-eq-bitwise_block :
    (crc : ℕ) (buffer : List ℕ)
    → crc < 2 ^ 32
    → AreBytes buffer
    → update_block crc buffer ≡ bitwise_block crc buffer
unfolding bitwise_block
update_block-eq-bitwise_block crc [] h b = unfold update_block in refl
update_block-eq-bitwise_block crc (ch ∷ buffer) h b =
    update_block-cons crc ch buffer
    ∙ ap (λ t. update_block t buffer) (update_char-eq-rounds crc ch h)
    ∙ update_block-eq-bitwise_block (table_rounds polynomial 8 (crc ⊕ ch)) buffer
        (table_rounds-lt 8 (crc ⊕ ch) (xor-lt 32 crc ch h (omega arith))) b.1
