-- ===== src/Crc/Linear.antt =====
-- CRCUpdateChar and CRCUpdateBlock of crc.h under exclusive or and on split buffers.
use par2tbb.Base.{ℕ, zero, suc, ◌*◌, ◌/◌, ◌%◌, ◌^◌, ◌≡◌, refl, sym, ap, ap₂, ◌∙◌, arith}
use par2tbb.Base.{List, [], ◌∷◌, ◌++◌, length}
use par2tbb.Base.Bits.{◌⊕◌, xor-half, xor-odd, xor-shift, xor-mod, xor_swap_middle, bit_mul-xor}
use par2tbb.Base.Bits.{zero-xor, xor-zero, xor_bits}
use par2tbb.Crc.{table_round, table_rounds, generate_table, ccitt_table, update_char}
use par2tbb.Crc.{update_block, update_zeros, polynomial}

pub table_round_lem : (p a : ℕ) → table_round p a ≡ a / 2 ⊕ a % 2 * p
unfolding table_round
table_round_lem p a = ap (λ t. a / 2 ⊕ t) (ground arith)

pub table_round-xor : (p a b : ℕ) → table_round p (a ⊕ b) ≡ table_round p a ⊕ table_round p b
table_round-xor p a b =
    rw
      (
        table_round_lem p (a ⊕ b),
        table_round_lem p a,
        table_round_lem p b,
        xor-half a b,
        xor-odd a b,
        ← xor_bits (a % 2) (b % 2) (omega arith) (omega arith),
        bit_mul-xor p (a % 2) (b % 2) (omega arith) (omega arith),
      )
      (xor_swap_middle (a / 2) (b / 2) (a % 2 * p) (b % 2 * p))

pub table_rounds-xor :
    (p n a b : ℕ) → table_rounds p n (a ⊕ b) ≡ table_rounds p n a ⊕ table_rounds p n b
unfolding table_rounds
table_rounds-xor p zero a b = refl
table_rounds-xor p (suc n) a b =
    ap (table_rounds p n) (table_round-xor p a b)
    ∙ table_rounds-xor p n (table_round p a) (table_round p b)

pub ccitt_table-xor : (a b : ℕ) → ccitt_table (a ⊕ b) ≡ ccitt_table a ⊕ ccitt_table b
unfolding ccitt_table generate_table
ccitt_table-xor a b = table_rounds-xor polynomial 8 a b

pub update_char-xor :
    (c d x y : ℕ) → update_char (c ⊕ d) (x ⊕ y) ≡ update_char c x ⊕ update_char d y
unfolding update_char
update_char-xor c d x y =
    rw
      (
        xor-shift 8 c d,
        xor-mod 24 (c / 2 ^ 8) (d / 2 ^ 8),
        xor-mod 8 c d,
        xor_swap_middle (c % 2 ^ 8) (d % 2 ^ 8) x y,
        ccitt_table-xor (c % 2 ^ 8 ⊕ x) (d % 2 ^ 8 ⊕ y),
      )
      (xor_swap_middle _ _ _ _)

pub update_block-cons :
    (c x : ℕ) (xs : List ℕ) → update_block c (x ∷ xs) ≡ update_block (update_char c x) xs
unfolding update_block update_char
update_block-cons c x xs = refl

pub update_block-append :
    (c : ℕ) (xs ys : List ℕ) → update_block c (xs ++ ys) ≡ update_block (update_block c xs) ys
unfolding update_block
update_block-append c [] ys = refl
update_block-append c (x ∷ xs) ys =
    update_block-append (c / 2 ^ 8 % 2 ^ 24 ⊕ ccitt_table (c % 2 ^ 8 ⊕ x)) xs ys

pub update_zeros-suc : (c n : ℕ) → update_zeros c (suc n) ≡ update_zeros (update_char c 0) n
unfolding update_zeros update_char
update_zeros-suc c n = rw (xor-zero (c % 2 ^ 8))

-- A start value contributes what it becomes over as many zero bytes.
pub update_block-xor :
    (c d : ℕ) (xs : List ℕ)
    → update_block (c ⊕ d) xs ≡ update_zeros c (length xs) ⊕ update_block d xs
update_block-xor c d [] = unfold update_block update_zeros in refl
update_block-xor c d (x ∷ xs) =
    update_block-cons (c ⊕ d) x xs
    ∙ ap (λ t. update_block t xs)
        (ap (update_char (c ⊕ d)) (sym (zero-xor x)) ∙ update_char-xor c d 0 x)
    ∙ update_block-xor (update_char c 0) (update_char d x) xs
    ∙ sym (ap₂ ◌⊕◌ (update_zeros-suc c (length xs)) (update_block-cons d x xs))

pub update_block_start :
    (c : ℕ) (xs : List ℕ) → update_block c xs ≡ update_zeros c (length xs) ⊕ update_block 0 xs
update_block_start c xs = ap (λ t. update_block t xs) (sym (xor-zero c)) ∙ update_block-xor c 0 xs
