-- ===== src/Crc/Window.antt =====
-- GenerateWindowTable, ComputeWindowMask and CRCSlideChar of crc.h and crc.cpp.
use par2tbb.Base.{ℕ, zero, suc, ◌/◌, ◌%◌, ◌^◌, ◌≡◌, refl, sym, ap, ◌∙◌, arith}
use par2tbb.Base.{List, [], ◌∷◌, ◌++◌, length, length-append}
use par2tbb.Base.Bits.{◌⊕◌, zero-xor, xor_comm, xor_cancel, xor_cancel_pairs}
use par2tbb.Crc.{ones, ccitt_table, update_char, update_block, update_zeros, window_rounds}
use par2tbb.Crc.{window_table, mask_rounds, window_mask, slide_char, block_crc}
use par2tbb.Crc.Linear.{
  update_zeros-suc, update_block-cons, update_block-append, update_block_start,
}

window_rounds_lem : (n c : ℕ) → window_rounds n c ≡ update_zeros c n
unfolding window_rounds update_zeros
window_rounds_lem zero c = refl
window_rounds_lem (suc n) c = window_rounds_lem n (c / 2 ^ 8 % 2 ^ 24 ⊕ ccitt_table (c % 2 ^ 8))

mask_rounds_lem : (n c : ℕ) → mask_rounds n c ≡ update_zeros c n
unfolding mask_rounds
mask_rounds_lem zero c = unfold update_zeros in refl
mask_rounds_lem (suc n) c = mask_rounds_lem n (update_char c 0) ∙ sym (update_zeros-suc c n)

ccitt_table_lem : (x : ℕ) → update_char 0 x ≡ ccitt_table x
unfolding update_char
ccitt_table_lem x = rw (zero-xor x, zero-xor (ccitt_table x))

-- The oldest byte of a window contributes its entry of the window table.
oldest :
    (x : ℕ) (xs : List ℕ) → update_block 0 (x ∷ xs) ≡ window_table (length xs) x ⊕ update_block 0 xs
unfolding window_table
oldest x xs =
    update_block-cons 0 x xs
    ∙ update_block_start (update_char 0 x) xs
    ∙ ap (λ t. t ⊕ update_block 0 xs)
        (ap (λ t. update_zeros t (length xs)) (ccitt_table_lem x)
          ∙ sym (window_rounds_lem (length xs) (ccitt_table x)))

-- The mask takes the initial and the final complement out of a block's CRC.
mask-xor-block_crc : (xs : List ℕ) → window_mask (length xs) ⊕ block_crc xs ≡ update_block 0 xs
unfolding window_mask block_crc
mask-xor-block_crc xs =
    rw (mask_rounds_lem (length xs) ones, update_block_start ones xs)
      (xor_cancel_pairs (update_zeros ones (length xs)) ones (update_block 0 xs))

-- And puts them back.
mask-xor-update_block : (xs : List ℕ) → window_mask (length xs) ⊕ update_block 0 xs ≡ block_crc xs
mask-xor-update_block xs =
    ap (λ t. window_mask (length xs) ⊕ t) (sym (mask-xor-block_crc xs))
    ∙ xor_cancel (window_mask (length xs)) (block_crc xs)

-- The byte that comes in makes up for the one that leaves.
length-snoc : (xs : List ℕ) (x : ℕ) → length (xs ++ x ∷ []) ≡ suc (length xs)
length-snoc xs x = omega (arith, length-append xs (x ∷ []))

update_char-block :
    (xs : List ℕ) (x new : ℕ)
    → update_char (update_block 0 (x ∷ xs)) new
      ≡ window_table (suc (length xs)) x ⊕ update_block 0 (xs ++ new ∷ [])
update_char-block xs x new =
    sym (
      update_block-append 0 (x ∷ xs) (new ∷ [])
      ∙ update_block-cons (update_block 0 (x ∷ xs)) new []
      ∙ unfold update_block in refl)
    ∙ oldest x (xs ++ new ∷ [])
    ∙ ap (λ t. window_table t x ⊕ update_block 0 (xs ++ new ∷ [])) (length-snoc xs new)

slide_char_lem :
    (xs : List ℕ) (x new : ℕ)
    → slide_char (update_block 0 (x ∷ xs)) new x (window_table (suc (length xs)))
      ≡ update_block 0 (xs ++ new ∷ [])
unfolding slide_char update_char
slide_char_lem xs x new =
    let entry = window_table (suc (length xs)) x in
    let rest = update_block 0 (xs ++ new ∷ []) in
    ap (λ t. t ⊕ entry) (update_char-block xs x new)
    ∙ xor_comm (entry ⊕ rest) entry
    ∙ xor_cancel entry rest

-- With the window table and mask for a window of as many bytes, the step of CRCSlideChar takes
-- the CRC of a block to the CRC of the block without its first byte and with a new last one.
pub slide_window :
    (xs : List ℕ) (old new : ℕ)
    → let window = suc (length xs) in
      window_mask window
        ⊕ slide_char (window_mask window ⊕ block_crc (old ∷ xs)) new old (window_table window)
      ≡ block_crc (xs ++ new ∷ [])
slide_window xs old new =
    let mask = window_mask (suc (length xs)) in
    ap (λ t. mask ⊕ slide_char t new old (window_table (suc (length xs))))
      (mask-xor-block_crc (old ∷ xs))
    ∙ ap (λ t. mask ⊕ t) (slide_char_lem xs old new)
    ∙ ap (λ t. window_mask t ⊕ update_block 0 (xs ++ new ∷ [])) (sym (length-snoc xs new))
    ∙ mask-xor-update_block (xs ++ new ∷ [])
