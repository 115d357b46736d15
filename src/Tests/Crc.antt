-- ===== src/Tests/Crc.antt =====
-- The theorems on crc.h at concrete values.
use par2tbb.Base.{◌≡◌, arith, [], ◌∷◌}
use par2tbb.Base.Bits.{◌⊕◌}
use par2tbb.Crc.{slide_char, window_table, window_mask, block_crc, update_block}
use par2tbb.Crc.Window.{slide_window}
use par2tbb.Crc.Bitwise.{bitwise_block, update_block-eq-bitwise_block}

-- A window of three bytes.
slide_window_example :
    window_mask 3 ⊕ slide_char (window_mask 3 ⊕ block_crc (1 ∷ 2 ∷ 255 ∷ [])) 77 1 (window_table 3)
    ≡ block_crc (2 ∷ 255 ∷ 77 ∷ [])
slide_window_example = slide_window (2 ∷ 255 ∷ []) 1 77

update_block-eq-bitwise_block_example :
    update_block 4294967295 (1 ∷ 255 ∷ []) ≡ bitwise_block 4294967295 (1 ∷ 255 ∷ [])
update_block-eq-bitwise_block_example =
    update_block-eq-bitwise_block 4294967295 (1 ∷ 255 ∷ []) (omega arith)
      (omega arith, (omega arith, tt))
