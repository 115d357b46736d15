-- ===== src/Crc.antt =====
-- crc.h and crc.cpp: the CRC-32 of a block by table, and the tables that slide a window.
-- A table is a function of its index; `x & mask` of low digits is a remainder.
pub mod Linear
pub mod Bitwise
pub mod Window
use par2tbb.Base.{ℕ, zero, suc, ◌+◌, ◌-◌, ◌*◌, ◌/◌, ◌%◌, ◌^◌, ◌==◌, if◌then◌else◌, List, [], ◌∷◌}
use par2tbb.Base.Bits.{◌⊕◌}

abbrev pub polynomial : ℕ
polynomial = 0xEDB88320

-- `~0` as a `u32`
abbrev pub ones : ℕ
ones = 0xffff_ffff

-- One round of the inner loop of GenerateCRC32Table.
unfoldable pub table_round : ℕ → ℕ → ℕ
table_round poly crc = crc / 2 ⊕ (if crc % 2 == 1 then poly else 0)

unfoldable pub table_rounds : ℕ → ℕ → ℕ → ℕ
table_rounds poly zero crc = crc
table_rounds poly (suc n) crc = table_rounds poly n (table_round poly crc)

-- GenerateCRC32Table: the entry `i` of the table.
unfoldable pub generate_table : ℕ → ℕ → ℕ
generate_table poly i = table_rounds poly 8 i

unfoldable pub ccitt_table : ℕ → ℕ
ccitt_table i = generate_table polynomial i

unfoldable pub update_char : ℕ → ℕ → ℕ
update_char crc ch = crc / 2 ^ 8 % 2 ^ 24 ⊕ ccitt_table (crc % 2 ^ 8 ⊕ ch)

-- CRCUpdateBlock over a buffer.
unfoldable pub update_block : ℕ → List ℕ → ℕ
update_block crc [] = crc
update_block crc (ch ∷ buffer) =
    update_block (crc / 2 ^ 8 % 2 ^ 24 ⊕ ccitt_table (crc % 2 ^ 8 ⊕ ch)) buffer

-- CRCUpdateBlock over `length` zero bytes.
unfoldable pub update_zeros : ℕ → ℕ → ℕ
update_zeros crc zero = crc
update_zeros crc (suc length) =
    update_zeros (crc / 2 ^ 8 % 2 ^ 24 ⊕ ccitt_table (crc % 2 ^ 8)) length

-- The inner loop of GenerateWindowTable.
unfoldable pub window_rounds : ℕ → ℕ → ℕ
window_rounds zero crc = crc
window_rounds (suc n) crc = window_rounds n (crc / 2 ^ 8 % 2 ^ 24 ⊕ ccitt_table (crc % 2 ^ 8))

-- GenerateWindowTable: the entry `i`.
unfoldable pub window_table : ℕ → ℕ → ℕ
window_table window i = window_rounds window (ccitt_table i)

-- The loop of ComputeWindowMask.
unfoldable pub mask_rounds : ℕ → ℕ → ℕ
mask_rounds zero result = result
mask_rounds (suc window) result = mask_rounds window (update_char result 0)

unfoldable pub window_mask : ℕ → ℕ
window_mask window = mask_rounds window ones ⊕ ones

-- CRCSlideChar
unfoldable pub slide_char : ℕ → ℕ → ℕ → (ℕ → ℕ) → ℕ
slide_char crc ch_new ch_old windowtable =
    crc / 2 ^ 8 % 2 ^ 24 ⊕ ccitt_table (crc % 2 ^ 8 ⊕ ch_new) ⊕ windowtable ch_old

-- `~0 ^ CRCUpdateBlock(~0, blocksize, buffer)`
unfoldable pub block_crc : List ℕ → ℕ
block_crc buffer = ones ⊕ update_block ones buffer
