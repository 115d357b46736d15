-- ===== src/ReedSolomon/Process.antt =====
-- Process and InternalProcess of Galois16 in reedsolomon.h and reedsolomon.cpp, the loop that is
-- compiled without vector units and assembly, and the GaloisLongMultiplyTable of galois.h.
-- A buffer is the list of its 32-bit words, on a little-endian machine.
pub mod Multiply
pub mod Output
use par2tbb.Base.{ℕ, zero, suc, ◌+◌, ◌-◌, ◌*◌, ◌/◌, ◌%◌, ◌^◌, ◌==◌, if◌then◌else◌, ◌||◌}
use par2tbb.Base.{Bool, Option, none, some, List, [], ◌∷◌, ◌++◌, length, get_elem?}
use par2tbb.Base.Bits.{◌⊕◌}
use par2tbb.Galois.{Shape, count, add, mul, galois16}
use par2tbb.ReedSolomon.{Matrices}

-- `Bytes`
abbrev pub byte_count : Shape → ℕ
byte_count g = (g.bits + 7) / 8

-- The pairs `(i, j)` that the two outer loops of the constructor meet, in their order.
unfoldable pub byte_row : ℕ → ℕ → ℕ → List (ℕ × ℕ)
byte_row i j zero = []
byte_row i j (suc n) = (i, j) ∷ byte_row i (j + 1) n

unfoldable pub byte_pairs : ℕ → ℕ → ℕ → List (ℕ × ℕ)
byte_pairs total i zero = []
byte_pairs total i (suc n) = byte_row i i (total - i) ++ byte_pairs total (i + 1) n

-- The entry that a pair of bytes gets at `ii` and `jj`.
unfoldable pub table_entry : Shape → Option (ℕ × ℕ) → ℕ → ℕ → ℕ
table_entry g none ii jj = 0
table_entry g (some (i, j)) ii jj = mul g (ii * 2 ^ (8 * i) % count g) (jj * 2 ^ (8 * j) % count g)

-- `tables[n]`: the loops write one entry after another.
unfoldable pub long_table : Shape → ℕ → ℕ
long_table g n =
    let pairs = byte_pairs (byte_count g) 0 (byte_count g) in
    table_entry g (get_elem? pairs (n / 65536)) (n / 256 % 256) (n % 256)

-- L and H: the four tables of the factor's bytes combined into two.
unfoldable pub low_table : ℕ → ℕ → ℕ
low_table factor i =
    let fl = factor % 256 in
    let fh = factor / 256 % 256 in
    add (long_table galois16 ((0 * 256 + fl) * 256 + i))
      (long_table galois16 ((1 * 256 + i) * 256 + fh))

unfoldable pub high_table : ℕ → ℕ → ℕ
high_table factor i =
    let fl = factor % 256 in
    let fh = factor / 256 % 256 in
    add (long_table galois16 ((1 * 256 + fl) * 256 + i))
      (long_table galois16 ((2 * 256 + fh) * 256 + i))

-- One round of the loop: the source word `s` and the target word `d`.
unfoldable pub process_word : ℕ → ℕ → ℕ → ℕ
process_word factor s d =
    let sw = s / 2 ^ 16 in
    let upper = low_table factor (sw % 256) ⊕ high_table factor (sw / 256 % 256) in
    upper * 2 ^ 16 % 2 ^ 32 ⊕ ((d ⊕ low_table factor (s % 256)) ⊕ high_table factor (s / 256 % 256))

-- InternalProcess
unfoldable pub internal_process : ℕ → List ℕ → List ℕ → List ℕ
internal_process factor [] dst = dst
internal_process factor (s ∷ src) [] = []
internal_process factor (s ∷ src) (d ∷ dst) =
    process_word factor s d ∷ internal_process factor src dst

-- Process
unfoldable pub process : Matrices → ℕ → ℕ → List ℕ → List ℕ → List ℕ
process m inputindex outputindex src dst =
    let factor = m.left outputindex inputindex in
    if factor == 0 || length src == 0 then dst else internal_process factor src dst
