-- ===== src/ReedSolomon/Process/Multiply.antt =====
-- The look-up tables and one round of the loop of InternalProcess in reedsolomon.cpp.
use native.Mathlib.Nat.{mod-eq_of_lt}
use par2tbb.Base.{ℕ, ◌+◌, ◌*◌, ◌/◌, ◌%◌, ◌^◌, ◌<◌, ◌≡◌, sym, ap, ap₂, ◌∙◌, arith, get_elem?}
use par2tbb.Base.Bits.{
  ◌⊕◌, xor_below, xor-shift, xor-mod, xor_assoc, xor_comm, xor_swap_middle, zero-xor, xor-zero,
}
use par2tbb.Galois.{galois16, add, mul}
use par2tbb.Galois.Field.{mul_comm, mul-add, mul-lt}
use par2tbb.Galois.Instances.{galois16-IsPrimitive}
use par2tbb.ReedSolomon.Process.{
  byte_row, byte_pairs, table_entry, long_table, low_table, high_table,
}
use par2tbb.ReedSolomon.Process.{process_word}

-- An entry lies where its pair of bytes, `ii` and `jj` say.
long_entry :
    (t a b : ℕ)
    → a < 256
    → b < 256
    → long_table galois16 ((t * 256 + a) * 256 + b)
      ≡ table_entry galois16 (get_elem? (byte_pairs 2 0 2) t) a b
unfolding long_table
long_entry t a b ha hb =
    let n = (t * 256 + a) * 256 + b in
    ap (λ q. table_entry galois16 (get_elem? (byte_pairs 2 0 2) q) (n / 256 % 256) (n % 256))
      {x = n / 65536} {y = t} (omega arith)
    ∙ ap₂ (table_entry galois16 (get_elem? (byte_pairs 2 0 2) t)) {x = n / 256 % 256} {y = a}
        {u = n % 256} {v = b} (omega arith) (omega arith)

-- The three tables of Galois16.
entry_low :
    (a b : ℕ) → a < 256 → b < 256 → long_table galois16 ((0 * 256 + a) * 256 + b) ≡ mul galois16 a b
unfolding byte_pairs byte_row table_entry
entry_low a b ha hb =
    long_entry 0 a b ha hb ∙ ap₂ (mul galois16) {y = a} {v = b} (omega arith) (omega arith)

entry_mixed :
    (a b : ℕ)
    → a < 256
    → b < 256
    → long_table galois16 ((1 * 256 + a) * 256 + b) ≡ mul galois16 a (b * 256)
unfolding byte_pairs byte_row table_entry
entry_mixed a b ha hb =
    long_entry 1 a b ha hb ∙ ap₂ (mul galois16) {y = a} {v = b * 256} (omega arith) (omega arith)

entry_high :
    (a b : ℕ)
    → a < 256
    → b < 256
    → long_table galois16 ((2 * 256 + a) * 256 + b) ≡ mul galois16 (a * 256) (b * 256)
unfolding byte_pairs byte_row table_entry
entry_high a b ha hb =
    long_entry 2 a b ha hb
    ∙ ap₂ (mul galois16) {y = a * 256} {v = b * 256} (omega arith) (omega arith)

-- A factor in its two bytes.
mul-bytes :
    (f y : ℕ)
    → f < 2 ^ 16
    → y < 2 ^ 16
    → mul galois16 f y ≡ mul galois16 y (f / 256 * 256) ⊕ mul galois16 y (f % 256)
unfolding add
mul-bytes f y hf hy =
    mul_comm galois16-IsPrimitive f y
    ∙ ap (mul galois16 y) {x = f} {y = f / 256 * 2 ^ 8 + f % 256} (omega arith)
    ∙ ap (mul galois16 y) (sym (xor_below 8 (f / 256) (f % 256) (omega arith)))
    ∙ mul-add galois16-IsPrimitive y (f / 256 * 256) (f % 256) (omega arith) (omega arith)
        (omega arith)

-- Both factors in their bytes.
mul-four :
    (f x : ℕ)
    → f < 2 ^ 16
    → x < 2 ^ 16
    → mul galois16 f x
      ≡ (mul galois16 (f % 256) (x % 256) ⊕ mul galois16 (x % 256) (f / 256 * 256))
        ⊕ (mul galois16 (f % 256) (x / 256 * 256) ⊕ mul galois16 (f / 256 * 256) (x / 256 * 256))
mul-four f x hf hx =
    let ll = mul galois16 (f % 256) (x % 256) in
    let hl = mul galois16 (f / 256 * 256) (x % 256) in
    let lh = mul galois16 (f % 256) (x / 256 * 256) in
    let hh = mul galois16 (f / 256 * 256) (x / 256 * 256) in
    mul-bytes f x hf hx
    ∙ ap₂ ◌⊕◌ (mul-bytes x (f / 256 * 256) hx (omega arith))
        (mul-bytes x (f % 256) hx (omega arith))
    ∙ xor_comm (hh ⊕ hl) (lh ⊕ ll)
    ∙ xor_swap_middle lh ll hh hl
    ∙ xor_comm (lh ⊕ hh) (ll ⊕ hl)
    ∙ ap (λ t. (ll ⊕ t) ⊕ (lh ⊕ hh)) (mul_comm galois16-IsPrimitive (f / 256 * 256) (x % 256))

-- The two look-ups for the bytes of a half word.
half_lem :
    (f x : ℕ)
    → f < 2 ^ 16
    → x < 2 ^ 16
    → low_table f (x % 256) ⊕ high_table f (x / 256 % 256) ≡ mul galois16 f x
unfolding low_table high_table add
half_lem f x hf hx =
    let fh : f / 256 % 256 ≡ f / 256 = omega arith in
    let xh : x / 256 % 256 ≡ x / 256 = omega arith in
    rw (fh, xh)
      (ap₂ ◌⊕◌
          (ap₂ ◌⊕◌ (entry_low (f % 256) (x % 256) (omega arith) (omega arith))
            (entry_mixed (x % 256) (f / 256) (omega arith) (omega arith)))
          (ap₂ ◌⊕◌ (entry_mixed (f % 256) (x / 256) (omega arith) (omega arith))
            (entry_high (f / 256) (x / 256) (omega arith) (omega arith)))
        ∙ sym (mul-four f x hf hx))

-- What the loop stores, by its products.
process_word-eq-products :
    (factor s d : ℕ)
    → factor < 2 ^ 16
    → s < 2 ^ 32
    → process_word factor s d
      ≡ mul galois16 factor (s / 2 ^ 16) * 2 ^ 16 ⊕ (d ⊕ mul galois16 factor (s % 2 ^ 16))
unfolding process_word
process_word-eq-products factor s d hf hs =
    let upper = half_lem factor (s / 2 ^ 16) hf (omega arith) in
    let below = mul-lt galois16-IsPrimitive factor (s / 2 ^ 16) hf (omega arith) in
    let lower = half_lem factor (s % 2 ^ 16) hf (omega arith) in
    let first : s % 2 ^ 16 % 256 ≡ s % 256 = omega arith in
    let second : s % 2 ^ 16 / 256 % 256 ≡ s / 256 % 256 = omega arith in
    ap₂ ◌⊕◌ (ap (λ t. t * 2 ^ 16 % 2 ^ 32) upper ∙ mod-eq_of_lt (omega arith)) (
      xor_assoc d (low_table factor (s % 256)) (high_table factor (s / 256 % 256))
      ∙ ap (λ t. d ⊕ t)
          (ap₂ (λ i j. low_table factor i ⊕ high_table factor j) (sym first) (sym second) ∙ lower))

-- For a factor of 16 bits and a source word of 32, the word that the loop of InternalProcess
-- stores has in each half that of the target plus the factor times that of the source, in the
-- field.
pub process_word_lem :
    (factor s d : ℕ)
    → factor < 2 ^ 16
    → s < 2 ^ 32
    → (process_word factor s d / 2 ^ 16 ≡ d / 2 ^ 16 ⊕ mul galois16 factor (s / 2 ^ 16))
      × (process_word factor s d % 2 ^ 16 ≡ d % 2 ^ 16 ⊕ mul galois16 factor (s % 2 ^ 16))
process_word_lem factor s d hf hs =
    let u = mul galois16 factor (s / 2 ^ 16) in
    let v = mul galois16 factor (s % 2 ^ 16) in
    let below = mul-lt galois16-IsPrimitive factor (s % 2 ^ 16) hf (omega arith) in
    let up : u * 2 ^ 16 / 2 ^ 16 ≡ u = omega arith in
    let low : u * 2 ^ 16 % 2 ^ 16 ≡ 0 = omega arith in
    let none_up : v / 2 ^ 16 ≡ 0 = omega arith in
    rw (process_word-eq-products factor s d hf hs) (
      xor-shift 16 (u * 2 ^ 16) (d ⊕ v)
          ∙ ap₂ ◌⊕◌ up (xor-shift 16 d v ∙ ap (λ t. d / 2 ^ 16 ⊕ t) none_up ∙ xor-zero (d / 2 ^ 16))
          ∙ xor_comm u (d / 2 ^ 16),
      xor-mod 16 (u * 2 ^ 16) (d ⊕ v)
          ∙ ap₂ ◌⊕◌ low (xor-mod 16 d v ∙ ap (λ t. d % 2 ^ 16 ⊕ t) (mod-eq_of_lt below))
          ∙ zero-xor (d % 2 ^ 16 ⊕ v),
    )
