-- ===== src/ReedSolomon/Process/Output.antt =====
-- The successive calls of Process for the inputs of one output.
use par2tbb.Base.{ℕ, zero, suc, ◌+◌, ◌/◌, ◌%◌, ◌^◌, ◌<◌, ◌≡◌, refl, sym, ap, ap₂, ◌∙◌, arith}
use par2tbb.Base.{List, [], ◌∷◌, length, ◌==◌, Bool-cases, inl, inr, some, false, ◌≢◌}
use par2tbb.Base.Bits.{◌⊕◌, xor-zero, zero-xor, xor_assoc}
use par2tbb.Galois.{galois16, mul, count}
use par2tbb.Galois.Field.{zero-mul_lem}
use par2tbb.Galois.Instances.{galois16-IsPrimitive}
use par2tbb.ReedSolomon.{Matrices, Problem, compute, exponents}
use par2tbb.ReedSolomon.Sum.{sum, sum_congr}
use par2tbb.ReedSolomon.Row.{dot}
use par2tbb.ReedSolomon.Equations.{IsProblem, inputs, outputs}
use par2tbb.ReedSolomon.Repair.{compute-Stage, compute_repairs}
use par2tbb.ReedSolomon.Process.{process, internal_process, process_word}
use par2tbb.ReedSolomon.Process.Multiply.{process_word_lem}

-- The output buffer after the calls of Process for the inputs below `n`.
pub process_inputs : Matrices → ℕ → (ℕ → List ℕ) → ℕ → List ℕ → List ℕ
process_inputs m outputindex src zero dst = dst
process_inputs m outputindex src (suc n) dst =
    process m n outputindex (src n) (process_inputs m outputindex src n dst)

-- Half `h` of a word: 0 for the low one.
abbrev pub half : ℕ → ℕ → ℕ
half zero s = s % 2 ^ 16
half (suc h) s = s / 2 ^ 16

-- Word `i` of a buffer.
abbrev pub word_of : List ℕ → ℕ → ℕ
word_of [] i = 0
word_of (x ∷ xs) zero = x
word_of (x ∷ xs) (suc i) = word_of xs i

abbrev pub AreWords : List ℕ → Type 0
AreWords [] = Unit {0}
AreWords (x ∷ xs) = (x < 2 ^ 32) × AreWords xs

word-half :
    (h factor s d : ℕ)
    → factor < 2 ^ 16
    → s < 2 ^ 32
    → half h (process_word factor s d) ≡ half h d ⊕ mul galois16 factor (half h s)
word-half zero factor s d hf hs = (process_word_lem factor s d hf hs).1
word-half (suc h) factor s d hf hs = (process_word_lem factor s d hf hs).0

length-internal_process :
    (factor : ℕ) (src dst : List ℕ)
    → length src ≡ length dst
    → length (internal_process factor src dst) ≡ length dst
unfolding internal_process
length-internal_process factor [] dst e = refl
length-internal_process factor (s ∷ src) [] e = refl
length-internal_process factor (s ∷ src) (d ∷ dst) e =
    ap suc (length-internal_process factor src dst (omega arith))

internal_process-half :
    (factor : ℕ) (src dst : List ℕ) (i h : ℕ)
    → factor < 2 ^ 16
    → AreWords src
    → length src ≡ length dst
    → i < length dst
    → half h (word_of (internal_process factor src dst) i)
      ≡ half h (word_of dst i) ⊕ mul galois16 factor (half h (word_of src i))
unfolding internal_process
internal_process-half factor [] dst i h hf w e l = absurd (omega arith)
internal_process-half factor (s ∷ src) [] i h hf w e l = absurd (omega arith)
internal_process-half factor (s ∷ src) (d ∷ dst) zero h hf w e l = word-half h factor s d hf w.0
internal_process-half factor (s ∷ src) (d ∷ dst) (suc i) h hf w e l =
    internal_process-half factor src dst i h hf w.1 (omega arith) (omega arith)

-- A factor of 0 adds nothing, so leaving the buffer alone is right.
process-half :
    (m : Matrices) (c r : ℕ) (src dst : List ℕ) (i h : ℕ)
    → m.left r c < 2 ^ 16
    → AreWords src
    → length src ≡ length dst
    → i < length dst
    → half h (word_of (process m c r src dst) i)
      ≡ half h (word_of dst i) ⊕ mul galois16 (m.left r c) (half h (word_of src i))
unfolding process
process-half m c r src dst i h hf w e l =
    let some_words : length src ≢ 0 = λ none_there. absurd (omega arith) in
    elim (Bool-cases (m.left r c == 0)) [
      | inl none_left ↦
          let is_zero : m.left r c ≡ 0 = ground arith in
          rw none_left (
            sym (
              ap (λ t. half h (word_of dst i) ⊕ mul galois16 t (half h (word_of src i))) is_zero
              ∙ ap (λ t. half h (word_of dst i) ⊕ t)
                  (zero-mul_lem galois16-IsPrimitive (half h (word_of src i)))
              ∙ xor-zero (half h (word_of dst i))))
      | inr factor ↦
          let words_left : (length src == 0) ≡ false = ground arith in
          rw (factor, words_left) (internal_process-half (m.left r c) src dst i h hf w e l)
    ]

length-process :
    (m : Matrices) (c r : ℕ) (src dst : List ℕ)
    → length src ≡ length dst
    → length (process m c r src dst) ≡ length dst
unfolding process
length-process m c r src dst e = ground (arith, length-internal_process (m.left r c) src dst e)

module _ (m : Matrices) (r : ℕ) (src : ℕ → List ℕ) (dst : List ℕ)
    (fits : (c : ℕ) → m.left r c < 2 ^ 16) (words : (c : ℕ) → AreWords (src c))
    (same : (c : ℕ) → length (src c) ≡ length dst) where
  length-process_inputs : (n : ℕ) → length (process_inputs m r src n dst) ≡ length dst
  unfolding process_inputs
  length-process_inputs zero = refl
  length-process_inputs (suc n) =
      length-process m n r (src n) (process_inputs m r src n dst)
        (same n ∙ sym (length-process_inputs n))
      ∙ length-process_inputs n

  -- Each half of a word of the buffer gets the sum of the inputs' halves, times the row's factors.
  pub process_inputs-half :
      (n i h : ℕ)
      → i < length dst
      → half h (word_of (process_inputs m r src n dst) i)
        ≡ half h (word_of dst i) ⊕ dot galois16 n (m.left r) (λ c. half h (word_of (src c) i))
  unfolding process_inputs sum
  process_inputs-half zero i h l = sym (xor-zero (half h (word_of dst i)))
  process_inputs-half (suc n) i h l =
      process-half m n r (src n) (process_inputs m r src n dst) i h (fits n) (words n)
        (same n ∙ sym (length-process_inputs n)) (omega (arith, length-process_inputs n))
      ∙ ap (λ t. t ⊕ mul galois16 (m.left r n) (half h (word_of (src n) i)))
          (process_inputs-half n i h l)
      ∙ xor_assoc (half h (word_of dst i)) _ _

module _ (p : Problem) (ok : IsProblem galois16 p) (word : ℕ → ℕ)
    (fits : (i : ℕ) → word i < count galois16) where
  -- For base values in the field, exponents up to the period and data words in the field: when
  -- Compute succeeds over Galois16, and at some place the output buffer is clear and the input
  -- buffers, of 32-bit words and as long as it, hold the present data blocks and the recovery
  -- blocks that stand in, the calls of Process for all the inputs leave at that place the
  -- missing data block or missing recovery block of the row.
  pub processed_repairs :
      (m : Matrices) (r i h : ℕ) (src : ℕ → List ℕ) (dst : List ℕ)
      → compute galois16 p ≡ some m
      → r < length p.missing_index + length (exponents false p.output_rows)
      → ((c : ℕ) → AreWords (src c))
      → ((c : ℕ) → length (src c) ≡ length dst)
      → i < length dst
      → half h (word_of dst i) ≡ 0
      → ((c : ℕ) → half h (word_of (src c) i) ≡ inputs galois16 p word c)
      → half h
          (word_of (process_inputs m r src (length p.present_index + length p.missing_index) dst) i)
        ≡ outputs galois16 p word r
  processed_repairs m r i h src dst done l w same li clear holds =
      let n = length p.present_index + length p.missing_index in
      let bounded = (compute-Stage galois16-IsPrimitive p ok word fits m done).bounded in
      process_inputs-half m r src dst (bounded.left_lt r) w same n i h li
      ∙ ap₂ ◌⊕◌ clear (sum_congr n _ _ (λ c _. ap (mul galois16 (m.left r c)) (holds c)))
      ∙ zero-xor (dot galois16 n (m.left r) (inputs galois16 p word))
      ∙ compute_repairs galois16-IsPrimitive p ok word fits m r done l
