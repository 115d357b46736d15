-- ===== src/Tests/ReedSolomon.antt =====
-- The theorems on reedsolomon.h at a small problem: one data block of two is missing, and one
-- recovery block, whose exponent is 1, is there for it.
use par2tbb.Base.{
  ℕ, ◌+◌, ◌%◌, ◌/◌, ◌^◌, ◌<◌, ◌≤◌, ◌≡◌, arith, refl, List, [], ◌∷◌, zero, suc, some, true, false,
  Bool,
}
use native.Mathlib.Nat.{mod-eq_of_lt}
use par2tbb.Base.Bits.{◌⊕◌}
use par2tbb.Galois.{galois8, galois16, mul, limit, count, pow, power_at, table}
use par2tbb.Galois.Instances.{galois8-IsPrimitive, galois16-IsPrimitive}
use par2tbb.ReedSolomon.{
  Problem, Matrices, scale, eliminate_rows, gauss_elim, matrices, compute, exponents,
}
use par2tbb.ReedSolomon.Input.{nth}
use par2tbb.ReedSolomon.Row.{dot}
use par2tbb.ReedSolomon.Equations.{IsProblem, inputs, outputs}
use par2tbb.ReedSolomon.Repair.{inputs-lt, compute_repairs}
use par2tbb.ReedSolomon.Process.Multiply.{process_word_lem}
use par2tbb.ReedSolomon.Process.{process_word}
use par2tbb.ReedSolomon.Process.Output.{half, word_of, AreWords, process_inputs, processed_repairs}

abbrev one_missing : Problem
one_missing = record {
  present_index = 0 ∷ [];
  missing_index = 1 ∷ [];
  database = 1 ∷ 2 ∷ [];
  output_rows = record { present = true; exponent = 1 } ∷ [];
}

-- The matrices after the one pivot.
abbrev one_solved : Matrices
one_solved = eliminate_rows galois8 2 1 0 1 0 (scale galois8 2 1 0 2 (matrices galois8 one_missing))

abbrev word : ℕ → ℕ
word i = (i + 17) % 256

one_missing-IsProblem : IsProblem galois8 one_missing
unfolding exponents
one_missing-IsProblem = record {
  small = omega arith;
  bases_lt = λ i. base i;
  exponents_le = λ here i. exponent here i;
}
  where
    base : (i : ℕ) → nth (1 ∷ 2 ∷ []) i < count galois8
    base zero = omega arith
    base (suc zero) = omega arith
    base (suc (suc i)) = omega arith

    exponent :
        (here : Bool) (i : ℕ) → nth (exponents here one_missing.output_rows) i ≤ limit galois8
    exponent true zero = omega arith
    exponent true (suc i) = omega arith
    exponent false i = omega arith

one_missing_solved : compute galois8 one_missing ≡ some one_solved
unfolding compute gauss_elim exponents matrices pow power_at table
one_missing_solved = refl

word-lt : (i : ℕ) → word i < count galois8
word-lt i = omega arith

compute_repairs_example :
    dot galois8 2 (one_solved.left 0) (inputs galois8 one_missing word)
    ≡ outputs galois8 one_missing word 0
compute_repairs_example =
    compute_repairs galois8-IsPrimitive one_missing one_missing-IsProblem word word-lt one_solved 0
      one_missing_solved (omega arith)

-- The same with 16-bit values, and the exponent 0.
abbrev one_missing16 : Problem
one_missing16 = record one_missing { output_rows = record { present = true; exponent = 0 } ∷ [] }

abbrev one_solved16 : Matrices
one_solved16 =
    eliminate_rows galois16 2 1 0 1 0 (scale galois16 2 1 0 1 (matrices galois16 one_missing16))

one_missing16-IsProblem : IsProblem galois16 one_missing16
unfolding exponents
one_missing16-IsProblem = record {
  small = omega arith;
  bases_lt = λ i. base i;
  exponents_le = λ here i. exponent here i;
}
  where
    base : (i : ℕ) → nth (1 ∷ 2 ∷ []) i < count galois16
    base zero = omega arith
    base (suc zero) = omega arith
    base (suc (suc i)) = omega arith

    exponent :
        (here : Bool) (i : ℕ) → nth (exponents here one_missing16.output_rows) i ≤ limit galois16
    exponent true zero = omega arith
    exponent true (suc i) = omega arith
    exponent false i = omega arith

one_missing16_solved : compute galois16 one_missing16 ≡ some one_solved16
unfolding compute gauss_elim exponents matrices pow
one_missing16_solved = refl

word16-lt : (i : ℕ) → word i < count galois16
word16-lt i = omega arith

abbrev input_words : ℕ → List ℕ
input_words c = inputs galois16 one_missing16 word c ∷ []

input_words_lt : (c : ℕ) → inputs galois16 one_missing16 word c < 2 ^ 16
input_words_lt c =
    inputs-lt galois16-IsPrimitive one_missing16 one_missing16-IsProblem word word16-lt c

input_words-AreWords : (c : ℕ) → AreWords (input_words c)
input_words-AreWords c = (omega (arith, input_words_lt c), tt)

processed_repairs_example :
    half 0 (word_of (process_inputs one_solved16 0 input_words 2 (0 ∷ [])) 0)
    ≡ outputs galois16 one_missing16 word 0
processed_repairs_example =
    processed_repairs one_missing16 one_missing16-IsProblem word word16-lt one_solved16 0 0 0
      input_words (0 ∷ []) one_missing16_solved (omega arith) input_words-AreWords (λ c. refl)
      (omega arith) refl (λ c. mod-eq_of_lt (input_words_lt c))

process_word_lem_example :
    (process_word 300 4000000000 7 / 2 ^ 16 ≡ 7 / 2 ^ 16 ⊕ mul galois16 300 (4000000000 / 2 ^ 16))
    × (process_word 300 4000000000 7 % 2 ^ 16 ≡ 7 % 2 ^ 16 ⊕ mul galois16 300 (4000000000 % 2 ^ 16))
process_word_lem_example = process_word_lem 300 4000000000 7 (omega arith) (omega arith)
