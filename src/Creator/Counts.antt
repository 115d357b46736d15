-- ===== src/Creator/Counts.antt =====
-- The counts of blocks that ComputeBlockSizeAndBlockCount of par2creator.cpp makes, beside the
-- number of blocks that the files need.
use native.Mathlib.Nat.{div-div-eq-div-mul, div-lt_iff_lt-mul, div-mul-le_self}
use par2tbb.Base.{ℕ, zero, suc, ◌+◌, ◌-◌, ◌*◌, ◌/◌, ◌≤◌, ◌<◌, ◌^◌, ◌≡◌, ap, ◌∙◌, arith}
use par2tbb.Base.{List, [], ◌∷◌, length}
use par2tbb.Creator.{u64}
use par2tbb.Creator.Sizing.{count_blocks, count_word_blocks, count_words}

-- The blocks of `size` bytes that the files need: for each file, its size over the block's, up.
abbrev pub needed : ℕ → List ℕ → ℕ
needed size [] = 0
needed size (f ∷ fs) = (f + size - 1) / size + needed size fs

abbrev pub total : List ℕ → ℕ
total [] = 0
total (f ∷ fs) = f + total fs

pub u64_small : (n : ℕ) → n < 2 ^ 64 → u64 n ≡ n
u64_small n h = omega arith

pub ceil_le : (f size : ℕ) → 0 < size → (f + size - 1) / size ≤ f
ceil_le f zero h = absurd (omega arith)
ceil_le f (suc t) h =
    let below : (f + suc t - 1) / suc t < f + 1 =
      (div-lt_iff_lt-mul {k = suc t} {x = f + suc t - 1} {y = f + 1} h).1 (omega arith) in
    omega arith

pub needed_le : (size : ℕ) (files : List ℕ) → 0 < size → needed size files ≤ total files
needed_le size [] h = omega arith
needed_le size (f ∷ fs) h = omega (arith, ceil_le f size h, needed_le size fs h)

pub count_blocks-eq-needed :
    (count size : ℕ) (files : List ℕ)
    → 0 < size
    → count + total files + size < 2 ^ 64
    → count_blocks count size files ≡ count + needed size files
count_blocks-eq-needed count size [] h bound = omega arith
count_blocks-eq-needed count size (f ∷ fs) h bound =
    let small = ceil_le f size h in
    let here : u64 (count + u64 (f + size - 1) / size) ≡ count + (f + size - 1) / size =
      rw (u64_small (f + size - 1) (omega arith)) (u64_small _ (omega arith)) in
    ap (λ n. count_blocks n size fs) here
    ∙ count_blocks-eq-needed (count + (f + size - 1) / size) size fs h (omega arith)
    ∙ omega arith

pub word_ceil :
    (f size : ℕ) → 0 < size → ((f + 3) / 4 + size - 1) / size ≡ (f + 4 * size - 1) / (4 * size)
word_ceil f size h =
    ap (λ n. n / size) {y = (f + 4 * size - 1) / 4} (omega arith)
    ∙ div-div-eq-div-mul (f + 4 * size - 1) 4 size

pub count_word_blocks-eq-needed :
    (count size : ℕ) (files : List ℕ)
    → 0 < size
    → count + total files + 4 * size + 4 < 2 ^ 64
    → count_word_blocks count size files ≡ count + needed (4 * size) files
count_word_blocks-eq-needed count size [] h bound = omega arith
count_word_blocks-eq-needed count size (f ∷ fs) h bound =
    let small = ceil_le f (4 * size) (omega arith) in
    let quotient : (u64 (f + 3) / 4 + size - 1) / size ≡ (f + 4 * size - 1) / (4 * size) =
      rw (u64_small (f + 3) (omega arith)) (word_ceil f size h) in
    let inner : u64 (u64 (f + 3) / 4 + size - 1) ≡ u64 (f + 3) / 4 + size - 1 = omega arith in
    let here : u64 (count + u64 (u64 (f + 3) / 4 + size - 1) / size)
        ≡ count + (f + 4 * size - 1) / (4 * size) =
      rw (inner, quotient) (u64_small _ (omega arith)) in
    ap (λ n. count_word_blocks n size fs) here
    ∙ count_word_blocks-eq-needed (count + (f + 4 * size - 1) / (4 * size)) size fs h (omega arith)
    ∙ omega arith

pub count_words-eq-needed :
    (words : ℕ) (files : List ℕ)
    → words + total files + 4 < 2 ^ 64
    → count_words words files ≡ words + needed 4 files
count_words-eq-needed words [] bound = omega arith
count_words-eq-needed words (f ∷ fs) bound =
    let here : u64 (words + u64 (f + 3) / 4) ≡ words + (f + 3) / 4 = omega arith in
    ap (λ n. count_words n fs) here
    ∙ count_words-eq-needed (words + (f + 3) / 4) fs (omega arith)
    ∙ omega arith

-- A whole number of blocks of `size` words is at most a block longer than the words of a file.
word_ceil-mul :
    (f size : ℕ) → 0 < size → (f + 4 * size - 1) / (4 * size) * size ≤ (f + 3) / 4 + size
word_ceil-mul f size h =
    rw (← word_ceil f size h) (omega (arith, div-mul-le_self ((f + 3) / 4 + size - 1) size))

pub needed-mul :
    (size : ℕ) (files : List ℕ)
    → 0 < size
    → needed (4 * size) files * size ≤ needed 4 files + length files * size
needed-mul size [] h = omega arith
needed-mul size (f ∷ fs) h = omega (arith, word_ceil-mul f size h, needed-mul size fs h)
