-- ===== src/Checksummer/Slices.antt =====
-- Pieces of a list of bytes, and a byte of a buffer.
use par2tbb.Base.{ℕ, zero, suc, ◌+◌, ◌≤◌, ◌<◌, ◌≡◌, refl, sym, ap, ◌∙◌, arith}
use par2tbb.Base.{List, [], ◌∷◌, ◌++◌, length, take, drop}

abbrev pub byte_at : List ℕ → ℕ → ℕ
byte_at [] i = 0
byte_at (x ∷ xs) zero = x
byte_at (x ∷ xs) (suc i) = byte_at xs i

pub drop-nil : (n : ℕ) → drop {A = ℕ} n [] ≡ []
drop-nil zero = refl
drop-nil (suc n) = refl

pub drop-drop : (a b : ℕ) (xs : List ℕ) → drop b (drop a xs) ≡ drop (a + b) xs
drop-drop zero b xs = ap (λ t. drop t xs) {x = b} (omega arith)
drop-drop (suc a) b [] = drop-nil b ∙ sym (drop-nil (suc a + b))
drop-drop (suc a) b (x ∷ xs) =
    drop-drop a b xs ∙ ap (λ t. drop t (x ∷ xs)) {x = suc (a + b)} (omega arith)

-- A piece inside a prefix.
pub piece-take :
    (o n t : ℕ) (xs : List ℕ) → o + n ≤ t → take n (drop o (take t xs)) ≡ take n (drop o xs)
piece-take zero zero t xs h = refl
piece-take zero (suc n) zero xs h = absurd (omega arith)
piece-take zero (suc n) (suc t) [] h = refl
piece-take zero (suc n) (suc t) (x ∷ xs) h = ap (λ r. x ∷ r) (piece-take zero n t xs (omega arith))
piece-take (suc o) n zero xs h = absurd (omega arith)
piece-take (suc o) n (suc t) [] h = refl
piece-take (suc o) n (suc t) (x ∷ xs) h = piece-take o n t xs (omega arith)

-- Two pieces that meet.
pub take-add : (a b : ℕ) (xs : List ℕ) → take (a + b) xs ≡ take a xs ++ take b (drop a xs)
take-add zero b xs = ap (λ t. take t xs) {y = b} (omega arith)
take-add (suc a) b [] =
    ap (λ t. take t []) {x = suc a + b} {y = suc (a + b)} (omega arith) ∙ sym (take-nil b)
  where
    take-nil : (n : ℕ) → take {A = ℕ} n [] ≡ []
    take-nil zero = refl
    take-nil (suc n) = refl
take-add (suc a) b (x ∷ xs) =
    ap (λ t. take t (x ∷ xs)) {x = suc a + b} {y = suc (a + b)} (omega arith)
    ∙ ap (λ r. x ∷ r) (take-add a b xs)

pub take-append_le : (n : ℕ) (xs ys : List ℕ) → n ≤ length xs → take n (xs ++ ys) ≡ take n xs
take-append_le zero xs ys h = refl
take-append_le (suc n) [] ys h = absurd (omega arith)
take-append_le (suc n) (x ∷ xs) ys h = ap (λ r. x ∷ r) (take-append_le n xs ys (omega arith))

pub take-append_eq : (n : ℕ) (xs ys : List ℕ) → n ≡ length xs → take n (xs ++ ys) ≡ xs
take-append_eq zero [] ys h = refl
take-append_eq zero (x ∷ xs) ys h = absurd (omega arith)
take-append_eq (suc n) [] ys h = absurd (omega arith)
take-append_eq (suc n) (x ∷ xs) ys h = ap (λ r. x ∷ r) (take-append_eq n xs ys (omega arith))

pub take_all : (n : ℕ) (xs : List ℕ) → length xs ≤ n → take n xs ≡ xs
take_all zero [] h = refl
take_all zero (x ∷ xs) h = absurd (omega arith)
take_all (suc n) [] h = refl
take_all (suc n) (x ∷ xs) h = ap (λ r. x ∷ r) (take_all n xs (omega arith))

-- The window at `o` begins with the byte there, and the next window ends with the one past it.
pub piece_head :
    (o n : ℕ) (xs : List ℕ)
    → o < length xs
    → take (suc n) (drop o xs) ≡ byte_at xs o ∷ take n (drop (suc o) xs)
piece_head o n [] h = absurd (omega arith)
piece_head zero n (x ∷ xs) h = refl
piece_head (suc o) n (x ∷ xs) h = piece_head o n xs (omega arith)

pub piece_last :
    (o n : ℕ) (xs : List ℕ)
    → o + n < length xs
    → take (suc n) (drop o xs) ≡ take n (drop o xs) ++ byte_at xs (o + n) ∷ []
piece_last o n [] h = absurd (omega arith)
piece_last zero zero (x ∷ xs) h =
    ap (λ t. byte_at (x ∷ xs) t ∷ []) {x = 0} {y = 0 + 0} (omega arith)
piece_last zero (suc n) (x ∷ xs) h =
    ap (λ r. x ∷ r) (piece_last zero n xs (omega arith))
    ∙ ap (λ t. x ∷ (take n xs ++ t ∷ []))
        (ap (byte_at xs) {x = 0 + n} {y = n} (omega arith)
          ∙ ap (byte_at (x ∷ xs)) {x = suc n} {y = 0 + suc n} (omega arith))
piece_last (suc o) n (x ∷ xs) h =
    piece_last o n xs (omega arith)
    ∙ ap (λ t. take n (drop o xs) ++ t ∷ [])
        (ap (byte_at (x ∷ xs)) {x = suc (o + n)} {y = suc o + n} (omega arith))
