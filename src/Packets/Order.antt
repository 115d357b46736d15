-- ===== src/Packets/Order.antt =====
-- MD5Hash::operator< of md5.h, which orders the hashes as little-endian numbers.
use native.Mathlib.Nat.{pow-suc, mul_comm, mul_left_comm}
use par2tbb.Base.{ℕ, zero, suc, ◌+◌, ◌*◌, ◌^◌, ◌<◌, ◌≡◌, refl, ap, ap₂, ◌∙◌}
use par2tbb.Base.{arith, List, [], ◌∷◌, length, take, ltb}
use par2tbb.Crc.Bitwise.{AreBytes}
use par2tbb.Checksummer.Slices.{take_all}
use par2tbb.Scan.{number}
use par2tbb.Matching.{hash_less_from, hash_less}
use par2tbb.ReedSolomon.Input.{nth}

-- A hash of 16 bytes.
abbrev pub IsHash : List ℕ → Type 0
IsHash xs = (length xs ≡ 16) × AreBytes xs

power_positive : (i : ℕ) → 0 < 256 ^ i
power_positive zero = omega arith
power_positive (suc i) = grind (arith, power_positive i, pow-suc 256 i)

power_shift : (b i : ℕ) → b * 256 ^ suc i ≡ 256 * (b * 256 ^ i)
power_shift b i =
    ap (λ t. b * t) (pow-suc 256 i ∙ mul_comm (256 ^ i) 256) ∙ mul_left_comm b 256 (256 ^ i)

-- The number of the first bytes.
number_below : (i : ℕ) (xs : List ℕ) → AreBytes xs → number (take i xs) < 256 ^ i
number_below zero xs b = omega arith
number_below (suc i) [] b = power_positive (suc i)
number_below (suc i) (x ∷ xs) (small, b) = grind (arith, number_below i xs b, pow-suc 256 i)

number_last :
    (i : ℕ) (xs : List ℕ)
    → i < length xs
    → number (take (suc i) xs) ≡ number (take i xs) + nth xs i * 256 ^ i
number_last i [] h = absurd (omega arith)
number_last zero (x ∷ xs) h = omega arith
number_last (suc i) (x ∷ xs) h =
    omega (arith, number_last i xs (omega arith), power_shift (nth xs i) i)

byte_below : (i : ℕ) (xs : List ℕ) → AreBytes xs → nth xs i < 256
byte_below i [] b = omega arith
byte_below zero (x ∷ xs) (small, b) = small
byte_below (suc i) (x ∷ xs) (small, b) = byte_below i xs b

-- The byte at the top decides, unless it is the same.
top_byte_less : (p x y a b : ℕ) → x < p → y < p → a < b → x + a * p < y + b * p
top_byte_less p x y a b hx hy h = grind arith

hash_less_from_lem :
    (i : ℕ) (a b : List ℕ)
    → AreBytes a
    → AreBytes b
    → i < length a
    → i < length b
    → hash_less_from i a b ≡ ltb (number (take (suc i) a)) (number (take (suc i) b))
unfolding hash_less_from
hash_less_from_lem zero a b va vb ha hb =
    rw (number_last zero a ha, number_last zero b hb) (ground arith)
hash_less_from_lem (suc i) a b va vb ha hb =
    let p = 256 ^ suc i in
    let x = number (take (suc i) a) in
    let y = number (take (suc i) b) in
    let rest = hash_less_from_lem i a b va vb (omega arith) (omega arith) in
    rw (number_last (suc i) a ha, number_last (suc i) b hb, rest)
      (ground (
        arith,
        top_byte_less p x y (nth a (suc i)) (nth b (suc i)) (number_below (suc i) a va)
            (number_below (suc i) b vb),
        top_byte_less p y x (nth b (suc i)) (nth a (suc i)) (number_below (suc i) b vb)
            (number_below (suc i) a va),
      ))

-- Of two hashes the one that stands for the smaller number is the smaller one.
pub hash_less_lem : (a b : List ℕ) → IsHash a → IsHash b → hash_less a b ≡ ltb (number a) (number b)
unfolding hash_less
hash_less_lem a b (sa, va) (sb, vb) =
    hash_less_from_lem 15 a b va vb (omega arith) (omega arith)
    ∙ ap₂ (λ x y. ltb (number x) (number y)) (take_all 16 a (omega arith))
        (take_all 16 b (omega arith))

-- Bytes of the same number are the same.
pub number_injective :
    (a b : List ℕ) → AreBytes a → AreBytes b → length a ≡ length b → number a ≡ number b → a ≡ b
number_injective [] [] va vb size same = refl
number_injective [] (y ∷ ys) va vb size same = absurd (omega arith)
number_injective (x ∷ xs) [] va vb size same = absurd (omega arith)
number_injective (x ∷ xs) (y ∷ ys) (sx, vx) (sy, vy) size same =
    ap₂ ◌∷◌ {y = y} (omega arith) (number_injective xs ys vx vy (omega arith) (omega arith))
