-- ===== src/Md5/Compress.antt =====
-- MD5State of md5.h and md5.cpp: the four state words and UpdateState. A `u32` sum wraps.
use Prim.Native.Nat.{bit_and, bit_or}
use par2tbb.Base.{ℕ, zero, suc, ◌+◌, ◌-◌, ◌*◌, ◌/◌, ◌%◌, ◌^◌, List, [], ◌∷◌}
use par2tbb.Base.Bits.{◌⊕◌}

-- `state[0]` to `state[3]`, and the working variables of the same names.
pub record State : Type 0 where
  pub a : ℕ
  pub b : ℕ
  pub c : ℕ
  pub d : ℕ

-- MD5State::Reset
abbrev pub reset_state : State
reset_state = record { a = 0x67452301; b = 0xefcdab89; c = 0x98badcfe; d = 0x10325476 }

-- `~x` of a `u32`
abbrev pub complement : ℕ → ℕ
complement x = x ⊕ 0xffff_ffff

-- The primitive operations.
unfoldable pub f1 : ℕ → ℕ → ℕ → ℕ
f1 x y z = bit_or (bit_and x y) (bit_and (complement x) z)

unfoldable pub f2 : ℕ → ℕ → ℕ → ℕ
f2 x y z = bit_or (bit_and x z) (bit_and (complement z) y)

unfoldable pub f3 : ℕ → ℕ → ℕ → ℕ
f3 x y z = x ⊕ y ⊕ z

unfoldable pub f4 : ℕ → ℕ → ℕ → ℕ
f4 x y z = y ⊕ bit_or x (complement z)

unfoldable pub rol : ℕ → ℕ → ℕ
rol x y = bit_or (x * 2 ^ y % 2 ^ 32) (x / 2 ^ (32 - y) % 2 ^ y)

-- The word `block[k]`.
abbrev pub word_at : List ℕ → ℕ → ℕ
word_at [] k = 0
word_at (w ∷ ws) zero = w
word_at (w ∷ ws) (suc k) = word_at ws k

-- ROUND: the new value of `w`, its term `f(x, y, z)` computed.
unfoldable pub round : List ℕ → ℕ → ℕ → ℕ → ℕ → ℕ → ℕ → ℕ
round block w x f k s ti = (x + rol ((w + f + word_at block k + ti) % 2 ^ 32) s) % 2 ^ 32

-- Four ROUND lines in a row, which set `a`, `d`, `c` and `b` in turn, with the index, the shift
-- and the constant of each.
unfoldable pub four_rounds :
    (ℕ → ℕ → ℕ → ℕ) → List ℕ → ℕ × ℕ × ℕ → ℕ × ℕ × ℕ → ℕ × ℕ × ℕ → ℕ × ℕ × ℕ → State → State
four_rounds f block (ka, sa, ta) (kd, sd, td) (kc, sc, tc) (kb, sb, tb) s =
    let a = round block s.a s.b (f s.b s.c s.d) ka sa ta in
    let d = round block s.d a (f a s.b s.c) kd sd td in
    let c = round block s.c d (f d a s.b) kc sc tc in
    let b = round block s.b c (f c d a) kb sb tb in record { a = a; b = b; c = c; d = d }

-- The sixteen lines with F1.
unfoldable pub pass1 : List ℕ → State → State
pass1 block s =
    let s1 =
      four_rounds f1 block (0, 7, 0xd76aa478) (1, 12, 0xe8c7b756) (2, 17, 0x242070db)
        (3, 22, 0xc1bdceee) s in
    let s2 =
      four_rounds f1 block (4, 7, 0xf57c0faf) (5, 12, 0x4787c62a) (6, 17, 0xa8304613)
        (7, 22, 0xfd469501) s1 in
    let s3 =
      four_rounds f1 block (8, 7, 0x698098d8) (9, 12, 0x8b44f7af) (10, 17, 0xffff5bb1)
        (11, 22, 0x895cd7be) s2 in
    four_rounds f1 block (12, 7, 0x6b901122) (13, 12, 0xfd987193) (14, 17, 0xa679438e)
      (15, 22, 0x49b40821) s3

-- The sixteen lines with F2.
unfoldable pub pass2 : List ℕ → State → State
pass2 block s =
    let s1 =
      four_rounds f2 block (1, 5, 0xf61e2562) (6, 9, 0xc040b340) (11, 14, 0x265e5a51)
        (0, 20, 0xe9b6c7aa) s in
    let s2 =
      four_rounds f2 block (5, 5, 0xd62f105d) (10, 9, 0x02441453) (15, 14, 0xd8a1e681)
        (4, 20, 0xe7d3fbc8) s1 in
    let s3 =
      four_rounds f2 block (9, 5, 0x21e1cde6) (14, 9, 0xc33707d6) (3, 14, 0xf4d50d87)
        (8, 20, 0x455a14ed) s2 in
    four_rounds f2 block (13, 5, 0xa9e3e905) (2, 9, 0xfcefa3f8) (7, 14, 0x676f02d9)
      (12, 20, 0x8d2a4c8a) s3

-- The sixteen lines with F3.
unfoldable pub pass3 : List ℕ → State → State
pass3 block s =
    let s1 =
      four_rounds f3 block (5, 4, 0xfffa3942) (8, 11, 0x8771f681) (11, 16, 0x6d9d6122)
        (14, 23, 0xfde5380c) s in
    let s2 =
      four_rounds f3 block (1, 4, 0xa4beea44) (4, 11, 0x4bdecfa9) (7, 16, 0xf6bb4b60)
        (10, 23, 0xbebfbc70) s1 in
    let s3 =
      four_rounds f3 block (13, 4, 0x289b7ec6) (0, 11, 0xeaa127fa) (3, 16, 0xd4ef3085)
        (6, 23, 0x04881d05) s2 in
    four_rounds f3 block (9, 4, 0xd9d4d039) (12, 11, 0xe6db99e5) (15, 16, 0x1fa27cf8)
      (2, 23, 0xc4ac5665) s3

-- The sixteen lines with F4.
unfoldable pub pass4 : List ℕ → State → State
pass4 block s =
    let s1 =
      four_rounds f4 block (0, 6, 0xf4292244) (7, 10, 0x432aff97) (14, 15, 0xab9423a7)
        (5, 21, 0xfc93a039) s in
    let s2 =
      four_rounds f4 block (12, 6, 0x655b59c3) (3, 10, 0x8f0ccc92) (10, 15, 0xffeff47d)
        (1, 21, 0x85845dd1) s1 in
    let s3 =
      four_rounds f4 block (8, 6, 0x6fa87e4f) (15, 10, 0xfe2ce6e0) (6, 15, 0xa3014314)
        (13, 21, 0x4e0811a1) s2 in
    four_rounds f4 block (4, 6, 0xf7537e82) (11, 10, 0xbd3af235) (2, 15, 0x2ad7d2bb)
      (9, 21, 0xeb86d391) s3

-- MD5State::UpdateState
unfoldable pub update_state : List ℕ → State → State
update_state block s =
    let t = pass4 block (pass3 block (pass2 block (pass1 block s))) in
    record {
      a = (s.a + t.a) % 2 ^ 32;
      b = (s.b + t.b) % 2 ^ 32;
      c = (s.c + t.c) % 2 ^ 32;
      d = (s.d + t.d) % 2 ^ 32;
    }
