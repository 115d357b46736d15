-- ===== src/Md5/Digest.antt =====
-- MD5Context::Final of md5.cpp beside the definition of MD5 in RFC 1321.
use mathlib.Core.List.{append-nil}
use par2tbb.Base.{ℕ, zero, suc, ◌-◌, ◌*◌, ◌/◌, ◌%◌, ◌^◌, ◌<◌, ◌≡◌}
use par2tbb.Base.{refl, sym, ap, ap₂, ◌∙◌, arith}
use par2tbb.Base.{List, [], ◌∷◌, ◌++◌, length, take, drop}
use par2tbb.Base.{length-append, take-append-drop, length-take, length-drop, length-replicate}
use par2tbb.Md5.{Context, buffersize, words, update, reset, little_endian, padding_size, hash}
use par2tbb.Md5.{finish, final}
use par2tbb.Md5.Compress.{State, reset_state, update_state}
use par2tbb.Md5.Stream.{absorb_all, absorb_block, absorb_all-append, IsValid, update_lem}
use par2tbb.Md5.Stream.{
  length-absorb_all, as_context, update-IsValid, update-update, zero_bytes, update-nil,
}

-- The state after `n` blocks of 64 bytes.
pub compress_blocks : ℕ → State → List ℕ → State
compress_blocks zero s xs = s
compress_blocks (suc n) s xs =
    compress_blocks n (update_state (words (take buffersize xs)) s) (drop buffersize xs)

-- A one, zeros up to 8 bytes short of a block, and the length in bits.
pub padded : List ℕ → List ℕ
padded message =
    message
    ++ ((0x80 ∷ zero_bytes ((119 - length message % 64) % 64))
        ++ little_endian 8 (length message * 8 % 2 ^ 64))

pub rfc1321 : List ℕ → List ℕ
rfc1321 message =
    let s = compress_blocks (length (padded message) / 64) reset_state (padded message) in
    little_endian 4 s.a ++ little_endian 4 s.b ++ little_endian 4 s.c ++ little_endian 4 s.d

-- Hashing in pieces, and the message that they make.
pub update_each : Context → List (List ℕ) → Context
update_each c [] = c
update_each c (xs ∷ pieces) = update_each (update c xs) pieces

unfoldable pub joined : List (List ℕ) → List ℕ
joined [] = []
joined (xs ∷ pieces) = xs ++ joined pieces

pub reset-IsValid : IsValid reset
reset-IsValid = omega arith

update_each-eq-update :
    (c : Context) (pieces : List (List ℕ))
    → IsValid c
    → update_each c pieces ≡ update c (joined pieces)
unfolding update_each joined
update_each-eq-update c [] v = sym (update-nil c v)
update_each-eq-update c (xs ∷ pieces) v =
    update_each-eq-update (update c xs) pieces (update-IsValid c xs v)
    ∙ update-update c xs (joined pieces) v

absorb_blocks :
    (n : ℕ) (s : State) (xs : List ℕ)
    → length xs ≡ n * buffersize
    → absorb_all (s, []) xs ≡ (compress_blocks n s xs, [])
unfolding compress_blocks
absorb_blocks zero s [] h = unfold absorb_all in refl
absorb_blocks zero s (x ∷ xs) h = absurd (omega arith)
absorb_blocks (suc n) s xs h =
    ap (absorb_all (s, [])) (sym (take-append-drop buffersize xs))
    ∙ absorb_all-append (s, []) (take buffersize xs) (drop buffersize xs)
    ∙ ap (λ t. absorb_all t (drop buffersize xs))
        (absorb_block s [] (take buffersize xs) (omega arith)
          (omega (arith, length-take buffersize xs)))
    ∙ absorb_blocks n (update_state (words (take buffersize xs)) s) (drop buffersize xs)
        (omega (arith, length-drop buffersize xs))

held-update : (m : List ℕ) → length (update reset m).held ≡ length m % 64
held-update m =
    ap (λ t. length t.held) (update_lem reset m reset-IsValid)
    ∙ length-absorb_all (reset_state, []) m (omega arith)
    ∙ omega arith

bytes-update : (m : List ℕ) → (update reset m).bytes ≡ length m % 2 ^ 64
bytes-update m = ap (λ t. t.bytes) (update_lem reset m reset-IsValid) ∙ omega arith

pub length-little_endian : (n x : ℕ) → length (little_endian n x) ≡ n
unfolding little_endian
length-little_endian zero x = refl
length-little_endian (suc n) x = ap suc (length-little_endian n (x / 256))

-- A padded message is a whole number of blocks.
length-padded : (m : List ℕ) → length (padded m) ≡ length (padded m) / 64 * 64
unfolding padded
length-padded m = omega (
  arith,
  length-append m
      ((0x80 ∷ zero_bytes ((119 - length m % 64) % 64)) ++ little_endian 8 (length m * 8 % 2 ^ 64)),
  length-append (zero_bytes ((119 - length m % 64) % 64)) (little_endian 8 (length m * 8 % 2 ^ 64)),
  length-replicate {A = ℕ} ((119 - length m % 64) % 64) 0,
  length-little_endian 8 (length m * 8 % 2 ^ 64),
)

padding_size_lem : (u : ℕ) → u < 64 → padding_size u - 1 ≡ (119 - u) % 64
unfolding padding_size
padding_size_lem u h = ground arith

-- What Final feeds is the padding of the definition.
finish-eq-update : (m : List ℕ) → finish (update reset m) ≡ update reset (padded m)
unfolding finish padded
finish-eq-update m =
    let zeros = (119 - length m % 64) % 64 in
    let last = little_endian 8 (length m * 8 % 2 ^ 64) in
    let c = update reset m in
    ap₂ (λ z l. update (update c (0x80 ∷ zero_bytes z)) (little_endian 8 l))
      {x = padding_size (length c.held) - 1} {u = c.bytes * 2 ^ 3 % 2 ^ 64}
      (padding_size_lem (length c.held) (omega (arith, held-update m))
        ∙ ap (λ t. (119 - t) % 64) (held-update m))
      (omega (arith, bytes-update m))
    ∙ update-update c (0x80 ∷ zero_bytes zeros) last (update-IsValid reset m reset-IsValid)
    ∙ update-update reset m ((0x80 ∷ zero_bytes zeros) ++ last) reset-IsValid

-- A message hashed in any pieces by Update, and then Final, give the digest that RFC 1321
-- defines for the whole message, with MD5State::UpdateState as its compression.
pub final-update_each :
    (pieces : List (List ℕ)) → final (update_each reset pieces) ≡ rfc1321 (joined pieces)
unfolding final rfc1321 hash
final-update_each pieces =
    let m = joined pieces in
    ap (λ t. hash (finish t)) (update_each-eq-update reset pieces reset-IsValid)
    ∙ ap hash (finish-eq-update m ∙ update_lem reset (padded m) reset-IsValid)
    ∙ ap (λ t. hash (as_context t (length (padded m) % 2 ^ 64)))
        (absorb_blocks (length (padded m) / 64) reset_state (padded m) (length-padded m))

pub final-update : (m : List ℕ) → final (update reset m) ≡ rfc1321 m
unfolding update_each joined
final-update m = final-update_each (m ∷ []) ∙ ap rfc1321 (append-nil m)

pub length-rfc1321 : (m : List ℕ) → length (rfc1321 m) ≡ 16
unfolding rfc1321 little_endian
length-rfc1321 m = refl
