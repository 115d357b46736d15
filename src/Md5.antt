-- ===== src/Md5.antt =====
-- MD5Context of md5.h and md5.cpp. The 64-byte buffer is kept as its first `used` bytes, `held`;
-- what lies behind them is never read. Update over a buffer takes its bytes as a list.
pub mod Compress
pub mod Stream
pub mod Digest
use Compress.{State, reset_state, update_state}
use Prim.Native.Nat.{bit_or}
use par2tbb.Base.{ℕ, zero, suc, ◌+◌, ◌-◌, ◌*◌, ◌/◌, ◌%◌, ◌^◌, min, ltb, leb, if◌then◌else◌}
use par2tbb.Base.{List, [], ◌∷◌, ◌++◌, length, take, drop, replicate}

abbrev pub buffersize : ℕ
buffersize = 64

pub record Context : Type 0 where
  pub state : State
  pub held : List ℕ
  pub bytes : ℕ

-- The constructor and Reset.
abbrev pub reset : Context
reset = record { state = reset_state; held = []; bytes = 0 }

-- The little-endian words of a block.
unfoldable pub words : List ℕ → List ℕ
words (b0 ∷ b1 ∷ b2 ∷ b3 ∷ rest) =
    bit_or (bit_or (bit_or (b3 * 2 ^ 24) (b2 * 2 ^ 16)) (b1 * 2 ^ 8)) b0 ∷ words rest
words _ = []

-- The `while` loop of Update and the remainder after it. Each round of the loop takes at least
-- one byte, so one more than the number of bytes is fuel enough.
unfoldable pub update_loop : ℕ → State → List ℕ → List ℕ → State × List ℕ
update_loop zero s held current = (s, held)
update_loop (suc fuel) s held current =
    let have = buffersize - length held in
    let rest =
      update_loop fuel (update_state (words (held ++ take have current)) s) []
        (drop have current) in
    if leb buffersize (length held + length current) then rest else (s, held ++ current)

-- Update over a buffer.
unfoldable pub update : Context → List ℕ → Context
update c current =
    let (s, held) = update_loop (suc (length current)) c.state c.held current in
    record { state = s; held = held; bytes = (c.bytes + length current) % 2 ^ 64 }

-- The loop of whole buffers of Update over zero bytes, and its remainder.
unfoldable pub zeros_loop : ℕ → Context → ℕ → Context
zeros_loop zero c n = c
zeros_loop (suc fuel) c n =
    let rest = zeros_loop fuel (update c (replicate buffersize 0)) (n - buffersize) in
    if leb buffersize n then rest else if ltb 0 n then update c (replicate n 0) else c

-- Update over `n` zero bytes.
unfoldable pub update_zeros : Context → ℕ → Context
update_zeros c n =
    let size = min (buffersize - length c.held) n in
    if ltb 0 (length c.held)
    then zeros_loop (suc n) (update c (replicate size 0)) (n - size)
    else zeros_loop (suc n) c n

-- `n` bytes of a number, the lowest first.
unfoldable pub little_endian : ℕ → ℕ → List ℕ
little_endian zero x = []
little_endian (suc n) x = x % 256 ∷ little_endian n (x / 256)

-- How many bytes Final adds before the length.
unfoldable pub padding_size : ℕ → ℕ
padding_size used =
    if leb (buffersize - 8) used then buffersize - 8 + buffersize - used else buffersize - 8 - used

-- Hash: the state words as bytes.
unfoldable pub hash : Context → List ℕ
hash c =
    little_endian 4 c.state.a
    ++ little_endian 4 c.state.b
    ++ little_endian 4 c.state.c
    ++ little_endian 4 c.state.d

-- Final, up to reading out the hash.
unfoldable pub finish : Context → Context
finish c =
    let bits = c.bytes * 2 ^ 3 % 2 ^ 64 in
    let padding = padding_size (length c.held) in
    update (update c (0x80 ∷ replicate (padding - 1) 0)) (little_endian 8 bits)

unfoldable pub final : Context → List ℕ
final c = hash (finish c)
