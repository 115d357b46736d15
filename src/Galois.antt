-- ===== src/Galois.antt =====
-- galois.h: the field GF(2^bits) by log and antilog tables, and its operators.
-- A value of `ValueType` is a number below `count`; the tables are arrays, as functions of the
-- index that start at 0 where the source leaves them unset. A template instance is a `Shape`.
pub mod Doubling
pub mod Order
pub mod Tables
pub mod Field
pub mod Power
pub mod Peasant
pub mod Instances
use par2tbb.Base.{ℕ, zero, suc, ◌+◌, ◌-◌, ◌*◌, ◌/◌, ◌%◌, ◌^◌, Bool, ◌||◌, ltb, leb, ◌==◌}
use par2tbb.Base.{if◌then◌else◌}
use par2tbb.Base.Bits.{◌⊕◌}

-- The template arguments.
pub record Shape : Type 0 where
  pub bits : ℕ
  pub generator : ℕ

abbrev pub count : Shape → ℕ
count g = 2 ^ g.bits

abbrev pub limit : Shape → ℕ
limit g = count g - 1

abbrev pub galois8 : Shape
galois8 = record { bits = 8; generator = 0x11D }

abbrev pub galois16 : Shape
galois16 = record { bits = 16; generator = 0x1100B }

pub record Table : Type 0 where
  pub log : ℕ → ℕ
  pub antilog : ℕ → ℕ

-- `a[i] = v`
abbrev pub write : (ℕ → ℕ) → ℕ → ℕ → ℕ → ℕ
write a i v j = if j == i then v else a j

abbrev pub blank : Table
blank = record { log = λ _. 0; antilog = λ _. 0 }

-- `b & Count`: the digit of `b` above the field's.
abbrev pub overflows : Shape → ℕ → Bool
overflows g b = b / count g % 2 == 1

-- `b <<= 1; if (b & Count) b ^= Generator;` on a `u32`.
unfoldable pub double : Shape → ℕ → ℕ
double g b =
    let shifted = b * 2 % 2 ^ 32 in if overflows g shifted then shifted ⊕ g.generator else shifted

-- The loop of the constructor, at index `l` with the rounds that are left.
unfoldable pub fill : Shape → ℕ → ℕ → ℕ → Table → Table
fill g zero l b t = t
fill g (suc n) l b t =
    fill g n (l + 1) (double g b)
      (record { log = write t.log b (l % count g); antilog = write t.antilog l (b % count g) })

unfoldable pub table : Shape → Table
unfolding fill double
table g =
    let t = fill g (limit g) 0 1 blank in
    record { log = write t.log 0 (limit g); antilog = write t.antilog (limit g) 0 }

-- `operator +` and `operator -`
unfoldable pub add : ℕ → ℕ → ℕ
add a b = a ⊕ b

-- `operator *`
unfoldable pub mul : Shape → ℕ → ℕ → ℕ
mul g a b =
    let sum = (table g).log a + (table g).log b in
    if a == 0 || b == 0
    then 0
    else if leb (limit g) sum
    then (table g).antilog (sum - limit g)
    else (table g).antilog sum

-- `operator /`, with the assertions off; the branch for a negative `sum` adds `Limit` first.
unfoldable pub div : Shape → ℕ → ℕ → ℕ
div g a b =
    let t = table g in
    if a == 0
    then 0
    else if b == 0
    then 0
    else if ltb (t.log a) (t.log b)
    then t.antilog (t.log a + limit g - t.log b)
    else t.antilog (t.log a - t.log b)

-- `operator *=`
unfoldable pub mul_assign : Shape → ℕ → ℕ → ℕ
mul_assign g a b =
    let sum = (table g).log a + (table g).log b in
    let product =
      if leb (limit g) sum then (table g).antilog (sum - limit g) else (table g).antilog sum in
    if a == 0 || b == 0 then 0 else product

-- `operator /=`, which leaves the value as it is where the divisor is 0.
unfoldable pub div_assign : Shape → ℕ → ℕ → ℕ
div_assign g a b =
    let t = table g in
    if a == 0
    then a
    else if b == 0
    then a
    else if ltb (t.log a) (t.log b)
    then t.antilog (t.log a + limit g - t.log b)
    else t.antilog (t.log a - t.log b)

-- The tail that `pow`, `operator ^` and `operator ^=` share: the product of a log and an
-- exponent, an `unsigned int`, is folded once at `Bits` and then reduced.
unfoldable pub power_at : Shape → ℕ → ℕ → ℕ
power_at g a n =
    let product = (table g).log a * n % 2 ^ 32 in
    let sum = product / count g + product % count g in
    if leb (limit g) sum then (table g).antilog (sum - limit g) else (table g).antilog sum

-- `pow` and `operator ^`
unfoldable pub pow : Shape → ℕ → ℕ → ℕ
pow g a n = if n == 0 then 1 else if a == 0 then 0 else power_at g a n

-- `operator ^=`, whose first test is on 1.
unfoldable pub pow_assign : Shape → ℕ → ℕ → ℕ
pow_assign g a n = if n == 1 then 1 else if a == 0 then a else power_at g a n

-- `Log` and `ALog`
unfoldable pub log_of : Shape → ℕ → ℕ
log_of g a = (table g).log a

unfoldable pub alog_of : Shape → ℕ → ℕ
alog_of g a = (table g).antilog a
