-- ===== src/ReedSolomon/Input.antt =====
-- SetInput, and the `gcd` that picks the base values.
pub mod Gcd
use par2tbb.Base.{ℕ, zero, suc, ◌+◌, ◌%◌, ◌^◌, ltb, leb, ◌==◌, if◌then◌else◌}
use par2tbb.Base.{Bool, ◌||◌, Option, none, some, List, [], ◌∷◌, ◌++◌}
use par2tbb.Base.{replicate, true, ◌≡◌, refl, ap}
use par2tbb.Galois.{limit, alog_of, galois16}

-- An element of an array.
abbrev pub nth : List ℕ → ℕ → ℕ
nth [] i = 0
nth (x ∷ xs) zero = x
nth (x ∷ xs) (suc i) = nth xs i

-- The loop of `gcd`; each round makes the sum of the two smaller, so their sum is fuel enough.
unfoldable pub gcd_loop : ℕ → ℕ → ℕ → ℕ
gcd_loop zero a b = a + b
gcd_loop (suc fuel) a b =
    let left = gcd_loop fuel (a % b) b in
    let right = gcd_loop fuel a (b % a) in
    if a == 0 || b == 0 then a + b else if ltb b a then left else right

unfoldable pub gcd : ℕ → ℕ → ℕ
gcd a b = if a == 0 || b == 0 then 0 else gcd_loop (a + b) a b

-- What SetInput has stored after some of the inputs.
pub record Inputs : Type 0 where
  pub present_index : List ℕ
  pub missing_index : List ℕ
  pub database : List ℕ

abbrev pub no_inputs : Inputs
no_inputs = record { present_index = []; missing_index = []; database = [] }

-- The two index arrays after an input.
abbrev pub record_input : ℕ → Bool → ℕ → Inputs → Inputs
record_input index here base s = record {
  present_index = if here then s.present_index ++ index ∷ [] else s.present_index;
  missing_index = if here then s.missing_index else s.missing_index ++ index ∷ [];
  database = s.database ++ base ∷ [];
}

-- SetInput of Galois8, at `index` and `base`, over the inputs from there on; `base` is a `u8`.
unfoldable pub set_input8 : ℕ → ℕ → List Bool → Inputs → Inputs
set_input8 index base [] s = s
set_input8 index base (here ∷ present) s =
    set_input8 (index + 1) ((base + 1) % 2 ^ 8) present (record_input index here base s)

-- `while (gcd(G::Limit, logbase) != 1) logbase++;` with the given fuel.
unfoldable pub next_logbase : ℕ → ℕ → ℕ
next_logbase zero logbase = logbase
next_logbase (suc fuel) logbase =
    let rest = next_logbase fuel (logbase + 1) in
    if gcd (limit galois16) logbase == 1 then logbase else rest

-- SetInput of Galois16; `none` if the usable logs run out. From any log, 65536 rounds of the
-- inner loop reach one that is coprime to 65535.
unfoldable pub set_input16 : ℕ → ℕ → List Bool → Inputs → Option Inputs
set_input16 index logbase [] s = some s
set_input16 index logbase (here ∷ present) s =
    let log = next_logbase (2 ^ 16) logbase in
    let rest =
      set_input16 (index + 1) (log + 1) present
        (record_input index here (alog_of galois16 log) s) in
    if leb (limit galois16) log then none else rest

-- SetInput of Galois8 and of Galois16 for a number of inputs that are all present.
unfoldable pub set_all8 : ℕ → ℕ → ℕ → Inputs → Inputs
set_all8 index base zero s = s
set_all8 index base (suc count) s =
    set_all8 (index + 1) ((base + 1) % 2 ^ 8) count (record s {
      present_index = s.present_index ++ index ∷ [];
      database = s.database ++ base ∷ [];
    })

unfoldable pub set_all16 : ℕ → ℕ → ℕ → Inputs → Option Inputs
set_all16 index logbase zero s = some s
set_all16 index logbase (suc count) s =
    let log = next_logbase (2 ^ 16) logbase in
    let rest = set_all16 (index + 1) (log + 1) count (record s {
      present_index = s.present_index ++ index ∷ [];
      database = s.database ++ alog_of galois16 log ∷ [];
    }) in
    if leb (limit galois16) log then none else rest

-- The overload of SetInput for a number of inputs stores what the overload for flags does when
-- all are set, and fails in the same cases, for Galois8 and Galois16.
pub set_all-eq-set_input :
    (index base logbase count : ℕ) (s : Inputs)
    → (set_all8 index base count s ≡ set_input8 index base (replicate count true) s)
      × (set_all16 index logbase count s ≡ set_input16 index logbase (replicate count true) s)
unfolding set_all8 set_input8 set_all16 set_input16
set_all-eq-set_input index base logbase zero s = (refl, refl)
set_all-eq-set_input index base logbase (suc count) s =
    let log = next_logbase (2 ^ 16) logbase in
    (
      (set_all-eq-set_input (index + 1) ((base + 1) % 2 ^ 8) 0 count
          (record_input index true base s)).0,
      ap (λ t. if leb (limit galois16) log then none else t)
          (set_all-eq-set_input (index + 1) 0 (log + 1) count
            (record_input index true (alog_of galois16 log) s)).1,
    )
