-- ===== src/Galois/Order/Pigeonhole.antt =====
-- An injective map of the numbers below `n` into themselves reaches each of them.
use par2tbb.Base.{ℕ, zero, suc, ◌<◌, ◌≡◌, ◌≢◌, arith, ◌==◌, if◌then◌else◌}
use native.Mathlib.Decide.{ℕ_discrete}

-- `f` with the value `v` in place of `w`.
reroute : (ℕ → ℕ) → ℕ → ℕ → ℕ → ℕ
reroute f w v i = if f i == w then v else f i

module _ (n : ℕ) (f : ℕ → ℕ) (into : (i : ℕ) → i < suc n → f i < suc n)
    (inj : (i j : ℕ) → i < suc n → j < suc n → f i ≡ f j → i ≡ j) where
  reroute-lt : (i : ℕ) → i < n → reroute f n (f n) i < n
  unfolding reroute
  reroute-lt i h = ground (arith, into i, into n, inj i n)

  reroute_inj : (i j : ℕ) → i < n → j < n → reroute f n (f n) i ≡ reroute f n (f n) j → i ≡ j
  unfolding reroute
  reroute_inj i j p q e = ground (arith, inj i j, inj i n, inj j n, into n)

  -- What to look for among the rerouted values.
  sought : ℕ → ℕ
  sought y = if y == n then f n else y

  sought-lt : (y : ℕ) → y < suc n → f n ≢ y → sought y < n
  unfolding sought
  sought-lt y h ne = ground (arith, into n)

  found : (y i : ℕ) → i < n → f n ≢ y → reroute f n (f n) i ≡ sought y → f i ≡ y
  unfolding reroute sought
  found y i h ne e = ground (arith, inj i n)

pub pigeonhole :
    (n : ℕ) (f : ℕ → ℕ)
    → ((i : ℕ) → i < n → f i < n)
    → ((i j : ℕ) → i < n → j < n → f i ≡ f j → i ≡ j)
    → (y : ℕ) → y < n
    → (i : ℕ) × (i < n) × (f i ≡ y)
pigeonhole zero f into inj y h = absurd (omega arith)
pigeonhole (suc n) f into inj y h = elim (ℕ_discrete (f n) y) [
  | yes e ↦ (n, omega arith, e)
  | no ne ↦
      let (i, below, e) =
        pigeonhole n (reroute f n (f n)) (reroute-lt n f into inj) (reroute_inj n f into inj)
          (sought n f into inj y) (sought-lt n f into inj y h ne) in
      (i, omega arith, found n f into inj y i below ne e)
]
