-- ===== src/Creator.antt =====
-- par2creator.h and par2creator.cpp: the sizes that a creation chooses from its files and options.
-- A file is its size; messages are left out, and `none` is the result `false`.
pub mod Sizing
pub mod Counts
pub mod Search
pub mod Largest
pub mod Blocks
pub mod Allocation
pub mod Exponents
pub mod Rounds
pub mod Whole
pub mod Placement
pub mod Schemes
pub mod Limit
pub mod Redundancy
use par2tbb.Base.{ℕ, ◌%◌, ◌^◌, Bool}

-- CommandLine::Scheme: how the recovery blocks are spread over the files.
pub data Scheme : Type 0 where
  unknown : Scheme
  variable : Scheme
  limited : Scheme
  uniform : Scheme

pub record Creator : Type 0 where
  pub blocksize : ℕ
  pub chunksize : ℕ
  pub sourceblockcount : ℕ
  pub recoveryblockcount : ℕ
  pub recoveryfilecount : ℕ
  pub recoveryfilescheme : Scheme
  pub firstrecoveryblock : ℕ
  pub largestfilesize : ℕ
  pub deferhashcomputation : Bool

-- Values of the types u32 and u64.
abbrev pub u32 : ℕ → ℕ
u32 n = n % 2 ^ 32

abbrev pub u64 : ℕ → ℕ
u64 n = n % 2 ^ 64
