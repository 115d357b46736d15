-- ===== src/Matching.antt =====
-- verificationhashtable.h and verificationhashtable.cpp: the table of the blocks of the target
-- files, by the CRC and the MD5 hash of each, and the comparison of hashes of md5.h.
-- A pointer to an entry is the entry, told from others by its number; the entries with the same
-- CRC and hash, which `same` links, are a list. A null pointer is an empty tree or list.
pub mod Lookup
pub mod Find
use par2tbb.Base.{ℕ, zero, suc, ◌+◌, ◌-◌, ◌*◌, ◌%◌, ltb, ◌==◌, if◌then◌else◌, ◌&&◌, ◌||◌}
use par2tbb.Base.{Bool, true, false, not, Option, none, some, List, [], ◌∷◌, ◌++◌}
use par2tbb.ReedSolomon.Input.{nth}

-- MD5Hash::operator<, with `index` going down from 15.
unfoldable pub hash_less_from : ℕ → List ℕ → List ℕ → Bool
hash_less_from zero a b = ltb (nth a 0) (nth b 0)
hash_less_from (suc index) a b =
    let rest = hash_less_from index a b in
    if nth a (suc index) == nth b (suc index)
    then rest
    else ltb (nth a (suc index)) (nth b (suc index))

unfoldable pub hash_less : List ℕ → List ℕ → Bool
hash_less a b = hash_less_from 15 a b

-- MD5Hash::operator==
unfoldable pub hash_same : List ℕ → List ℕ → Bool
hash_same [] [] = true
hash_same [] (y ∷ ys) = false
hash_same (x ∷ xs) [] = false
hash_same (x ∷ xs) (y ∷ ys) = x == y && hash_same xs ys

-- VerificationHashEntry; `next` is the number of the entry after it in its file.
pub record Entry : Type 0 where
  pub number : ℕ
  pub source_file : ℕ
  pub data_block : ℕ
  pub first_block : Bool
  pub crc : ℕ
  pub hash : List ℕ
  pub next : Option ℕ

abbrev pub is_nil : List (ℕ × List ℕ) → Bool
is_nil [] = true
is_nil (x ∷ xs) = false

-- The binary tree: an entry, the further ones with the same key, and the two sides.
pub data Tree : Type 0 where
  empty : Tree
  node : Entry → List Entry → Tree → Tree → Tree

-- operator< and operator> of VerificationHashEntry, against a key.
unfoldable pub key_less : Entry → ℕ → List ℕ → Bool
key_less e crc hash = ltb e.crc crc || e.crc == crc && hash_less e.hash hash

unfoldable pub key_more : Entry → ℕ → List ℕ → Bool
key_more e crc hash = ltb crc e.crc || e.crc == crc && hash_less hash e.hash

-- VerificationHashEntry::Insert
unfoldable pub insert : Entry → Tree → Tree
insert e empty = node e [] empty empty
insert e (node p same left right) =
    let in_right = insert e right in
    let in_left = insert e left in
    if key_less p e.crc e.hash
    then node p same left in_right
    else if key_more p e.crc e.hash
    then node p same in_left right
    else node p (same ++ e ∷ []) left right

-- VerificationHashEntry::Search for a CRC
unfoldable pub search_crc : ℕ → Tree → Tree
search_crc crc empty = empty
search_crc crc (node p same left right) =
    let in_right = search_crc crc right in
    let in_left = search_crc crc left in
    if ltb p.crc crc then in_right else if ltb crc p.crc then in_left else node p same left right

-- The loop of VerificationHashEntry::Search for a hash, and the search, which starts at an entry.
unfoldable pub search_key : ℕ → List ℕ → Tree → Tree
search_key crc hash empty = empty
search_key crc hash (node p same left right) =
    let in_right = search_key crc hash right in
    let in_left = search_key crc hash left in
    if key_less p crc hash
    then in_right
    else if key_more p crc hash
    then in_left
    else node p same left right

unfoldable pub search_hash : List ℕ → Tree → Tree
search_hash hash empty = empty
search_hash hash (node p same left right) = search_key p.crc hash (node p same left right)

-- VerificationHashTable
pub record HashTable : Type 0 where
  pub hashmask : ℕ
  pub table : ℕ → Tree

-- The loop of SetLimit; from 256 it doubles at most eight times.
unfoldable pub grow : ℕ → ℕ → ℕ → ℕ
grow zero limit mask = mask
grow (suc fuel) limit mask =
    let rest = grow fuel limit (mask * 2) in if ltb mask limit && ltb mask 65536 then rest else mask

-- SetLimit
unfoldable pub set_limit : ℕ → HashTable
set_limit limit = record { hashmask = grow 8 limit 256 - 1; table = λ i. empty }

-- `crc & hashmask`: the mask is one less than a power of 2.
unfoldable pub slot : HashTable → ℕ → ℕ
slot h crc = crc % (h.hashmask + 1)

-- The table after the entry is inserted in its tree.
unfoldable pub store : Entry → HashTable → HashTable
store e h = record h { table = λ i. if i == slot h e.crc then insert e (h.table i) else h.table i }

-- The entries that Load makes for one file, from block `blocknumber` on, out of the CRCs and
-- hashes of its verification packet; the data blocks and the numbers go up by one.
unfoldable pub block_entries : ℕ → ℕ → ℕ → List (ℕ × List ℕ) → List Entry
block_entries source_file number blocknumber [] = []
block_entries source_file number blocknumber ((crc, hash) ∷ rest) =
    let entry : Entry = record {
      number = number;
      source_file = source_file;
      data_block = number;
      first_block = blocknumber == 0;
      crc = crc;
      hash = hash;
      next = if is_nil rest then none else some (number + 1);
    } in
    entry ∷ block_entries source_file (number + 1) (blocknumber + 1) rest

-- Inserting entries in turn.
unfoldable pub store_all : List Entry → HashTable → HashTable
store_all [] h = h
store_all (e ∷ entries) h = store_all entries (store e h)

-- Load
unfoldable pub load : ℕ → ℕ → List (ℕ × List ℕ) → HashTable → HashTable
load source_file number checks h = store_all (block_entries source_file number 0 checks) h

-- Lookup by CRC, and then by hash
unfoldable pub lookup_crc : HashTable → ℕ → Tree
lookup_crc h crc = if h.hashmask == 0 then empty else search_crc crc (h.table (slot h crc))

unfoldable pub lookup : HashTable → ℕ → List ℕ → Tree
lookup h crc hash = search_hash hash (search_crc crc (h.table (slot h crc)))
