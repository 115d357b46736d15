-- ===== src/Tests/Matching.antt =====
-- The theorems on verificationhashtable.h at a table of two entries.
use par2tbb.Base.{◌≡◌, arith, refl, [], ◌∷◌, ◌++◌, none, some, true, false, replicate}
use par2tbb.Checksummer.{Summer, hash, block_length}
use par2tbb.Md5.{reset, final, finish, update, update_loop, words, little_endian, padding_size}
use par2tbb.Md5.Compress.{
  update_state, pass1, pass2, pass3, pass4, four_rounds, round, rol, f1, f2, f3, f4,
}
use par2tbb.Matching.{
  Entry, HashTable, set_limit, store, lookup, slot, grow, insert, key_less, key_more, hash_less,
  hash_less_from, search_crc, search_key, search_hash,
}
use par2tbb.ReedSolomon.Input.{nth}
use par2tbb.Base.{ap, ℕ, List, ◌==◌, if◌then◌else◌}
use par2tbb.Matching.Lookup.{chain, lookup-store, lookup-store_other}
use par2tbb.Matching.Find.{
  Blocks, IsUsable, find_match, find_match-IsUsable, choose, several, prefer, preferred, usable,
  is_set, wrong_length,
}

abbrev first_entry : Entry
first_entry = record {
  number = 0;
  source_file = 0;
  data_block = 0;
  first_block = true;
  crc = 1000;
  hash = replicate 16 7;
  next = some 1;
}

abbrev second_entry : Entry
second_entry = record first_entry { number = 1; data_block = 1; first_block = false; next = none }

abbrev one_entry : HashTable
one_entry = store first_entry (set_limit 2000)

lookup-store_example :
    chain (lookup (store second_entry one_entry) 1000 (replicate 16 7))
    ≡ chain (lookup one_entry 1000 (replicate 16 7)) ++ second_entry ∷ []
lookup-store_example = lookup-store second_entry one_entry

-- The two hashes differ in every byte.
seven-differs : ¬ ((second_entry.crc ≡ 1000) × (second_entry.hash ≡ replicate 16 8))
seven-differs (c, h) =
    let first : nth second_entry.hash 0 ≡ 8 = ap (λ a. nth a 0) h in absurd (omega arith)

lookup-store_other_example :
    chain (lookup (store second_entry one_entry) 1000 (replicate 16 8))
    ≡ chain (lookup one_entry 1000 (replicate 16 8))
lookup-store_other_example =
    lookup-store_other second_entry one_entry 1000 (replicate 16 8) refl refl seven-differs

-- Nine bytes into a file of twelve, the window of four bytes has three of the file. Of the two
-- entries with its CRC and hash the second has a block of three bytes.
abbrev found_nothing : Blocks
found_nothing = record {
  disk_file = λ i. none;
  size = λ i. if i == 1 then 3 else 4;
  complete = λ i. false;
}

abbrev short_window : Summer
short_window = record {
  blocksize = 4;
  windowtable = λ i. 0;
  windowmask = 0;
  filesize = 12;
  currentoffset = 9;
  buffer = 9 ∷ 1 ∷ 1 ∷ 1 ∷ 0 ∷ 0 ∷ 0 ∷ 0 ∷ [];
  outpointer = 1;
  inpointer = 5;
  tailpointer = 4;
  readoffset = 12;
  checksum = 1000;
  contextfull = reset;
  context16k = reset;
}

abbrev window_hash : List ℕ
window_hash =
    232 ∷ 253 ∷ 8 ∷ 76 ∷ 153 ∷ 203 ∷ 12 ∷ 241 ∷ 76 ∷ 171 ∷ 13 ∷ 198 ∷ 11 ∷ 146 ∷ 168 ∷ 144 ∷ []

abbrev short_entry : Entry
short_entry = record second_entry { hash = window_hash }

abbrev two_entries : HashTable
two_entries = store short_entry (store (record first_entry { hash = window_hash }) (set_limit 2000))

short_window-hash : hash short_window ≡ window_hash
unfolding hash final finish update update_loop words little_endian padding_size update_state pass1
    pass2 pass3 pass4 four_rounds round rol f1 f2 f3 f4 par2tbb.Md5.hash
short_window-hash = refl

short_window-found :
    find_match two_entries found_nothing short_window 0 none (some 0) ≡ (some short_entry, false)
unfolding find_match lookup store slot set_limit grow insert key_less key_more hash_less
    hash_less_from search_crc search_key search_hash choose several prefer preferred usable is_set
    wrong_length block_length
short_window-found = rw short_window-hash refl

find_match-IsUsable_example :
    IsUsable found_nothing short_window
      (find_match two_entries found_nothing short_window 0 none (some 0)).0
find_match-IsUsable_example =
    find_match-IsUsable two_entries found_nothing short_window 0 (some 0) (omega arith)
