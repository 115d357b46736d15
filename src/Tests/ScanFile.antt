-- ===== src/Tests/ScanFile.antt =====
-- A file of one block, which is in the verification hash table.

use par2tbb.Base.{
  ℕ, ◌==◌, if◌then◌else◌, ◌+◌, ◌≡◌, arith, refl, List, [], ◌∷◌, none, some, true, false,
}
use par2tbb.Crc.{window_table, window_mask, block_crc, update_block, update_char, ccitt_table}
use par2tbb.Crc.{generate_table, table_rounds, table_round}
use par2tbb.Md5.{little_endian, padding_size, words, update_loop, update, reset, final, finish}
use par2tbb.Md5
use par2tbb.Md5.Compress.{
  update_state, pass1, pass2, pass3, pass4, four_rounds, round, rol, f1, f2, f3, f4,
}
use par2tbb.Checksummer.{
  Disk, file_size, read, start, jump, fill, filled, blank_rest, take_in, update_hashes, rescan,
  finish_file, file_hashes, head_size, hash, block_length,
}
use par2tbb.Checksummer.Jump.{IsFresh}
use par2tbb.Matching.{Entry, HashTable, set_limit, grow, slot, store, insert, lookup, search_crc}
use par2tbb.Matching.{
  search_hash, search_key, key_less, key_more, hash_less, hash_less_from, hash_same,
}
use par2tbb.Matching.Find.{Blocks, find_match, choose, single, wrong_length}
use par2tbb.Repairer.ScanFile.{
  Packets, Progress, new_summer, scan_data_file, scan_loop, scan_round, found_or_not, matched,
  take_match, set_block, entry_at, verdict, compared, confirm, is_same_file, first_progress,
}
use par2tbb.Repairer.ScanFile.Verdict.{IsMatch, scan_data_file_full_match}
use par2tbb.Repairer.ScanFile.Total.{scan_data_file_ends}

abbrev digest : List ℕ
digest = 8 ∷ 214 ∷ 192 ∷ 90 ∷ 33 ∷ 81 ∷ 42 ∷ 121 ∷ 161 ∷ 223 ∷ 235 ∷ 157 ∷ 42 ∷ 143 ∷ 38 ∷ 47 ∷ []

abbrev only_entry : Entry
only_entry = record {
  number = 0;
  source_file = 5;
  data_block = 0;
  first_block = true;
  crc = 3057449933;
  hash = digest;
  next = none;
}

abbrev only_table : HashTable
only_table = store only_entry (set_limit 1)

abbrev four_bytes : Disk
four_bytes = record { contents = 1 ∷ 2 ∷ 3 ∷ 4 ∷ []; readable = λ offset len. true }

abbrev not_found : Blocks
not_found = record { disk_file = λ i. none; size = λ i. 4; complete = λ i. false }

abbrev packets_of : ℕ → Packets
packets_of n = record { blockcount = 1; filesize = 4; hashfull = digest; hash16k = digest }

four_bytes-IsFresh : IsFresh four_bytes (new_summer four_bytes 4 (window_table 4) (window_mask 4))
unfolding new_summer
four_bytes-IsFresh = record {
  some_block = omega arith;
  some_file = omega arith;
  size = refl;
  room = refl;
  tables = refl;
  mask = refl;
  head = refl;
}

-- What the scan gives.
abbrev scanned : Progress
scanned = record (first_progress (some 5) not_found) {
  count = 1;
  blocks = record not_found { disk_file = λ n. if n == 0 then some 7 else none };
  found = (0, 0) ∷ [];
}

scans :
    scan_data_file four_bytes 7 only_table
      (only_entry ∷ [])
      packets_of
      true
      5
      4
      (window_table 4)
      (window_mask 4)
      (some 5)
      not_found
    ≡ some scanned
unfolding scan_data_file new_summer start fill filled blank_rest take_in update_hashes rescan read
    head_size scan_loop scan_round find_match lookup search_crc search_hash search_key key_less
    key_more hash_less hash_less_from choose single wrong_length hash hash_same slot set_limit grow
    store insert found_or_not matched take_match set_block entry_at jump finish_file verdict
    compared confirm is_same_file file_hashes block_crc update_block update_char ccitt_table
    generate_table table_rounds table_round final finish Md5.hash update update_loop words
    little_endian padding_size update_state pass1 pass2 pass3 pass4 four_rounds round rol f1 f2 f3
    f4 block_length
scans = refl

scan_data_file_full_match_example : (n : ℕ) × IsMatch packets_of four_bytes.contents scanned n
scan_data_file_full_match_example =
    scan_data_file_full_match four_bytes 7 only_table (only_entry ∷ []) packets_of true 5 4
      (window_table 4) (window_mask 4) (some 5) not_found scanned four_bytes-IsFresh scans refl

scan_data_file_ends_example :
    (q : Progress) × (scan_data_file four_bytes 7 only_table
        (only_entry ∷ [])
        packets_of
        true
        (file_size four_bytes + 1)
        4
        (window_table 4)
        (window_mask 4)
        (some 5)
        not_found
      ≡ some q)
scan_data_file_ends_example =
    scan_data_file_ends four_bytes 7 only_table (only_entry ∷ []) packets_of true 4 (window_table 4)
      (window_mask 4) (some 5) not_found (λ offset len. refl) four_bytes-IsFresh
      (λ n. (omega arith, omega arith))
