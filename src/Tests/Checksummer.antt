-- ===== src/Tests/Checksummer.antt =====
-- The theorems on filechecksummer.cpp for a file of six bytes and blocks of four.
use par2tbb.Base.{◌≡◌, arith, refl, [], ◌∷◌, take, true}
use par2tbb.Crc.{window_table, window_mask, block_crc}
use par2tbb.Md5.{reset}
use par2tbb.Md5.Stream.{zero_bytes}
use par2tbb.Md5.Digest.{rfc1321}
use par2tbb.Checksummer.{Disk, Summer, start, step, jump, fill, filled, blank_rest, take_in, read}
use par2tbb.Checksummer.{rescan, keep_rest, slide, file_hashes, head_size, update_hashes}
use par2tbb.Checksummer.Jump.{started, stepped}
use par2tbb.Checksummer.Jump.{IsFresh, Run}
use par2tbb.Checksummer.Run.{Run-checksum, Run-hashes}

abbrev six_bytes : Disk
six_bytes = record { contents = 1 ∷ 2 ∷ 3 ∷ 4 ∷ 5 ∷ 6 ∷ []; readable = λ offset len. true }

abbrev fresh : Summer
fresh = record {
  blocksize = 4;
  windowtable = window_table 4;
  windowmask = window_mask 4;
  filesize = 6;
  currentoffset = 0;
  buffer = zero_bytes 8;
  outpointer = 0;
  inpointer = 4;
  tailpointer = 0;
  readoffset = 0;
  checksum = 0;
  contextfull = reset;
  context16k = reset;
}

fresh-IsFresh : IsFresh six_bytes fresh
fresh-IsFresh = record {
  some_block = omega arith;
  some_file = omega arith;
  size = refl;
  room = refl;
  tables = refl;
  mask = refl;
  head = refl;
}

abbrev begun : Summer
begun = (start six_bytes fresh).1

begun-Run : Run six_bytes fresh begun
unfolding start rescan fill filled read
begun-Run = started refl

abbrev moved_on : Summer
moved_on = (step six_bytes begun).1

moved-Run : Run six_bytes fresh moved_on
unfolding start rescan fill filled read step slide blank_rest take_in
moved-Run = stepped begun-Run refl

-- After Start and one Step.
Run-checksum_example : moved_on.checksum ≡ block_crc (2 ∷ 3 ∷ 4 ∷ 5 ∷ [])
unfolding start rescan fill filled read step slide blank_rest take_in update_hashes
Run-checksum_example = Run-checksum six_bytes fresh moved_on fresh-IsFresh moved-Run (omega arith)

Run-hashes_example :
    file_hashes begun
    ≡ (rfc1321 (1 ∷ 2 ∷ 3 ∷ 4 ∷ 5 ∷ 6 ∷ []), rfc1321 (take head_size (1 ∷ 2 ∷ 3 ∷ 4 ∷ 5 ∷ 6 ∷ [])))
unfolding start rescan fill filled read blank_rest take_in update_hashes
Run-hashes_example = Run-hashes six_bytes fresh begun fresh-IsFresh begun-Run refl

abbrev at_end : Summer
at_end = record fresh { currentoffset = 6 }

-- After a jump over the only whole block, the window holds bytes of that block behind the end of
-- the file.
stale_window : take 4 (jump six_bytes 4 begun).1.buffer ≡ 5 ∷ 6 ∷ 3 ∷ 4 ∷ []
unfolding start rescan fill filled read blank_rest take_in update_hashes jump keep_rest
stale_window = refl
