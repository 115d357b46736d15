-- ===== src/Lib.antt =====
-- Verification of par2tbb, a creator and repairer of PAR2 recovery files, in its computing core.
--
-- The program splits a set of files into data blocks. Recovery blocks are sums of the data blocks,
-- each times a power of its base value, in a field of 2^8 (PAR1) or 2^16 (PAR2) elements. To repair,
-- it scans damaged files with a window that slides by one byte, compares the window's CRC and then
-- its MD5 hash with those of the data blocks, and solves linear equations for the missing blocks.
--
-- The parts and their files:
-- - Base: shared names of the libraries, Boolean tests, lists by native numbers, and exclusive or.
-- - Galois models galois.h: GaloisTable's constructor (`table`), operator+ (`add`), operator*
--   (`mul`), operator/ (`div`), their assigning forms, pow, operator^= (`pow_assign`), Log and ALog.
--   A field is a `Shape`; values are numbers below `count`.
-- - Crc models crc.h and crc.cpp: GenerateCRC32Table, CRCUpdateChar, CRCUpdateBlock in both forms,
--   GenerateWindowTable (`window_table`), ComputeWindowMask (`window_mask`) and CRCSlideChar.
-- - Md5 models md5.h and md5.cpp: UpdateState (`Md5.Compress`), both forms of Update, Final and Hash.
--   The buffer is the list of the bytes that are in it.
-- - ReedSolomon models reedsolomon.h: SetOutput, Compute and GaussElim. A matrix is a function of
--   row and column. ReedSolomon.Input models gcd and SetInput of reedsolomon.cpp, and
--   ReedSolomon.Process models Process, the portable loop of InternalProcess for Galois16 and the
--   GaloisLongMultiplyTable of galois.h.
-- - Checksummer models FileCheckSummer of filechecksummer.h and filechecksummer.cpp: Start, Step,
--   Jump, Fill, UpdateHashes, GetFileHashes and the hashes of a short block. Pointers into the
--   buffer are offsets. DiskFile is a parameter: a file's bytes, and which reads succeed.
-- - Matching models verificationhashtable.h and verificationhashtable.cpp, and the comparisons of
--   MD5Hash: Insert, Search, SetLimit, Load, Lookup and FindMatch. It reads the window through the
--   definitions of Checksummer.
-- - DataBlock models datablock.h and datablock.cpp: the methods of DataBlock, ReadData and WriteData,
--   with DiskFile::Write as a parameter like the reads. DataBlock.Split models the loops that cut a
--   file into blocks: InitialiseSourceBlocks of par2creatorsourcefile.cpp and SetBlocks of
--   par2repairersourcefile.cpp. DataBlock.Allocate models AllocateSourceBlocks of par2repairer.cpp.
-- - Creator models choices of par2creator.cpp: ComputeBlockSizeAndBlockCount (`Creator.Sizing`),
--   ComputeRecoveryBlockCount and CalculateProcessBlockSize (`Creator.Redundancy`),
--   ComputeRecoveryFileCount and the file allocations of InitialiseOutputFiles
--   (`Creator.Allocation`). A file is its size.
-- - Repairer models the packets in par2repairer.cpp: the five Load methods, their calls for the
--   packets of a set, SetBlockCount and CheckPacketConsistency, over the contents of packets. The
--   recovery packets are kept as in the build for concurrent processing. What Load of a packet does
--   with the bytes is the matter of Packets; here it gives a packet or none.
-- - Packets models par2fileformat.h, criticalpacket.h, criticalpacket.cpp and the packets over them:
--   mainpacket.cpp (`Packets.Main`), descriptionpacket.cpp (`Packets.Description`),
--   verificationpacket.cpp (`Packets.Verification`), recoverypacket.cpp (`Packets.Recovery`), with
--   their headers, and creatorpacket.cpp. A packet is made as bytes and loaded from bytes.
-- - Creator.Placement models the end of InitialiseOutputFiles of par2creator.cpp: the place of each
--   packet in the recovery files.
-- - Repairer.ScanFile models ScanDataFile of par2repairer.cpp, over Checksummer and Matching.
-- - Repairer.Results models UpdateVerificationResults and CheckVerificationResults of
--   par2repairer.cpp, over what was found of each source file.
-- - Scan models LoadPacketsFromFile of par2repairer.cpp up to the calls of Load: the search for the
--   magic value in buffers, the checks of length and hash, and the set id.
-- - Tests: runs of the definitions and uses of the theorems at concrete inputs.
--
-- Machine words are native numbers with their wrap-around written out: sums of MD5 modulo 2^32, the
-- byte count modulo 2^64, the product in pow modulo 2^32, the base of Galois8 modulo 2^8,
-- and the sizes and counts of Creator, DataBlock, Repairer and Scan modulo 2^32 or 2^64 as `u32` and `u64`.
--
-- Fuel: `update_loop` gets one more than the length of its bytes, and each round takes at least
-- one; `zeros_loop` gets one more than the number of zero bytes, and a round takes 64 of them.
-- `gcd_loop` gets the sum of its arguments, which each round makes smaller.
-- `next_logbase` gets 2^16 rounds, more than there are logs. `grow` gets 8 rounds, from 256 to 65536.
-- The binary search of `Creator.Sizing` gets the distance of its bounds, which each round makes
-- smaller. `halvings` and `smallest_file` get the number that they halve, or that they double up to.
-- `seek` gets the size of the file, and a round passes at least one byte; `hash_rest` gets the end of
-- the packet. `scan` takes its rounds as an argument, since a length near 2^64 can lead it back.
-- `scan_loop` gets one round for each byte of the file and one more. `add_critical` gets the number that
-- each round lowers.
-- The other loops are recursions on their count of rounds.
--
-- Not modelled: the command line, and the opening, naming and deletion of files, which are input
-- and output; the choice of the data files to scan and the processing of blocks around the
-- matrices; the hashes that Par2CreatorSourceFile computes while files are read; PAR1 repair; the
-- buffers and pipelines, which call a library outside the repository, and the asynchronous reads
-- and writes; the vector code, assembly and CUDA forms of the loop of InternalProcess, and its
-- form for Galois8. The text of the creator packet is an argument, since the build supplies its
-- version. File names have the separators of a system that is not Windows. Assertions are off, as
-- in a release build. The machine is little-endian.
pub mod Base
pub mod Galois
pub mod Crc
pub mod Md5
pub mod ReedSolomon
pub mod Checksummer
pub mod Matching
pub mod DataBlock
pub mod Creator
pub mod Repairer
pub mod Scan
pub mod Packets
mod Tests
