-- ===== src/Tests.antt =====
-- The theorems at concrete inputs, and runs of the definitions.
mod Galois
mod Crc
mod Md5
mod ReedSolomon
mod Checksummer
mod Matching
mod Creator
mod DataBlock
mod Repairer
mod Scan
mod Packets
mod ScanFile
