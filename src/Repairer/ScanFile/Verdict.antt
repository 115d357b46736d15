-- ===== src/Repairer/ScanFile/Verdict.antt =====
-- What ScanDataFile of par2repairer.cpp says of a file, and that it says something.
use par2tbb.Base.{ℕ, zero, suc, ◌≤◌, ◌≡◌, refl, ap, ap₂, subst, ◌∙◌, arith}
use par2tbb.Base.{
  length, take, ltb, ◌==◌, ==_iff, Bool, Bool-cases, true, false, inl, inr, Option, Option-cases,
  none, some, List, [], ◌∷◌,
}
use mathlib.Core.Option.{some-injective}
use par2tbb.Md5.Digest.{rfc1321}
use par2tbb.Checksummer.{Disk, Summer, file_size, start, file_hashes, head_size}
use par2tbb.Checksummer.Jump.{IsFresh, Run, started, stepped, jumped}
use par2tbb.Checksummer.Run.{Run-hashes}
use par2tbb.Matching.{Entry, HashTable, hash_same}
use par2tbb.Matching.Find.{Blocks, find_match}
use par2tbb.Repairer.ScanFile.{
  Packets, Progress, MatchType, matched, missed, found_or_not, scan_round, scan_loop, is_same_file,
  confirm, compared, verdict, after_start, scan_data_file, new_summer,
}
use par2tbb.Repairer.ScanFile.End.{Run-read, Run-size}

pub hash_same→≡ : (xs ys : List ℕ) → hash_same xs ys ≡ true → xs ≡ ys
unfolding hash_same
hash_same→≡ [] [] h = refl
hash_same→≡ [] (y ∷ ys) h = absurd (cc)
hash_same→≡ (x ∷ xs) [] h = absurd (cc)
hash_same→≡ (x ∷ xs) (y ∷ ys) h =
    let head : (x == y) ≡ true = ground arith in
    let rest : hash_same xs ys ≡ true = ground arith in
    ap₂ ◌∷◌ ((==_iff x y).0 head) (hash_same→≡ xs ys rest)

-- What a full match means: the file has the size, the number of blocks and the two hashes of the
-- packets of a source file.
pub record IsMatch (packets : ℕ → Packets) (contents : List ℕ) (q : Progress) (source : ℕ)
    : Type 0 where
  pub same_source : q.source ≡ some source
  pub blocks : q.count ≡ (packets source).blockcount
  pub size : length contents ≡ (packets source).filesize
  pub hashfull : rfc1321 contents ≡ (packets source).hashfull
  pub hash16k : rfc1321 (take head_size contents) ≡ (packets source).hash16k

module _ (d : Disk) (file : ℕ) (h : HashTable) (entries : List Entry) (packets : ℕ → Packets)
    (blocksallocated : Bool) where
  abbrev pub round : Summer → Progress → (Bool × Summer) × Progress
  round = scan_round d file h entries packets blocksallocated

  -- A round that succeeds is a step or a jump.
  found-Run :
      (s t u : Summer) (p q : Progress) (found : Option Entry × Bool)
      → Run d s t
      → found_or_not d file h entries packets blocksallocated t.blocksize t found p ≡ ((true, u), q)
      → Run d s u
  unfolding found_or_not missed matched
  found-Run s t u p q (some e, duplicate) r done =
      jumped (p.blocks.size e.data_block) r (ap (λ x. x.0) done)
  found-Run s t u p q (none, true) r done = jumped t.blocksize r (ap (λ x. x.0) done)
  found-Run s t u p q (none, false) r done = stepped r (ap (λ x. x.0) done)

  pub round-Run :
      (s t u : Summer) (p q : Progress) → Run d s t → round t p ≡ ((true, u), q) → Run d s u
  unfolding scan_round
  round-Run s t u p q r done =
      found-Run s t u p q (find_match h p.blocks t file p.next p.source) r done

  -- The loop ends at the end of the file, after steps and jumps that succeed.
  scan_loop-Run :
      (fuel : ℕ) (s t u : Summer) (p q : Progress)
      → Run d s t
      → scan_loop d file h entries packets blocksallocated fuel t p ≡ some (u, q)
      → Run d s u × (file_size d ≤ u.currentoffset)
  unfolding scan_loop
  scan_loop-Run zero s t u p q r done = absurd (cc)
  scan_loop-Run (suc fuel) s t u p q r done =
      elim (Bool-cases (ltb t.currentoffset (file_size d))) [
        | inl before ↦ elim (Bool-cases (round t p).0.0) [
          | inl ok ↦
              scan_loop-Run fuel s (round t p).0.1 u (round t p).1 q
                (round-Run s t (round t p).0.1 p (round t p).1 r
                  (ap (λ b. ((b, (round t p).0.1), (round t p).1)) ok))
                (rw (before, ok) at done)
          | inr failed ↦ absurd (cc (rw (before, failed) at done))
        ]
        | inr ended ↦
            let same = some-injective _ _ (rw ended at done) in
            let there : t ≡ u = ap (λ x. x.0) same in
            (
              subst (Run d s) there r,
              subst (λ (x : Summer). file_size d ≤ x.currentoffset) there (ground arith),
            )
      ]

  -- The comparison, with the hashes that the checksummer has.
  is_same_file_lem :
      (s : Summer) (q : Progress) (source : ℕ)
      → file_hashes s ≡ (rfc1321 d.contents, rfc1321 (take head_size d.contents))
      → q.source ≡ some source
      → is_same_file d file h entries packets blocksallocated s (packets source) q.count ≡ true
      → IsMatch packets d.contents q source
  unfolding is_same_file
  is_same_file_lem s q source hashes here same =
      let k = packets source in
      let ok = rw hashes at same in
      record {
        same_source = here;
        blocks = (==_iff q.count k.blockcount).0 (ground (arith, ok));
        size = (==_iff (length d.contents) k.filesize).0 (ground (arith, ok));
        hashfull = hash_same→≡ (rfc1321 d.contents) k.hashfull (ground (arith, ok));
        hash16k = hash_same→≡ (rfc1321 (take head_size d.contents)) k.hash16k (ground (arith, ok));
      }

  full_or_not :
      (m : MatchType) (same : Bool)
      → confirm d file h entries packets blocksallocated m same ≡ MatchType.full_match
      → same ≡ true
  unfolding confirm
  full_or_not MatchType.full_match true h = refl
  full_or_not MatchType.full_match false h = absurd (cc)
  full_or_not MatchType.partial_match same h = absurd (cc)
  full_or_not MatchType.no_match same h = absurd (cc)

  compared_lem :
      (s : Summer) (q : Progress) (source : Option ℕ)
      → q.source ≡ source
      → file_hashes s ≡ (rfc1321 d.contents, rfc1321 (take head_size d.contents))
      → compared d file h entries packets blocksallocated s q source ≡ MatchType.full_match
      → (n : ℕ) × IsMatch packets d.contents q n
  unfolding compared
  compared_lem s q none here hashes full = absurd (cc)
  compared_lem s q (some n) here hashes full = (
    n,
    is_same_file_lem s q n hashes here (
        full_or_not q.matchtype
          (is_same_file d file h entries packets blocksallocated s (packets n) q.count) full),
  )

  verdict_lem :
      (s : Summer) (q : Progress)
      → file_hashes s ≡ (rfc1321 d.contents, rfc1321 (take head_size d.contents))
      → (verdict d file h entries packets blocksallocated s q).matchtype ≡ MatchType.full_match
      → (n : ℕ) × IsMatch packets d.contents
          (verdict d file h entries packets blocksallocated s q)
          n
  unfolding verdict
  verdict_lem s q hashes full = elim (Bool-cases (ltb 0 q.count)) [
    | inl some_found ↦
        let (n, m) = compared_lem s q q.source refl hashes (rw some_found at full) in
        (
          n,
          record {
            same_source = m.same_source;
            blocks = m.blocks;
            size = m.size;
            hashfull = m.hashfull;
            hash16k = m.hash16k;
          },
        )
    | inr nothing ↦ absurd (cc (rw nothing at full))
  ]

  -- At the end of the file the checksummer has the hashes of the whole file.
  ended-hashes :
      (s t : Summer)
      → IsFresh d s
      → Run d s t
      → file_size d ≤ t.currentoffset
      → file_hashes t ≡ (rfc1321 d.contents, rfc1321 (take head_size d.contents))
  ended-hashes s t fresh r ended =
      Run-hashes d s t fresh r
        (Run-read d s t fresh r (omega (arith, Run-size d s t fresh r, ended)))

  after_start_lem :
      (fuel : ℕ) (s : Summer) (p q : Progress) (r : Bool × Summer)
      → IsFresh d s
      → start d s ≡ r
      → after_start d file h entries packets blocksallocated fuel p r ≡ some q
      → q.matchtype ≡ MatchType.full_match
      → (n : ℕ) × IsMatch packets d.contents q n
  after_start_lem fuel s p q (false, t) fresh begun done full = absurd (cc)
  after_start_lem fuel s p q (true, t) fresh begun done full =
      elim (Option-cases (scan_loop d file h entries packets blocksallocated fuel t p)) [
        | inl failed ↦ absurd (cc (rw failed at done))
        | inr ((u, last), got) ↦
            let there = some-injective _ _ (rw got at done) in
            let (r, ended) = scan_loop-Run fuel s t u p last (started begun) got in
            let (n, m) =
              verdict_lem u last (ended-hashes s u fresh r ended)
                (ap (λ (x : Progress). x.matchtype) there ∙ full) in
            (n, subst (λ x. IsMatch packets d.contents x n) there m)
      ]

  -- For a file that is not empty, a positive block size and the window table and mask of that
  -- size, when ScanDataFile reports a full match, the source file that it reports has packets
  -- with the number of blocks that were found, the size of the file, the MD5 of all its bytes
  -- and the MD5 of its first 16k, whatever the hash table holds and whichever reads succeed.
  pub scan_data_file_full_match :
      (fuel blocksize : ℕ) (windowtable : ℕ → ℕ) (windowmask : ℕ) (source : Option ℕ)
      (blocks : Blocks) (q : Progress)
      → IsFresh d (new_summer d blocksize windowtable windowmask)
      → scan_data_file d file h entries packets blocksallocated fuel blocksize windowtable
          windowmask source blocks
        ≡ some q
      → q.matchtype ≡ MatchType.full_match
      → (n : ℕ) × IsMatch packets d.contents q n
  unfolding scan_data_file new_summer
  scan_data_file_full_match fuel blocksize windowtable windowmask source blocks q fresh done full =
      let s = new_summer d blocksize windowtable windowmask in
      let some_bytes : (file_size d == 0) ≡ false = ground (arith, fresh.some_file) in
      after_start_lem fuel s _ q (start d s) fresh refl (rw some_bytes at done) full
