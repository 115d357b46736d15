-- ===== src/Checksummer/Hashes.antt =====
-- UpdateHashes and GetFileHashes of filechecksummer.cpp.
use native.Mathlib.Decide.{dec_le, dec_lt}
use par2tbb.Base.{ℕ, zero, suc, ◌+◌, ◌-◌, ◌≤◌, ◌<◌, ◌≡◌, refl, sym, ap, ap₂, ◌∙◌, arith, min}
use par2tbb.Base.{List, [], ◌∷◌, length, take, drop, length-take, length-drop, ltb, leb}
use par2tbb.Base.{if◌then◌else◌, Bool-cases, true, false, inl, inr}
use par2tbb.Md5.{Context, reset, update, final}
use par2tbb.Md5.Stream.{update-update}
use par2tbb.Md5.Digest.{rfc1321, reset-IsValid, final-update}
use par2tbb.Checksummer.{Summer, head_size, update_hashes, file_hashes}
use par2tbb.Checksummer.Slices.{take-add, take_all, drop-drop}

-- After the first `n` bytes of the file: the context of the first 16k has those of them that are
-- in it, and from 16k on the full context has them all.
pub record Hashed (file : List ℕ) (n : ℕ) (s : Summer) : Type 0 where
  pub head : s.context16k ≡ update reset (take (min n head_size) file)
  pub whole : head_size ≤ n → s.contextfull ≡ update reset (take n file)

feed :
    (file : List ℕ) (n len : ℕ) (c : Context)
    → c ≡ update reset (take n file)
    → update c (take len (drop n file)) ≡ update reset (take (n + len) file)
feed file n len c e =
    ap (λ t. update t (take len (drop n file))) e
    ∙ update-update reset (take n file) (take len (drop n file)) reset-IsValid
    ∙ ap (update reset) (sym (take-add n len file))

pub take-take : (a b : ℕ) (xs : List ℕ) → a ≤ b → take a (take b xs) ≡ take a xs
take-take zero b xs h = refl
take-take (suc a) zero xs h = absurd (omega arith)
take-take (suc a) (suc b) [] h = refl
take-take (suc a) (suc b) (x ∷ xs) h = ap (λ t. x ∷ t) (take-take a b xs (omega arith))

drop-take : (a b : ℕ) (xs : List ℕ) → drop a (take (a + b) xs) ≡ take b (drop a xs)
drop-take zero b xs = ap (λ t. take t xs) {x = 0 + b} (omega arith)
drop-take (suc a) b [] =
    ap (λ t. drop (suc a) (take t [])) {x = suc a + b} {y = suc (a + b)} (omega arith)
    ∙ sym (take-nil b)
  where
    take-nil : (n : ℕ) → take {A = ℕ} n [] ≡ []
    take-nil zero = refl
    take-nil (suc n) = refl
drop-take (suc a) b (x ∷ xs) =
    ap (λ t. drop (suc a) (take t (x ∷ xs))) {x = suc a + b} {y = suc (a + b)} (omega arith)
    ∙ drop-take a b xs

past_head :
    (n : ℕ) (bytes : List ℕ) (s : Summer)
    → head_size ≤ n
    → update_hashes n bytes s ≡ record s { contextfull = update s.contextfull bytes }
unfolding update_hashes
past_head n bytes s h = let test : leb head_size n ≡ true = ground arith in rw test

within_head :
    (n : ℕ) (bytes : List ℕ) (s : Summer)
    → n + length bytes < head_size
    → update_hashes n bytes s ≡ record s { context16k = update s.context16k bytes }
unfolding update_hashes
within_head n bytes s h =
    let test : leb head_size n ≡ false = ground arith in
    let test' : leb head_size (n + length bytes) ≡ false = ground arith in rw (test, test')

across_head :
    (n : ℕ) (bytes : List ℕ) (s : Summer)
    → n < head_size
    → head_size ≤ n + length bytes
    → let head = update s.context16k (take (head_size - n) bytes) in
      update_hashes n bytes s ≡ record s {
        context16k = head;
        contextfull =
            if ltb head_size (n + length bytes)
            then update head (drop (head_size - n) bytes)
            else head;
      }
unfolding update_hashes
across_head n bytes s h k =
    let test : leb head_size n ≡ false = ground arith in
    let test' : leb head_size (n + length bytes) ≡ true = ground arith in rw (test, test')

module _ (file : List ℕ) (n len : ℕ) (s : Summer) (h : n + len ≤ length file) where
  abbrev bytes : List ℕ
  bytes = take len (drop n file)

  length-bytes : length bytes ≡ len
  length-bytes = omega (arith, length-take len (drop n file), length-drop n file)

  reset_to : ℕ → Context
  reset_to k = update reset (take k file)

  Hashed-past : head_size ≤ n → Hashed file n s → Hashed file (n + len) (update_hashes n bytes s)
  Hashed-past a v = rw (past_head n bytes s a) (record {
    head =
        v.head
        ∙ ap (λ k. update reset (take k file)) {x = min n head_size} {y = min (n + len) head_size}
            (omega arith);
    whole = λ _. feed file n len s.contextfull (v.whole a);
  })

  Hashed-within :
      n + len < head_size → Hashed file n s → Hashed file (n + len) (update_hashes n bytes s)
  Hashed-within a v = rw (within_head n bytes s (omega (arith, length-bytes))) (record {
    head =
        feed file n len s.context16k (
          v.head ∙ ap (λ k. update reset (take k file)) {x = min n head_size} {y = n} (omega arith))
        ∙ ap (λ k. update reset (take k file)) {x = n + len} {y = min (n + len) head_size}
            (omega arith);
    whole = λ b. absurd (omega arith);
  })

  -- The context of the first 16k when it is complete.
  head_done :
      n < head_size
      → head_size ≤ n + len
      → Hashed file n s
      → update s.context16k (take (head_size - n) bytes) ≡ update reset (take head_size file)
  head_done a b v =
      ap (update s.context16k) (take-take (head_size - n) len (drop n file) (omega arith))
      ∙ feed file n (head_size - n) s.context16k (
          v.head ∙ ap (λ k. update reset (take k file)) {x = min n head_size} {y = n} (omega arith))
      ∙ ap (λ k. update reset (take k file)) {x = n + (head_size - n)} {y = head_size} (omega arith)

  -- What lies behind it in the same read.
  tail_fed :
      n < head_size
      → head_size ≤ n + len
      → update (update reset (take head_size file)) (drop (head_size - n) bytes)
        ≡ update reset (take (n + len) file)
  tail_fed a b =
      let first = head_size - n in
      let last = n + len - head_size in
      ap (update (update reset (take head_size file))) (
        ap (λ k. drop first (take k (drop n file))) {x = len} {y = first + last} (omega arith)
        ∙ drop-take first last (drop n file)
        ∙ ap (take last) (
            drop-drop n first file
            ∙ ap (λ k. drop k file) {x = n + first} {y = head_size} (omega arith)))
      ∙ feed file head_size last (update reset (take head_size file)) refl
      ∙ ap (λ k. update reset (take k file)) {x = head_size + last} {y = n + len} (omega arith)

  Hashed-across :
      n < head_size
      → head_size ≤ n + len
      → Hashed file n s
      → Hashed file (n + len) (update_hashes n bytes s)
  Hashed-across a b v = rw (across_head n bytes s a (omega (arith, length-bytes))) (record {
    head =
        head_done a b v
        ∙ ap (λ k. update reset (take k file)) {x = head_size} {y = min (n + len) head_size}
            (omega arith);
    whole = λ _. elim (Bool-cases (ltb head_size (n + length bytes))) [
      | inl more ↦
          rw more (ap (λ t. update t (drop (head_size - n) bytes)) (head_done a b v) ∙ tail_fed a b)
      | inr exact ↦ rw exact (
          head_done a b v
          ∙ ap (λ k. update reset (take k file)) {x = head_size} {y = n + len} (same exact))
    ];
  })
    where
      same : ltb head_size (n + length bytes) ≡ false → head_size ≡ n + len
      same e = ground (arith, length-bytes)

  -- UpdateHashes over the next bytes of the file.
  pub update_hashes-Hashed : Hashed file n s → Hashed file (n + len) (update_hashes n bytes s)
  update_hashes-Hashed v = elim (dec_le head_size n) [
    | yes past ↦ Hashed-past past v
    | no before ↦ elim (dec_lt (n + len) head_size) [
      | yes within ↦ Hashed-within within v
      | no across ↦ Hashed-across (omega arith) (omega arith) v
    ]
  ]

-- Once the whole file is read, GetFileHashes gives its MD5 and that of its first 16k.
pub file_hashes_lem :
    (file : List ℕ) (s : Summer)
    → s.filesize ≡ length file
    → Hashed file (length file) s
    → file_hashes s ≡ (rfc1321 file, rfc1321 (take head_size file))
unfolding file_hashes
file_hashes_lem file s e v = elim (Bool-cases (ltb s.filesize head_size)) [
  | inl short ↦ rw short (
      ap₂ (λ (a b : List ℕ). (a, b)) (head ∙ ap rfc1321 (take_all head_size file (ground arith)))
        head)
  | inr long ↦ rw long (
      ap₂ (λ (a b : List ℕ). (a, b))
        (ap final
            (v.whole (ground arith) ∙ ap (update reset) (take_all (length file) file (omega arith)))
          ∙ final-update file)
        head)
]
  where
    prefix : take (min (length file) head_size) file ≡ take head_size file
    prefix = elim (dec_le head_size (length file)) [
      | yes le ↦ ap (λ k. take k file) {y = head_size} (omega arith)
      | no gt ↦
          ap (λ k. take k file) {y = length file} (omega arith)
          ∙ take_all (length file) file (omega arith)
          ∙ sym (take_all head_size file (omega arith))
    ]

    head : final s.context16k ≡ rfc1321 (take head_size file)
    head = ap final (v.head ∙ ap (update reset) prefix) ∙ final-update (take head_size file)
