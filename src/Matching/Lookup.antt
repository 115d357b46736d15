-- ===== src/Matching/Lookup.antt =====
-- Insert and Search of verificationhashtable.h: the entries that the table holds under a key.
use native.Mathlib.Decide.{ℕ_discrete}
use par2tbb.Base.{ℕ, zero, suc, ◌≤◌, ◌<◌, ◌≡◌, refl, sym, ap, ap₂, ◌∙◌, arith, length, false}
use par2tbb.Base.{ltb, ◌==◌, ◌||◌, true, false, Bool-cases, inl, inr}
use par2tbb.Base.{List, [], ◌∷◌, ◌++◌}
use par2tbb.ReedSolomon.Input.{nth}
use par2tbb.Matching.{
  Entry, Tree, empty, node, hash_less_from, hash_less, key_less, key_more, insert,
}
use par2tbb.Matching.{search_crc, search_key, search_hash, HashTable, slot, store, lookup}

-- The entries that `same` links at the top of a tree.
abbrev pub chain : Tree → List Entry
chain empty = []
chain (node p same left right) = p ∷ same

hash_less_from_self : (n : ℕ) (a : List ℕ) → hash_less_from n a a ≡ false
unfolding hash_less_from
hash_less_from_self zero a = ground arith
hash_less_from_self (suc n) a = ground (arith, hash_less_from_self n a)

key_less_self : (e : Entry) → key_less e e.crc e.hash ≡ false
unfolding key_less hash_less
key_less_self e = ground (arith, hash_less_from_self 15 e.hash)

key_more_self : (e : Entry) → key_more e e.crc e.hash ≡ false
unfolding key_more hash_less
key_more_self e = ground (arith, hash_less_from_self 15 e.hash)

-- The CRC decides first.
crc_less : (p : Entry) (crc : ℕ) (hash : List ℕ) → ltb p.crc crc ≡ true → key_less p crc hash ≡ true
unfolding key_less
crc_less p crc hash h = ground arith

crc_more :
    (p : Entry) (crc : ℕ) (hash : List ℕ)
    → ltb p.crc crc ≡ false
    → ltb crc p.crc ≡ true
    → (key_less p crc hash ≡ false) × (key_more p crc hash ≡ true)
unfolding key_less key_more
crc_more p crc hash h k = (ground arith, ground arith)

-- Going from the first match of the CRC is going from the root.
search_hash-search_crc :
    (crc : ℕ) (hash : List ℕ) (t : Tree)
    → search_hash hash (search_crc crc t) ≡ search_key crc hash t
unfolding search_crc search_hash search_key
search_hash-search_crc crc hash empty = refl
search_hash-search_crc crc hash (node p same left right) = elim (Bool-cases (ltb p.crc crc)) [
  | inl less ↦ rw (less, crc_less p crc hash less) (search_hash-search_crc crc hash right)
  | inr not_less ↦ elim (Bool-cases (ltb crc p.crc)) [
    | inl more ↦
        let (l, m) = crc_more p crc hash not_less more in
        rw (not_less, more, l, m) (search_hash-search_crc crc hash left)
    | inr not_more ↦
        let at : p.crc ≡ crc = ground arith in
        rw (not_less, not_more) (ap (λ c. search_key c hash (node p same left right)) at)
  ]
]

search_key-insert :
    (e : Entry) (t : Tree)
    → chain (search_key e.crc e.hash (insert e t)) ≡ chain (search_key e.crc e.hash t) ++ e ∷ []
unfolding search_key insert
search_key-insert e empty = rw (key_less_self e, key_more_self e) refl
search_key-insert e (node p same left right) = elim (Bool-cases (key_less p e.crc e.hash)) [
  | inl less ↦ rw (less, less) (search_key-insert e right)
  | inr not_less ↦ elim (Bool-cases (key_more p e.crc e.hash)) [
    | inl more ↦ rw (not_less, more) (rw (not_less, more) (search_key-insert e left))
    | inr not_more ↦ rw (not_less, not_more) (rw (not_less, not_more) refl)
  ]
]

-- The bytes that the comparison reads are the same when neither hash is less.
alike :
    (n : ℕ) (a b : List ℕ)
    → hash_less_from n a b ≡ false
    → hash_less_from n b a ≡ false
    → (i : ℕ) → i ≤ n
    → nth a i ≡ nth b i
unfolding hash_less_from
alike zero a b p q i h =
    ap (nth a) {x = i} {y = 0} (omega arith)
    ∙ ground arith
    ∙ ap (nth b) {x = 0} {y = i} (omega arith)
alike (suc n) a b p q i h = elim (Bool-cases (nth a (suc n) == nth b (suc n))) [
  | inr differ ↦ absurd (ground arith)
  | inl top ↦ elim (ℕ_discrete i (suc n)) [
    | yes last ↦ rw last (ground arith)
    | no before ↦ alike n a b (ground arith) (ground arith) i (omega arith)
  ]
]

less_alike :
    (n : ℕ) (a b : List ℕ) → ((i : ℕ) → i ≤ n → nth a i ≡ nth b i) → hash_less_from n a b ≡ false
unfolding hash_less_from
less_alike zero a b e = ground (arith, e 0)
less_alike (suc n) a b e = ground (arith, e (suc n), less_alike n a b (λ i h. e i (omega arith)))

-- The comparison tells the entry's key from this CRC and hash.
abbrev IsOther : Entry → ℕ → List ℕ → Type 0
IsOther e crc hash = (key_less e crc hash || key_more e crc hash) ≡ true

-- No entry has the key of two others.
not_both :
    (p e : Entry) (crc : ℕ) (hash : List ℕ)
    → key_less p e.crc e.hash ≡ false
    → key_more p e.crc e.hash ≡ false
    → key_less p crc hash ≡ false
    → key_more p crc hash ≡ false
    → (key_less e crc hash || key_more e crc hash) ≡ false
unfolding key_less key_more hash_less
not_both p e crc hash a b c d =
    let at : p.crc ≡ e.crc = ground arith in
    let at' : p.crc ≡ crc = ground arith in
    let first = alike 15 p.hash e.hash (ground arith) (ground arith) in
    let second = alike 15 p.hash hash (ground arith) (ground arith) in
    let up = less_alike 15 e.hash hash (λ i h. sym (first i h) ∙ second i h) in
    let down = less_alike 15 hash e.hash (λ i h. sym (second i h) ∙ first i h) in ground arith

search_key-insert_other :
    (e : Entry) (crc : ℕ) (hash : List ℕ) (t : Tree)
    → IsOther e crc hash
    → chain (search_key crc hash (insert e t)) ≡ chain (search_key crc hash t)
unfolding search_key insert
search_key-insert_other e crc hash empty o = ground arith
search_key-insert_other e crc hash (node p same left right) o = ground (
  arith,
  search_key-insert_other e crc hash left o,
  search_key-insert_other e crc hash right o,
  not_both p e crc hash,
)

-- A lookup is a search of the slot's tree.
lookup-eq-search_key :
    (h : HashTable) (crc : ℕ) (hash : List ℕ)
    → lookup h crc hash ≡ search_key crc hash (h.table (slot h crc))
unfolding lookup
lookup-eq-search_key h crc hash = search_hash-search_crc crc hash (h.table (slot h crc))

slot-store :
    (e : Entry) (h : HashTable)
    → chain (search_key e.crc e.hash ((store e h).table (slot (store e h) e.crc)))
      ≡ chain (search_key e.crc e.hash (h.table (slot h e.crc))) ++ e ∷ []
unfolding store slot
slot-store e h = ground (arith, search_key-insert e (h.table (slot h e.crc)))

slot-store_other :
    (e : Entry) (h : HashTable) (crc : ℕ) (hash : List ℕ)
    → IsOther e crc hash
    → chain (search_key crc hash ((store e h).table (slot (store e h) crc)))
      ≡ chain (search_key crc hash (h.table (slot h crc)))
unfolding store slot
slot-store_other e h crc hash o =
    ground (arith, search_key-insert_other e crc hash (h.table (slot h crc)) o)

-- After an entry is stored, a lookup of its CRC and hash finds the entries found before, and
-- this one behind them.
pub lookup-store :
    (e : Entry) (h : HashTable)
    → chain (lookup (store e h) e.crc e.hash) ≡ chain (lookup h e.crc e.hash) ++ e ∷ []
lookup-store e h =
    ap chain (lookup-eq-search_key (store e h) e.crc e.hash)
    ∙ slot-store e h
    ∙ ap (λ t. chain t ++ e ∷ []) (sym (lookup-eq-search_key h e.crc e.hash))

-- Hashes of 16 bytes that the comparison does not tell apart are the same.
nth_ext :
    (a b : List ℕ) → length a ≡ length b → ((i : ℕ) → i < length a → nth a i ≡ nth b i) → a ≡ b
nth_ext [] [] size same = refl
nth_ext [] (y ∷ b) size same = absurd (omega arith)
nth_ext (x ∷ a) [] size same = absurd (omega arith)
nth_ext (x ∷ a) (y ∷ b) size same =
    ap₂ (λ t u. t ∷ u) (same 0 (omega arith))
      (nth_ext a b (omega arith) (λ i h. same (suc i) (omega arith)))

same_key :
    (e : Entry) (crc : ℕ) (hash : List ℕ)
    → length e.hash ≡ 16
    → length hash ≡ 16
    → (key_less e crc hash || key_more e crc hash) ≡ false
    → (e.crc ≡ crc) × (e.hash ≡ hash)
unfolding key_less key_more hash_less
same_key e crc hash size size' neither =
    let bytes = alike 15 e.hash hash (ground arith) (ground arith) in
    (ground arith, nth_ext e.hash hash (omega arith) (λ i h. bytes i (omega arith)))

-- A lookup of a CRC and a hash of 16 bytes, of which at least one differs from that of the
-- entry, whose hash has 16 bytes too, finds what it found before the entry was stored.
pub lookup-store_other :
    (e : Entry) (h : HashTable) (crc : ℕ) (hash : List ℕ)
    → length e.hash ≡ 16
    → length hash ≡ 16
    → ¬ ((e.crc ≡ crc) × (e.hash ≡ hash))
    → chain (lookup (store e h) crc hash) ≡ chain (lookup h crc hash)
lookup-store_other e h crc hash size size' differ =
    elim (Bool-cases (key_less e crc hash || key_more e crc hash)) [
      | inr neither ↦ absurd (differ (same_key e crc hash size size' neither))
      | inl o ↦
          ap chain (lookup-eq-search_key (store e h) crc hash)
          ∙ slot-store_other e h crc hash o
          ∙ ap chain (sym (lookup-eq-search_key h crc hash))
    ]
