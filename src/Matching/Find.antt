-- ===== src/Matching/Find.antt =====
-- FindMatch: the block of a target file that the window of a FileCheckSummer holds.
use par2tbb.Base.{
  ℕ, ◌-◌, ◌≤◌, ltb, refl, ◌==◌, ◌≡◌, ◌≢◌, ◌⊎◌, arith, if◌then◌else◌, ◌&&◌, not, Bool-cases, inl,
  inr,
}
use par2tbb.Base.{Bool, true, false, Option, none, some, List, [], ◌∷◌}
use par2tbb.Checksummer.{Summer, short_checksum, short_hash, hash, block_length}
use par2tbb.Matching.{Entry, HashTable, lookup, hash_same}
use par2tbb.Matching.Lookup.{chain}

-- What the entries point to: the file in which a data block was found and the block's length, and
-- whether a source file has a complete file.
pub record Blocks : Type 0 where
  pub disk_file : ℕ → Option ℕ
  pub size : ℕ → ℕ
  pub complete : ℕ → Bool

-- VerificationHashEntry::IsSet, through DataBlock::IsSet
abbrev pub is_some : Option ℕ → Bool
is_some none = false
is_some (some x) = true

unfoldable pub is_set : Blocks → Entry → Bool
is_set b e = is_some (b.disk_file e.data_block)

-- The window is a short block, and the entry's block has another length.
unfoldable pub wrong_length : Blocks → Summer → Entry → Bool
wrong_length b s e = ltb (block_length s) s.blocksize && not (block_length s == b.size e.data_block)

-- The entry that is expected next matches; the last one of its file by its own length.
unfoldable pub fits_suggested : Blocks → Summer → Entry → Option ℕ → Bool
fits_suggested b s e none =
    let length = b.size e.data_block in
    short_checksum length s == e.crc && hash_same (short_hash length s) e.hash
fits_suggested b s e (some next) =
    not (is_set b e) && e.crc == s.checksum && hash_same (hash s) e.hash

abbrev pub is_number : ℕ → Option Entry → Bool
is_number n none = false
is_number n (some e) = e.number == n

abbrev pub is_file : ℕ → Option ℕ → Bool
is_file n none = false
is_file n (some m) = m == n

-- One entry has the CRC and the hash.
unfoldable pub single : Blocks → Summer → ℕ → Option Entry → Entry → Option Entry × Bool
single b s here suggested e =
    if b.complete e.source_file
    then (none, true)
    else if wrong_length b s e
    then (none, false)
    else if e.first_block && s.currentoffset == 0
    then (some e, false)
    else if is_number e.number suggested
    then if is_file here (b.disk_file e.data_block) then (none, true) else (some e, false)
    else if is_set b e
    then (none, true)
    else (some e, false)

unfoldable pub usable : Blocks → Summer → Entry → Bool
usable b s e = not (is_set b e) && not (wrong_length b s e)

-- The loop that looks for an unused entry of the source file that is preferred: that entry, and
-- else the entries from the first unused one on.
unfoldable pub prefer : Blocks → Summer → ℕ → List Entry → List Entry → Option Entry × List Entry
prefer b s source next [] = (none, next)
prefer b s source [] (e ∷ entries) =
    let found = prefer b s source (e ∷ entries) entries in
    let rest = prefer b s source [] entries in
    if e.source_file == source && usable b s e
    then (some e, [])
    else if usable b s e
    then found
    else rest
prefer b s source (f ∷ next) (e ∷ entries) =
    let rest = prefer b s source (f ∷ next) entries in
    if e.source_file == source && usable b s e then (some e, []) else rest

-- The loop that looks for any unused entry, and its result.
unfoldable pub first_usable : Blocks → Summer → List Entry → Option Entry × Bool
first_usable b s [] = (none, true)
first_usable b s (e ∷ entries) =
    let rest = first_usable b s entries in if usable b s e then (some e, false) else rest

unfoldable pub preferred : Blocks → Summer → Option Entry × List Entry → Option Entry × Bool
preferred b s (some e, next) = (some e, false)
preferred b s (none, next) = first_usable b s next

-- Several entries have them.
unfoldable pub several : Blocks → Summer → Option ℕ → List Entry → Option Entry × Bool
several b s none entries = first_usable b s entries
several b s (some source) entries = preferred b s (prefer b s source [] entries)

unfoldable pub choose :
    Blocks → Summer → ℕ → Option Entry → Option ℕ → List Entry → Option Entry × Bool
choose b s here suggested source [] = (none, false)
choose b s here suggested source (e ∷ []) = single b s here suggested e
choose b s here suggested source (e ∷ f ∷ entries) = several b s source (e ∷ f ∷ entries)

-- FindMatch; `here` is the file that is scanned. The result is the entry and `duplicate`.
unfoldable pub find_match :
    HashTable → Blocks → Summer → ℕ → Option Entry → Option ℕ → Option Entry × Bool
find_match h b s here none source =
    choose b s here none source (chain (lookup h s.checksum (hash s)))
find_match h b s here (some e) source =
    if fits_suggested b s e e.next
    then (some e, false)
    else choose b s here (some e) source (chain (lookup h s.checksum (hash s)))

-- A result that, if it is an entry, passes the code's test.
abbrev IsPassed : Blocks → Summer → Option Entry → Type 0
IsPassed b s none = Unit {0}
IsPassed b s (some e) = usable b s e ≡ true

single-IsPassed :
    (b : Blocks) (s : Summer) (here : ℕ) (e : Entry)
    → s.currentoffset ≢ 0
    → IsPassed b s (single b s here none e).0
unfolding single usable
single-IsPassed b s here e moved = elim (Bool-cases (b.complete e.source_file)) [
  | inl complete ↦ rw complete tt
  | inr incomplete ↦ elim (Bool-cases (wrong_length b s e)) [
    | inl wrong ↦ rw (incomplete, wrong) tt
    | inr right ↦
        let later : (s.currentoffset == 0) ≡ false = ground arith in
        let not_first : (e.first_block && s.currentoffset == 0) ≡ false = ground arith in
        elim (Bool-cases (is_set b e)) [
          | inl set ↦ rw (incomplete, right, not_first, set) tt
          | inr unset ↦ rw (incomplete, right, not_first, unset) (ground arith)
        ]
  ]
]

first_usable-IsPassed :
    (b : Blocks) (s : Summer) (entries : List Entry) → IsPassed b s (first_usable b s entries).0
unfolding first_usable
first_usable-IsPassed b s [] = tt
first_usable-IsPassed b s (e ∷ entries) = elim (Bool-cases (usable b s e)) [
  | inl is_usable ↦ rw is_usable is_usable
  | inr other ↦ rw other (first_usable-IsPassed b s entries)
]

prefer-IsPassed :
    (b : Blocks) (s : Summer) (source : ℕ) (next entries : List Entry)
    → IsPassed b s (prefer b s source next entries).0
unfolding prefer
prefer-IsPassed b s source next [] = tt
prefer-IsPassed b s source [] (e ∷ entries) =
    elim (Bool-cases (e.source_file == source && usable b s e)) [
      | inl found ↦ rw found (ground arith)
      | inr other ↦ elim (Bool-cases (usable b s e)) [
        | inl is_usable ↦ rw (other, is_usable) (prefer-IsPassed b s source (e ∷ entries) entries)
        | inr not_usable ↦ rw (other, not_usable) (prefer-IsPassed b s source [] entries)
      ]
    ]
prefer-IsPassed b s source (f ∷ next) (e ∷ entries) =
    elim (Bool-cases (e.source_file == source && usable b s e)) [
      | inl found ↦ rw found (ground arith)
      | inr other ↦ rw other (prefer-IsPassed b s source (f ∷ next) entries)
    ]

preferred-IsPassed :
    (b : Blocks) (s : Summer) (found : Option Entry × List Entry)
    → IsPassed b s found.0
    → IsPassed b s (preferred b s found).0
unfolding preferred
preferred-IsPassed b s (some e, next) u = u
preferred-IsPassed b s (none, next) u = first_usable-IsPassed b s next

several-IsPassed :
    (b : Blocks) (s : Summer) (source : Option ℕ) (entries : List Entry)
    → IsPassed b s (several b s source entries).0
unfolding several
several-IsPassed b s none entries = first_usable-IsPassed b s entries
several-IsPassed b s (some source) entries =
    preferred-IsPassed b s (prefer b s source [] entries) (prefer-IsPassed b s source [] entries)

choose-IsPassed :
    (b : Blocks) (s : Summer) (here : ℕ) (source : Option ℕ) (entries : List Entry)
    → s.currentoffset ≢ 0
    → IsPassed b s (choose b s here none source entries).0
unfolding choose
choose-IsPassed b s here source [] moved = tt
choose-IsPassed b s here source (e ∷ []) moved = single-IsPassed b s here e moved
choose-IsPassed b s here source (e ∷ f ∷ entries) moved =
    several-IsPassed b s source (e ∷ f ∷ entries)

-- A result that, if it is an entry, has a block that no file has yet, and, unless the window has
-- a whole block of the file, one as long as what is left of the file.
abbrev pub IsUsable : Blocks → Summer → Option Entry → Type 0
IsUsable b s none = Unit {0}
IsUsable b s (some e) =
    (b.disk_file e.data_block ≡ none)
    × ((s.blocksize ≤ s.filesize - s.currentoffset)
        ⊎ (b.size e.data_block ≡ s.filesize - s.currentoffset))

is_some-none : (x : Option ℕ) → is_some x ≡ false → x ≡ none
is_some-none none h = refl
is_some-none (some n) h = absurd (cc)

passed-IsUsable :
    (b : Blocks) (s : Summer) (found : Option Entry) → IsPassed b s found → IsUsable b s found
unfolding usable is_set wrong_length block_length
passed-IsUsable b s none passed = tt
passed-IsUsable b s (some e) passed =
    let length = block_length s in
    (
      is_some-none (b.disk_file e.data_block) (ground arith),
      elim (Bool-cases (ltb length s.blocksize)) [
        | inl short ↦ inr (ground (arith, short))
        | inr whole ↦ inl (ground (arith, whole))
      ],
    )

-- Away from the start of a file and without a suggested entry, an entry that FindMatch returns
-- has a block that was not found in any file yet, and either a whole block is left in the file
-- or the entry's block is as long as what is left of the file.
pub find_match-IsUsable :
    (h : HashTable) (b : Blocks) (s : Summer) (here : ℕ) (source : Option ℕ)
    → s.currentoffset ≢ 0
    → IsUsable b s (find_match h b s here none source).0
unfolding find_match
find_match-IsUsable h b s here source moved =
    let entries = chain (lookup h s.checksum (hash s)) in
    passed-IsUsable b s (choose b s here none source entries).0
      (choose-IsPassed b s here source entries moved)
