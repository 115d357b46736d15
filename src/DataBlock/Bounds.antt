-- ===== src/DataBlock/Bounds.antt =====
-- ReadData and WriteData of datablock.cpp at the ends of a block.
use mathlib.Core.List.{append_assoc}
use mathlib.Core.Option.{some-injective}
use par2tbb.Base.{ℕ, zero, suc, ◌+◌, ◌-◌, ◌≤◌, ◌<◌, ◌≡◌, refl, sym, ap, ◌∙◌, arith, min, ltb}
use par2tbb.Base.{List, [], ◌∷◌, ◌++◌, length, take, drop, length-take, length-append}
use par2tbb.Base.{Bool-cases, inl, inr, ◌⊎◌, Option, none, some}
use par2tbb.Checksummer.{overwrite}
use par2tbb.Checksummer.Buffer.{take-overwrite_before, length-overwrite}
use par2tbb.Checksummer.Slices.{drop-drop}
use par2tbb.DataBlock.{DataBlock, Volume, write_data, write, wrote_all}

-- Behind what was written a buffer is as it was.
pub drop-append_eq : (n : ℕ) (xs ys : List ℕ) → n ≡ length xs → drop n (xs ++ ys) ≡ ys
drop-append_eq zero [] ys h = refl
drop-append_eq zero (x ∷ xs) ys h = absurd (omega arith)
drop-append_eq (suc n) [] ys h = absurd (omega arith)
drop-append_eq (suc n) (x ∷ xs) ys h = drop-append_eq n xs ys (omega arith)

pub drop-overwrite_behind :
    (b : List ℕ) (at : ℕ) (bytes : List ℕ) (n : ℕ)
    → at + length bytes ≤ n
    → at + length bytes ≤ length b
    → drop n (overwrite b at bytes) ≡ drop n b
drop-overwrite_behind b at bytes n h k =
    let front = take at b ++ bytes in
    let size : at + length bytes ≡ length front =
      omega (arith, length-append (take at b) bytes, length-take at b) in
    ap (λ t. drop t (overwrite b at bytes)) {y = at + length bytes + (n - (at + length bytes))}
      (omega arith)
    ∙ sym (drop-drop (at + length bytes) (n - (at + length bytes)) (overwrite b at bytes))
    ∙ ap (drop (n - (at + length bytes))) (
        ap (drop (at + length bytes)) (sym (append_assoc (take at b) bytes _))
        ∙ drop-append_eq (at + length bytes) front (drop (at + length bytes) b) size)
    ∙ drop-drop (at + length bytes) (n - (at + length bytes)) b
    ∙ ap (λ t. drop t b) {x = at + length bytes + (n - (at + length bytes))} (omega arith)

pub written :
    (v w : Volume) (at : ℕ) (bytes : List ℕ)
    → write v at bytes ≡ some w
    → w.disk.contents ≡ overwrite v.disk.contents at bytes
unfolding write
written v w at bytes done = elim (Bool-cases (v.writable at (length bytes))) [
  | inl ok ↦ sym (ap (λ (t : Volume). t.disk.contents) (some-injective _ w ((rw ok at done))))
  | inr refused ↦ absurd (cc (rw refused at done))
]

written_all :
    (have wrote : ℕ) (o : Option Volume) (w : Volume)
    → wrote_all have o ≡ some (wrote, w)
    → (o ≡ some w) × (have ≡ wrote)
written_all have wrote none w done = absurd (cc)
written_all have wrote (some v) w done =
    let same = some-injective _ _ done in (ap (λ r. some (r.1)) same, ap (λ r. r.0) same)

-- What a write leaves: nothing changed, or the front of the buffer at its place.
pub write_data-cases :
    (v w : Volume) (b : DataBlock) (position wrote : ℕ) (bytes : List ℕ)
    → write_data v b position bytes ≡ some (wrote, w)
    → ((b.length ≤ position) × (wrote ≡ 0) × (w.disk.contents ≡ v.disk.contents))
      ⊎ ((position < b.length)
          × (wrote ≡ min (length bytes) (b.length - position))
          × (w.disk.contents ≡ overwrite v.disk.contents (b.offset + position) (take wrote bytes)))
unfolding write_data
write_data-cases v w b position wrote bytes done = elim (Bool-cases (ltb position b.length)) [
  | inl inside ↦
      let have = min (length bytes) (b.length - position) in
      let (stored, count) = written_all have wrote _ w (rw inside at done) in
      inr (
        ground arith,
        sym count,
        written v w (b.offset + position) (take have bytes) stored
            ∙ ap (λ n. overwrite v.disk.contents (b.offset + position) (take n bytes)) count,
      )
  | inr outside ↦
      let same = some-injective _ _ (rw outside at done) in
      inl (ground arith, sym (ap (λ r. r.0) same), sym (ap (λ r. r.1.disk.contents) same))
]

-- In a file that holds the whole block, a WriteData that succeeds writes at most the rest of
-- the block, leaves the file as long as it was, and changes no byte before or behind the block.
pub write_data_bounds :
    (v w : Volume) (b : DataBlock) (position wrote : ℕ) (bytes : List ℕ)
    → b.offset + b.length ≤ length v.disk.contents
    → write_data v b position bytes ≡ some (wrote, w)
    → (wrote ≤ b.length - position)
      × (length w.disk.contents ≡ length v.disk.contents)
      × (take b.offset w.disk.contents ≡ take b.offset v.disk.contents)
      × (drop (b.offset + b.length) w.disk.contents ≡ drop (b.offset + b.length) v.disk.contents)
write_data_bounds v w b position wrote bytes h done =
    elim (write_data-cases v w b position wrote bytes done) [
      | inl (outside, nothing, same) ↦ rw same (omega arith, refl, refl, refl)
      | inr (inside, count, stored) ↦
          let size : length (take wrote bytes) ≡ wrote = omega (arith, length-take wrote bytes) in
          let at = b.offset + position in
          rw stored (
            omega arith,
            length-overwrite v.disk.contents at (take wrote bytes) (omega arith),
            take-overwrite_before v.disk.contents at (take wrote bytes) b.offset (omega arith)
                (omega arith),
            drop-overwrite_behind v.disk.contents at (take wrote bytes) (b.offset + b.length)
                (omega arith) (omega arith),
          )
    ]
