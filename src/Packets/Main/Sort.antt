-- ===== src/Packets/Main/Sort.antt =====
-- The sort of the source files in MainPacket::Create of mainpacket.cpp.
use mathlib.Core.List.{Perm, Permᴰ}
use mathlib.Core.Logic.{∥∥₁_elim}
use par2tbb.Base.{ℕ, ◌<◌, ◌≡◌, refl, sym, ap, ap₂, subst, ◌∙◌, arith, ◌⊎◌}
use par2tbb.Base.{List, [], ◌∷◌, map, true, false, Bool-cases, inl, inr}
use par2tbb.Scan.{number}
use par2tbb.Matching.{hash_less}
use par2tbb.Packets.Order.{IsHash, hash_less_lem, number_injective}
use par2tbb.Packets.Main.{insert_file, sort_files, create_main_packet, main_packet}

-- The sort of ids alone, which is what the packet holds.
unfoldable pub insert_id : List ℕ → List (List ℕ) → List (List ℕ)
insert_id = insert_file (λ x. x)

unfoldable pub sort_ids : List (List ℕ) → List (List ℕ)
sort_ids = sort_files (λ x. x)

abbrev pub AreHashes : List (List ℕ) → Type 0
AreHashes [] = 0 < 1
AreHashes (x ∷ xs) = IsHash x × AreHashes xs

module _ {ℓ} {A : Type ℓ} (id_of : A → List ℕ) where
  map-insert_file :
      (x : A) (ys : List A)
      → map id_of (insert_file id_of x ys) ≡ insert_id (id_of x) (map id_of ys)
  unfolding insert_file insert_id
  map-insert_file x [] = refl
  map-insert_file x (y ∷ ys) = elim (Bool-cases (hash_less (id_of y) (id_of x))) [
    | inl less ↦ rw less (ap (λ r. id_of y ∷ r) (map-insert_file x ys))
    | inr not_less ↦ rw not_less refl
  ]

  pub map-sort_files : (xs : List A) → map id_of (sort_files id_of xs) ≡ sort_ids (map id_of xs)
  unfolding sort_files sort_ids insert_id
  map-sort_files [] = refl
  map-sort_files (x ∷ xs) =
      map-insert_file x (sort_files id_of xs) ∙ ap (insert_id (id_of x)) (map-sort_files xs)

insert_id-AreHashes :
    (a : List ℕ) (l : List (List ℕ)) → IsHash a → AreHashes l → AreHashes (insert_id a l)
unfolding insert_id insert_file
insert_id-AreHashes a [] va vl = (va, vl)
insert_id-AreHashes a (c ∷ l) va (vc, vl) = elim (Bool-cases (hash_less c a)) [
  | inl less ↦ rw less (vc, insert_id-AreHashes a l va vl)
  | inr not_less ↦ rw not_less (va, (vc, vl))
]

pub sort_ids-AreHashes : (l : List (List ℕ)) → AreHashes l → AreHashes (sort_ids l)
unfolding sort_ids sort_files insert_id
sort_ids-AreHashes [] v = v
sort_ids-AreHashes (x ∷ xs) (vx, vs) =
    insert_id-AreHashes x (sort_ids xs) vx (sort_ids-AreHashes xs vs)

-- Two insertions in either order, the smaller id first and then any two.
insert_smaller :
    (a b : List ℕ) (l : List (List ℕ))
    → IsHash a
    → IsHash b
    → AreHashes l
    → number a < number b
    → insert_id a (insert_id b l) ≡ insert_id b (insert_id a l)
unfolding insert_id insert_file
insert_smaller a b [] va vb vl h =
    rw (hash_less_lem a b va vb, hash_less_lem b a vb va) (ground arith)
insert_smaller a b (c ∷ l) va vb (vc, vl) h =
    let ab : hash_less a b ≡ true = hash_less_lem a b va vb ∙ ground arith in
    let ba : hash_less b a ≡ false = hash_less_lem b a vb va ∙ ground arith in
    elim (Bool-cases (hash_less c a)) [
      | inl ca ↦
          let cb : hash_less c b ≡ true =
            hash_less_lem c b vc vb ∙ ground (arith, hash_less_lem c a vc va) in
          rw (ca, cb, ca) (ap (λ r. c ∷ r) (insert_smaller a b l va vb vl h))
      | inr ca ↦ elim (Bool-cases (hash_less c b)) [
        | inl cb ↦ rw (ca, cb, ca, ab) refl
        | inr cb ↦ rw (ca, cb, ba, ab) refl
      ]
    ]

trichotomy : (x y : ℕ) → (x < y) ⊎ ((x ≡ y) ⊎ (y < x))
trichotomy x y = ground arith

insert_id_comm :
    (a b : List ℕ) (l : List (List ℕ))
    → IsHash a
    → IsHash b
    → AreHashes l
    → insert_id a (insert_id b l) ≡ insert_id b (insert_id a l)
insert_id_comm a b l va vb vl = elim (trichotomy (number a) (number b)) [
  | inl less ↦ insert_smaller a b l va vb vl less
  | inr (inl same) ↦
      let e = number_injective a b va.1 vb.1 (va.0 ∙ sym vb.0) same in
      ap₂ (λ x y. insert_id x (insert_id y l)) e (sym e)
  | inr (inr more) ↦ sym (insert_smaller b a l vb va vl more)
]

module _ {ℓ} {A : Type ℓ} (id_of : A → List ℕ) where
  AreHashes-perm :
      (xs ys : List A) → Permᴰ xs ys → AreHashes (map id_of xs) → AreHashes (map id_of ys)
  AreHashes-perm _ _ Permᴰ.nil v = v
  AreHashes-perm _ _ (Permᴰ.cons {l₁ = xs} {l₂ = ys} e p) (vx, vs) =
      (subst (λ t. IsHash (id_of t)) e vx, AreHashes-perm xs ys p vs)
  AreHashes-perm _ _ (Permᴰ.swap e f) (va, (vb, v)) =
      (subst (λ t. IsHash (id_of t)) f vb, (subst (λ t. IsHash (id_of t)) e va, v))
  AreHashes-perm xs zs (Permᴰ.trans {l₂ = ys} p q) v =
      AreHashes-perm ys zs q (AreHashes-perm xs ys p v)

  sort_ids-permᴰ :
      (xs ys : List A)
      → Permᴰ xs ys
      → AreHashes (map id_of xs)
      → sort_ids (map id_of xs) ≡ sort_ids (map id_of ys)
  unfolding sort_ids sort_files insert_id
  sort_ids-permᴰ _ _ Permᴰ.nil v = refl
  sort_ids-permᴰ _ _ (Permᴰ.cons {l₁ = xs} {l₂ = ys} e p) (vx, vs) =
      ap₂ insert_id (ap id_of e) (sort_ids-permᴰ xs ys p vs)
  sort_ids-permᴰ _ _ (Permᴰ.swap {a = a} {b = b} {l = l} e f) (va, (vb, v)) =
      let rest = sort_ids (map id_of l) in
      insert_id_comm (id_of a) (id_of b) rest va vb (sort_ids-AreHashes (map id_of l) v)
      ∙ ap₂ (λ x y. insert_id (id_of x) (insert_id (id_of y) rest)) f e
  sort_ids-permᴰ xs zs (Permᴰ.trans {l₂ = ys} p q) v =
      sort_ids-permᴰ xs ys p v ∙ sort_ids-permᴰ ys zs q (AreHashes-perm xs ys p v)

  -- The ids in their order, whatever the order of the files.
  pub sort_ids-perm :
      (xs ys : List A)
      → Perm xs ys
      → AreHashes (map id_of xs)
      → sort_ids (map id_of xs) ≡ sort_ids (map id_of ys)
  sort_ids-perm xs ys p v = ∥∥₁_elim p (hlevel) λ d. sort_ids-permᴰ xs ys d v

  -- MainPacket::Create makes the same packet, set id included, from the source files in any
  -- order, when their file ids are hashes.
  pub create_main_packet-perm :
      (xs ys : List A) (blocksize : ℕ)
      → Perm xs ys
      → AreHashes (map id_of xs)
      → (create_main_packet id_of xs blocksize).1 ≡ (create_main_packet id_of ys blocksize).1
  unfolding create_main_packet
  create_main_packet-perm xs ys blocksize p v =
      ap (main_packet blocksize)
        (map-sort_files id_of xs ∙ sort_ids-perm xs ys p v ∙ sym (map-sort_files id_of ys))
