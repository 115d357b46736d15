-- ===== src/Md5/Stream.antt =====
-- MD5Context::Update of md5.cpp as a fold over the bytes it is given.
use mathlib.Core.List.{append_assoc, append-nil}
use par2tbb.Base.{ℕ, zero, suc, ◌+◌, ◌-◌, ◌%◌, ◌^◌, ◌≤◌, ◌<◌, ◌≡◌, inl, inr}
use par2tbb.Base.{
  refl, sym, ap, ap₂, ◌∙◌, arith, ◌==◌, leb, ltb, leb→le, Bool-cases, if◌then◌else◌, min,
}
use par2tbb.Base.{List, [], ◌∷◌, ◌++◌, length, take, drop, replicate}
use par2tbb.Base.{length-append, take-append-drop, length-take, length-drop}
use par2tbb.Md5.{Context, buffersize, words, update_loop, update, zeros_loop, update_zeros}
use par2tbb.Md5.Compress.{State, update_state}

-- The buffer and the state after one more byte.
unfoldable pub absorb : State × List ℕ → ℕ → State × List ℕ
absorb (s, held) x =
    if length held == 63 then (update_state (words (held ++ x ∷ [])) s, []) else (s, held ++ x ∷ [])

unfoldable pub absorb_all : State × List ℕ → List ℕ → State × List ℕ
absorb_all st [] = st
absorb_all st (x ∷ xs) = absorb_all (absorb st x) xs

pub absorb_all-append :
    (st : State × List ℕ) (xs ys : List ℕ)
    → absorb_all st (xs ++ ys) ≡ absorb_all (absorb_all st xs) ys
unfolding absorb_all
absorb_all-append st [] ys = refl
absorb_all-append st (x ∷ xs) ys = absorb_all-append (absorb st x) xs ys

pub absorb_part :
    (s : State) (held xs : List ℕ)
    → length held + length xs < buffersize
    → absorb_all (s, held) xs ≡ (s, held ++ xs)
unfolding absorb_all absorb
absorb_part s held [] h = ap (λ t. (s, t)) (sym (append-nil held))
absorb_part s held (x ∷ xs) h =
    let grown = length-append held (x ∷ []) in
    ap (λ t. absorb_all t xs) {x = absorb (s, held) x} {y = (s, held ++ x ∷ [])} (ground arith)
    ∙ absorb_part s (held ++ x ∷ []) xs (omega (arith, grown))
    ∙ ap (λ t. (s, t)) (append_assoc held (x ∷ []) xs)

pub absorb_block :
    (s : State) (held xs : List ℕ)
    → length held < buffersize
    → length held + length xs ≡ buffersize
    → absorb_all (s, held) xs ≡ (update_state (words (held ++ xs)) s, [])
unfolding absorb_all absorb
absorb_block s held [] p h = absurd (omega arith)
absorb_block s held (x ∷ []) p h = ground arith
absorb_block s held (x ∷ y ∷ xs) p h =
    let grown = length-append held (x ∷ []) in
    ap (λ t. absorb_all t (y ∷ xs)) {x = absorb (s, held) x} {y = (s, held ++ x ∷ [])}
      (ground arith)
    ∙ absorb_block s (held ++ x ∷ []) (y ∷ xs) (omega (arith, grown)) (omega (arith, grown))
    ∙ ap (λ t. (update_state (words t) s, [])) (append_assoc held (x ∷ []) (y ∷ xs))

-- Completing the buffer and going on with the rest is absorbing the bytes.
absorb_completed :
    (s : State) (held current : List ℕ)
    → length held < buffersize
    → buffersize ≤ length held + length current
    → let have = buffersize - length held in
      absorb_all (update_state (words (held ++ take have current)) s, []) (drop have current)
      ≡ absorb_all (s, held) current
absorb_completed s held current p enough =
    let have = buffersize - length held in
    let block =
      absorb_block s held (take have current) p (omega (arith, length-take have current)) in
    ap (λ t. absorb_all t (drop have current)) (sym block)
    ∙ sym (absorb_all-append (s, held) (take have current) (drop have current))
    ∙ ap (absorb_all (s, held)) (take-append-drop have current)

-- The loop of Update, with enough fuel.
pub update_loop_lem :
    (fuel : ℕ) (s : State) (held current : List ℕ)
    → length held < buffersize
    → length current < fuel
    → update_loop fuel s held current ≡ absorb_all (s, held) current
unfolding update_loop
update_loop_lem zero s held current p h = absurd (omega arith)
update_loop_lem (suc fuel) s held current p h =
    let have = buffersize - length held in
    let next = update_state (words (held ++ take have current)) s in
    elim (Bool-cases (leb buffersize (length held + length current))) [
      | inl full ↦ rw full (
          update_loop_lem fuel next [] (drop have current) (omega arith)
            (omega (arith, length-drop have current, leb→le _ _ full))
          ∙ absorb_completed s held current p (leb→le _ _ full))
      | inr short ↦ rw short (sym (absorb_part s held current (ground arith)))
    ]

pub record IsValid (c : Context) : Type 0 where
  pub room : length c.held < buffersize
  pub counted : c.bytes < 2 ^ 64

abbrev pub as_context : State × List ℕ → ℕ → Context
as_context (s, held) n = record { state = s; held = held; bytes = n }

pub update_lem :
    (c : Context) (xs : List ℕ)
    → IsValid c
    → update c xs ≡ as_context (absorb_all (c.state, c.held) xs) ((c.bytes + length xs) % 2 ^ 64)
unfolding update
update_lem c xs v = rw (update_loop_lem (suc (length xs)) c.state c.held xs v.room (omega arith))

absorb-room :
    (s : State) (held : List ℕ) (x : ℕ)
    → length held < buffersize
    → length (absorb (s, held) x).1 < buffersize
unfolding absorb
absorb-room s held x h = ground (arith, length-append held (x ∷ []))

length-absorb :
    (s : State) (held : List ℕ) (x : ℕ)
    → length held < buffersize
    → length (absorb (s, held) x).1 ≡ (length held + 1) % buffersize
unfolding absorb
length-absorb s held x h = ground (arith, length-append held (x ∷ []))

pub length-absorb_all :
    (st : State × List ℕ) (xs : List ℕ)
    → length st.1 < buffersize
    → length (absorb_all st xs).1 ≡ (length st.1 + length xs) % buffersize
unfolding absorb_all
length-absorb_all st [] h = omega arith
length-absorb_all st (x ∷ xs) h =
    length-absorb_all (absorb st x) xs (absorb-room st.0 st.1 x h)
    ∙ omega (arith, length-absorb st.0 st.1 x h)

pub absorb_all-room :
    (st : State × List ℕ) (xs : List ℕ)
    → length st.1 < buffersize
    → length (absorb_all st xs).1 < buffersize
unfolding absorb_all
absorb_all-room st [] h = h
absorb_all-room st (x ∷ xs) h = absorb_all-room (absorb st x) xs (absorb-room st.0 st.1 x h)

pub update-IsValid : (c : Context) (xs : List ℕ) → IsValid c → IsValid (update c xs)
update-IsValid c xs v =
    rw (update_lem c xs v)
      (record { room = absorb_all-room (c.state, c.held) xs v.room; counted = omega arith })

-- On a valid context, two calls of Update are one over the bytes of both.
pub update-update :
    (c : Context) (xs ys : List ℕ) → IsValid c → update (update c xs) ys ≡ update c (xs ++ ys)
update-update c xs ys v =
    let st = absorb_all (c.state, c.held) xs in
    let n = (c.bytes + length xs) % 2 ^ 64 in
    let room = absorb_all-room (c.state, c.held) xs v.room in
    ap (λ t. update t ys) (update_lem c xs v)
    ∙ update_lem (as_context st n) ys (record { room = room; counted = omega arith })
    ∙ ap₂ as_context {u = (n + length ys) % 2 ^ 64} {v = (c.bytes + length (xs ++ ys)) % 2 ^ 64}
        (sym (absorb_all-append (c.state, c.held) xs ys)) (omega (arith, length-append xs ys))
    ∙ sym (update_lem c (xs ++ ys) v)

-- No bytes change nothing.
pub update-nil : (c : Context) → IsValid c → update c [] ≡ c
unfolding absorb_all
update-nil c v =
    update_lem c [] v
    ∙ ap (as_context (c.state, c.held)) {x = (c.bytes + 0) % 2 ^ 64} {y = c.bytes}
        (omega (arith, v.counted))

abbrev pub zero_bytes : ℕ → List ℕ
zero_bytes n = replicate n 0

zero_bytes-add : (m n : ℕ) → zero_bytes m ++ zero_bytes n ≡ zero_bytes (m + n)
zero_bytes-add zero n = ap zero_bytes {y = 0 + n} (omega arith)
zero_bytes-add (suc m) n =
    ap (λ t. 0 ∷ t) (zero_bytes-add m n) ∙ ap zero_bytes {x = suc (m + n)} (omega arith)

zeros_loop_lem :
    (fuel : ℕ) (c : Context) (n : ℕ)
    → IsValid c
    → n < fuel
    → zeros_loop fuel c n ≡ update c (zero_bytes n)
unfolding zeros_loop
zeros_loop_lem zero c n v h = absurd (omega arith)
zeros_loop_lem (suc fuel) c n v h = elim (Bool-cases (leb buffersize n)) [
  | inl more ↦ rw more (
      zeros_loop_lem fuel (update c (zero_bytes buffersize)) (n - buffersize)
        (update-IsValid c (zero_bytes buffersize) v) (omega (arith, leb→le _ _ more))
      ∙ update-update c (zero_bytes buffersize) (zero_bytes (n - buffersize)) v
      ∙ ap (update c) (
          zero_bytes-add buffersize (n - buffersize)
          ∙ ap (λ t. zero_bytes t) {y = n} (omega (arith, leb→le _ _ more))))
  | inr last ↦ rw last (elim (Bool-cases (ltb 0 n)) [
    | inl some ↦ rw some refl
    | inr none' ↦
        rw none'
          (sym (update-nil c v) ∙ ap (λ t. update c (zero_bytes t)) {x = 0} {y = n} (ground arith))
  ])
]

-- On a valid context, Update over a number of zero bytes is Update over a buffer of them.
pub update_zeros-eq-update :
    (c : Context) (n : ℕ) → IsValid c → update_zeros c n ≡ update c (zero_bytes n)
unfolding update_zeros
update_zeros-eq-update c n v =
    let size = min (buffersize - length c.held) n in
    elim (Bool-cases (ltb 0 (length c.held))) [
      | inl held ↦ rw held (
          zeros_loop_lem (suc n) (update c (zero_bytes size)) (n - size)
            (update-IsValid c (zero_bytes size) v) (omega arith)
          ∙ update-update c (zero_bytes size) (zero_bytes (n - size)) v
          ∙ ap (update c) (zero_bytes-add size (n - size) ∙ ap zero_bytes {y = n} (omega arith)))
      | inr empty ↦ rw empty (zeros_loop_lem (suc n) c n v (omega arith))
    ]
