-- ===== src/Scan/Digest.antt =====
-- The hash that LoadPacketsFromFile of par2repairer.cpp computes of a packet, in pieces.
use mathlib.Core.Option.{some-injective}
use par2tbb.Base.{ℕ, zero, suc, ◌+◌, ◌-◌, ◌≤◌, ◌<◌, ◌≡◌, sym, ap, ◌∙◌, arith, min, ltb}
use par2tbb.Base.{Bool-cases, Option-cases, false, inl, inr, some, List, ◌++◌, take, drop}
use par2tbb.Md5.{Context, update}
use par2tbb.Md5.Stream.{IsValid, update-IsValid, update-update, update-nil}
use par2tbb.Checksummer.{Disk, read}
use par2tbb.Checksummer.Progress.{IsReadable}
use par2tbb.Checksummer.Slices.{take-add, drop-drop}
use par2tbb.DataBlock.Copy.{read_readable}
use par2tbb.Scan.{hash_rest}

pub read-some :
    (d : Disk) (offset len : ℕ) (bytes : List ℕ)
    → read d offset len ≡ some bytes
    → bytes ≡ take len (drop offset d.contents)
unfolding read
read-some d offset len bytes done = elim (Bool-cases (d.readable offset len)) [
  | inl readable ↦ sym (some-injective _ bytes (rw readable at done))
  | inr unreadable ↦ absurd (cc (rw unreadable at done))
]

-- The bytes up to the limit are those of a read and those behind it.
pieces :
    (d : Disk) (current want limit : ℕ)
    → want ≤ limit - current
    → take (limit - current) (drop current d.contents)
      ≡ take want (drop current d.contents)
        ++ take (limit - (current + want)) (drop (current + want) d.contents)
pieces d current want limit le =
    let left = limit - (current + want) in
    ap (λ n. take n (drop current d.contents)) {y = want + left} (omega arith)
    ∙ take-add want left (drop current d.contents)
    ∙ ap (λ t. take want (drop current d.contents) ++ take left t)
        (drop-drop current want d.contents)

-- The loop over the rest of a packet is one Update over its bytes.
pub hash_rest_lem :
    (fuel : ℕ) (d : Disk) (buffersize current limit : ℕ) (c : Context)
    → IsReadable d
    → IsValid c
    → 0 < buffersize
    → limit - current ≤ fuel
    → hash_rest fuel d buffersize current limit c
      ≡ some (update c (take (limit - current) (drop current d.contents)))
unfolding hash_rest
hash_rest_lem zero d buffersize current limit c r v positive enough =
    let ended : ltb current limit ≡ false = ground arith in
    let nothing : limit - current ≡ 0 = omega arith in
    rw (ended, nothing) (ap some (sym (update-nil c v)))
hash_rest_lem (suc fuel) d buffersize current limit c r v positive enough =
    elim (Bool-cases (ltb current limit)) [
      | inr ended ↦
          let nothing : limit - current ≡ 0 = ground arith in
          rw (ended, nothing) (ap some (sym (update-nil c v)))
      | inl more ↦
          let want = min buffersize (limit - current) in
          let some_more : current < limit = ground arith in
          let bytes = take want (drop current d.contents) in
          let rest =
            hash_rest_lem fuel d buffersize (current + want) limit (update c bytes) r
              (update-IsValid c bytes v) positive (omega arith) in
          rw (more, read_readable d current want r)
            (rest
              ∙ ap some (
                  update-update c bytes _ v
                  ∙ ap (update c) (sym (pieces d current want limit (omega arith)))))
    ]

-- The same for any device, when the loop reads all.
pub hash_rest-some :
    (fuel : ℕ) (d : Disk) (buffersize current limit : ℕ) (c e : Context)
    → IsValid c
    → 0 < buffersize
    → limit - current ≤ fuel
    → hash_rest fuel d buffersize current limit c ≡ some e
    → e ≡ update c (take (limit - current) (drop current d.contents))
unfolding hash_rest
hash_rest-some zero d buffersize current limit c e v positive enough done =
    let ended : ltb current limit ≡ false = ground arith in
    let nothing : limit - current ≡ 0 = omega arith in
    rw nothing (sym (some-injective c e (rw ended at done)) ∙ sym (update-nil c v))
hash_rest-some (suc fuel) d buffersize current limit c e v positive enough done =
    let want = min buffersize (limit - current) in
    elim (Bool-cases (ltb current limit)) [
      | inr ended ↦
          let nothing : limit - current ≡ 0 = ground arith in
          rw nothing (sym (some-injective c e (rw ended at done)) ∙ sym (update-nil c v))
      | inl more ↦
          let some_more : current < limit = ground arith in
          elim (Option-cases (read d current want)) [
            | inl unread ↦ absurd (cc (rw (more, unread) at done))
            | inr (bytes, has) ↦
                let same = read-some d current want bytes has in
                let rest =
                  hash_rest-some fuel d buffersize (current + want) limit (update c bytes) e
                    (update-IsValid c bytes v) positive (omega arith) (rw (more, has) at done) in
                rest
                ∙ update-update c bytes _ v
                ∙ ap
                    (λ t.
                      update c
                        (t ++ take (limit - (current + want)) (drop (current + want) d.contents)))
                    same
                ∙ ap (update c) (sym (pieces d current want limit (omega arith)))
          ]
    ]
