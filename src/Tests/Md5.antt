-- ===== src/Tests/Md5.antt =====
-- RFC 1321's test values.
use par2tbb.Base.{◌≡◌, refl, [], ◌∷◌}
use par2tbb.Md5.{reset, update, update_loop, update_zeros, final, finish, hash, words}
use par2tbb.Md5.{little_endian, padding_size}
use par2tbb.Md5.Stream.{zero_bytes, update_zeros-eq-update}
use par2tbb.Md5.Digest.{rfc1321, update_each, joined, final-update_each, reset-IsValid}
use par2tbb.Md5.Compress.{
  update_state, pass1, pass2, pass3, pass4, four_rounds, round, rol, f1, f2, f3, f4,
}

md5_abc :
    final (update reset (0x61 ∷ 0x62 ∷ 0x63 ∷ []))
    ≡ 0x90 ∷ 0x01 ∷ 0x50 ∷ 0x98 ∷ 0x3c ∷ 0xd2 ∷ 0x4f ∷ 0xb0 ∷ 0xd6 ∷ 0x96 ∷ 0x3f ∷ 0x7d ∷ 0x28
      ∷ 0xe1 ∷ 0x7f ∷ 0x72 ∷ []
unfolding final finish hash update update_loop words little_endian padding_size update_state pass1
    pass2 pass3 pass4 four_rounds round rol f1 f2 f3 f4
md5_abc = refl

final-update_each_example :
    final (update_each reset ((0x61 ∷ []) ∷ (0x62 ∷ 0x63 ∷ []) ∷ []))
    ≡ rfc1321 (0x61 ∷ 0x62 ∷ 0x63 ∷ [])
unfolding joined
final-update_each_example = final-update_each ((0x61 ∷ []) ∷ (0x62 ∷ 0x63 ∷ []) ∷ [])

update_zeros-eq-update_example : update_zeros reset 100 ≡ update reset (zero_bytes 100)
update_zeros-eq-update_example = update_zeros-eq-update reset 100 reset-IsValid
