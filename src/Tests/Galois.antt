-- ===== src/Tests/Galois.antt =====
-- The theorems on galois.h at concrete values.
use par2tbb.Base.{◌≡◌, arith}
use par2tbb.Galois.{galois16, mul, add, pow, pow_assign}
use par2tbb.Galois.Field.{mul-add, mul_assoc}
use par2tbb.Galois.Power.{power, pow-eq-power, pow_assign_lem}
use par2tbb.Galois.Peasant.{peasant, mul-eq-peasant}
use par2tbb.Galois.Instances.{galois16-IsPrimitive}

mul-eq-peasant_example : mul galois16 300 40000 ≡ peasant galois16 9 300 40000
mul-eq-peasant_example =
    mul-eq-peasant galois16-IsPrimitive 9 300 40000 (omega arith) (omega arith) (omega arith)

mul_assoc_example :
    mul galois16 (mul galois16 7 300) 65535 ≡ mul galois16 7 (mul galois16 300 65535)
mul_assoc_example =
    mul_assoc galois16-IsPrimitive 7 300 65535 (omega arith) (omega arith) (omega arith)

mul-add_example : mul galois16 7 (add 300 65535) ≡ add (mul galois16 7 300) (mul galois16 7 65535)
mul-add_example = mul-add galois16-IsPrimitive 7 300 65535 (omega arith) (omega arith) (omega arith)

pow-eq-power_example : pow galois16 300 65535 ≡ power galois16 300 65535
pow-eq-power_example =
    pow-eq-power galois16-IsPrimitive 300 65535 (omega arith) (omega arith) (omega arith)

pow_assign_lem_example :
    (pow_assign galois16 300 7 ≡ power galois16 300 7)
    × (pow_assign galois16 300 1 ≡ 1)
    × (power galois16 300 1 ≡ 300)
    × (pow_assign galois16 0 0 ≡ 0)
    × (power galois16 0 0 ≡ 1)
pow_assign_lem_example =
    pow_assign_lem galois16-IsPrimitive 300 7 (omega arith) (omega arith) (omega arith)
      (omega arith) (omega arith)
