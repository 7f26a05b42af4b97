-- ===== src/Tests/Partitioner.antt =====
-- The theorems on partitioners at three partitions.
use afkak.Prelude.{
  ◌%◌, ◌^◌, ◌≡◌, refl, inl, true, false, some, List, [], ◌∷◌, map, arith, get_elem?,
}
use afkak.Prelude.Int.{ℤ, pos}
use afkak.Result.{ok}
use afkak.Wire.Struct.{Bytes}
use afkak.Wire.Text.{decode_utf8}
use afkak.Partitioner.{text, pure_murmur2, hashed_partition, started, calls}
use afkak.Partitioner.Murmur.{java_murmur2, pure_murmur2-java}
use afkak.Partitioner.Hashed.{hashed_partition_lem}
use afkak.Partitioner.Cycling.{round_robin_lem, round_robin_unsorted}

abbrev zero_to_two : List ℤ
zero_to_two = pos 0 ∷ pos 1 ∷ pos 2 ∷ []

-- "é", whose bytes are 0xc3 0xa9.
hashed_partition_lem_example :
    (b : Bytes) × (p : ℤ) × (decode_utf8 b ≡ ok (0xe9 ∷ []))
    × (get_elem? zero_to_two (java_murmur2 b % 2 ^ 31 % 3) ≡ some p)
    × (hashed_partition (text (0xe9 ∷ [])) zero_to_two ≡ ok p)
hashed_partition_lem_example =
    hashed_partition_lem (text (0xe9 ∷ [])) zero_to_two (inl (omega arith), tt) (omega arith)

-- A hash that afkak/test/test_partitioner.py expects.
java_check : java_murmur2 (0x5f ∷ 0x21 ∷ 0x21 ∷ 0x5f ∷ []) ≡ 2335345241
unfolding java_murmur2
java_check = refl

pure_murmur2-java_example :
    pure_murmur2 (1 ∷ 2 ∷ 3 ∷ 4 ∷ 5 ∷ []) 0x9747b28c ≡ java_murmur2 (1 ∷ 2 ∷ 3 ∷ 4 ∷ 5 ∷ [])
pure_murmur2-java_example = pure_murmur2-java (1 ∷ 2 ∷ 3 ∷ 4 ∷ 5 ∷ [])

-- Five calls from the last partition on; what randint gives later does not matter.
round_robin_lem_example :
    (chosen : List ℤ) × (calls true (0 ∷ 0 ∷ 0 ∷ 0 ∷ 0 ∷ []) (started zero_to_two 2) zero_to_two
      ≡ ok chosen)
    × (map some chosen
        ≡ some (pos 2) ∷ some (pos 0) ∷ some (pos 1) ∷ some (pos 2) ∷ some (pos 0) ∷ [])
round_robin_lem_example =
    round_robin_lem true zero_to_two 2 (started zero_to_two 2) (0 ∷ 0 ∷ 0 ∷ 0 ∷ 0 ∷ []) refl
      (omega arith) refl

round_robin_unsorted_example :
    calls false (0 ∷ 0 ∷ 0 ∷ []) (started (pos 2 ∷ pos 1 ∷ []) 0) (pos 2 ∷ pos 1 ∷ [])
    ≡ ok (pos 2 ∷ pos 2 ∷ pos 2 ∷ [])
round_robin_unsorted_example =
    round_robin_unsorted (pos 2) (pos 1 ∷ []) (started (pos 2 ∷ pos 1 ∷ []) 0) (0 ∷ 0 ∷ 0 ∷ []) refl
      refl
