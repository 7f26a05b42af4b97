-- ===== src/Partitioner/Hashed.antt =====
-- The partition that `HashedPartitioner` of afkak/partitioner.py selects.
use native.Mathlib.Nat.{mod-lt}
use afkak.Prelude.{
  ℕ, zero, suc, ◌%◌, ◌^◌, ◌≤◌, ◌<◌, ◌≡◌, refl, ap, ◌⊎◌, inl, inr, true, false, ◌&&◌, some, List, [],
  ◌∷◌, ◌++◌, arith, ltb, leb, Bool-cases, length, get_elem?, All,
}
use afkak.Prelude.Int.{ℤ}
use afkak.Result.{ok}
use afkak.Wire.Struct.{Bytes}
use afkak.Wire.Text.{Text, encode_char, encode_utf8, decode_utf8}
use afkak.Wire.Text.Utf8.{decode_utf8-encode_utf8}
use afkak.Partitioner.{Key, text, bytes, key_bytes, item, by_hash, hashed_partition, pure_murmur2}
use afkak.Partitioner.Murmur.{java_murmur2, pure_murmur2-java}

in_range {ℓ} : {A : Type ℓ} (l : List A) (i : ℕ) → i < length l → (a : A) × (get_elem? l i ≡ some a)
in_range [] i h = absurd (omega arith)
in_range (x ∷ l) zero h = (x, refl)
in_range (x ∷ l) (suc i) h = in_range l i (omega arith)

by_hash_lem :
    (partitions : List ℤ) (hash : ℕ)
    → 0 < length partitions
    → (p : ℤ) × (get_elem? partitions (hash % 2 ^ 31 % length partitions) ≡ some p)
      × (by_hash partitions hash ≡ ok p)
by_hash_lem [] hash h = absurd (omega arith)
by_hash_lem (x ∷ l) hash h =
    let i = hash % 2 ^ 31 % length (x ∷ l) in
    let (p, found) = in_range (x ∷ l) i (mod-lt (hash % 2 ^ 31) h) in (p, found, ap item found)

-- A code point that has bytes: it is in range and no surrogate.
abbrev IsScalar : ℕ → Type 0
IsScalar c = (c < 0xd800) ⊎ ((0xe000 ≤ c) × (c < 0x110000))

abbrev pub IsEncodable : Key → Type 0
IsEncodable (text s) = All IsScalar s
IsEncodable (bytes b) = Unit {0}

-- The bytes that a key stands for: those that decode to a text, or its own.
abbrev pub IsOfKey : Key → Bytes → Type 0
IsOfKey (text s) b = decode_utf8 b ≡ ok s
IsOfKey (bytes c) b = c ≡ b

encode_char_scalar : (c : ℕ) → IsScalar c → (b : Bytes) × (encode_char c ≡ ok b)
unfolding encode_char
encode_char_scalar c h = elim (Bool-cases (ltb c 0x80)) [
  | inl one ↦ rw one (_, refl)
  | inr more ↦ elim (Bool-cases (ltb c 0x800)) [
    | inl two ↦ rw (more, two) (_, refl)
    | inr longer ↦ elim (Bool-cases (ltb c 0x10000)) [
      | inl three ↦ rw (more, longer, whole, three) (_, refl)
      | inr four ↦ rw (more, longer, whole, four, in_reach) (_, refl)
    ]
  ]
]
  where
    whole : (leb 0xd800 c && ltb c 0xe000) ≡ false
    whole = ground (arith, h)

    in_reach : ltb c 0x110000 ≡ true
    in_reach = ground (arith, h)

encode_utf8_scalars : (s : Text) → All IsScalar s → (b : Bytes) × (encode_utf8 s ≡ ok b)
unfolding encode_utf8
encode_utf8_scalars [] h = ([], refl)
encode_utf8_scalars (c ∷ cs) h =
    let (b, e) = encode_char_scalar c h.0 in
    let (bs, es) = encode_utf8_scalars cs h.1 in (b ++ bs, rw (e, es))

key_bytes_lem : (key : Key) → IsEncodable key → (b : Bytes) × (key_bytes key ≡ ok b) × IsOfKey key b
key_bytes_lem (text s) h =
    let (b, e) = encode_utf8_scalars s h in (b, e, decode_utf8-encode_utf8 s b e)
key_bytes_lem (bytes b) h = (b, refl, refl)

-- For a key of bytes, or a text without surrogates, and at least one partition, the partitioner
-- selects the one whose index is the hash of Kafka's Java client, of the key's bytes or the bytes that
-- are the text in UTF-8, without its sign bit, modulo the number of partitions.
pub hashed_partition_lem :
    (key : Key) (partitions : List ℤ)
    → IsEncodable key
    → 0 < length partitions
    → (b : Bytes) × (p : ℤ) × IsOfKey key b
      × (get_elem? partitions (java_murmur2 b % 2 ^ 31 % length partitions) ≡ some p)
      × (hashed_partition key partitions ≡ ok p)
unfolding hashed_partition
hashed_partition_lem key partitions h some_partition =
    let (b, e, of_key) = key_bytes_lem key h in
    let (p, found, selected) = by_hash_lem partitions (pure_murmur2 b 0x9747b28c) some_partition in
    (b, p, of_key, rw (← pure_murmur2-java b) found, rw e selected)
