-- ===== src/Partitioner.antt =====
-- afkak/partitioner.py: the hash of keys, and the two partitioners.
pub mod Murmur
pub mod Hashed
pub mod Cycling
use Prim.Native.Nat.{bit_xor}
use afkak.Prelude.{
  ℕ, zero, suc, ◌+◌, ◌*◌, ◌/◌, ◌%◌, ◌^◌, ◌≡◌, refl, Bool, true, false, ◌&&◌, Option, none, some,
  List, [], ◌∷◌, if◌then◌else◌, length, get_elem?,
}
use afkak.Prelude.Int.{ℤ, ltb_ℤ, eqb_ℤ}
use afkak.Result.{
  Result, ok, err, value_error, index_error, zero_division_error, stop_iteration, ◌>>=◌,
}
use afkak.Wire.Struct.{Bytes}
use afkak.Wire.Text.{Text, encode_utf8}
use afkak.Assignment.{sort_into, advance}

-- `& mod32bits`
abbrev pub low32 : ℕ → ℕ
low32 n = n % 2 ^ 32

abbrev pub m : ℕ
m = 0x5bd1e995

abbrev pub mixed_word : ℕ → ℕ → ℕ → ℕ → ℕ
mixed_word b0 b1 b2 b3 =
    let k =
      low32 (low32 (b0 % 256 + b1 % 256 * 2 ^ 8 + b2 % 256 * 2 ^ 16 + b3 % 256 * 2 ^ 24) * m) in
    low32 (low32 (bit_xor k (k / 2 ^ 24)) * m)

-- The last few bytes.
abbrev pub extra_bytes : ℕ → Bytes → ℕ
extra_bytes h [] = h
extra_bytes h (b0 ∷ []) = low32 (low32 (bit_xor h (b0 % 256)) * m)
extra_bytes h (b0 ∷ b1 ∷ []) =
    low32 (low32 (bit_xor (low32 (bit_xor h (b1 % 256 * 2 ^ 8))) (b0 % 256)) * m)
extra_bytes h (b0 ∷ b1 ∷ b2 ∷ _) =
    let h3 = low32 (bit_xor h (b2 % 256 * 2 ^ 16)) in
    low32 (low32 (bit_xor (low32 (bit_xor h3 (b1 % 256 * 2 ^ 8))) (b0 % 256)) * m)

-- The loop over the words of four bytes, and then what is left.
unfoldable pub hash_words : ℕ → Bytes → ℕ
hash_words h (b0 ∷ b1 ∷ b2 ∷ b3 ∷ bs) =
    hash_words (low32 (bit_xor (low32 (h * m)) (mixed_word b0 b1 b2 b3))) bs
hash_words h bs = extra_bytes h bs

abbrev pub finish : ℕ → ℕ
finish h = let h1 = low32 (low32 (bit_xor h (h / 2 ^ 13)) * m) in low32 (bit_xor h1 (h1 / 2 ^ 15))

unfoldable pub pure_murmur2 : Bytes → ℕ → ℕ
unfolding hash_words
pure_murmur2 byte_array seed = finish (hash_words (bit_xor seed (length byte_array)) byte_array)

-- Hashes that afkak/test/test_partitioner.py expects.
murmur2_check : pure_murmur2 (0x5f ∷ 0x21 ∷ 0x21 ∷ 0x5f ∷ []) 0x9747b28c ≡ 2335345241
unfolding pure_murmur2
murmur2_check = refl

-- A key as text, or as bytes or a bytearray.
pub data Key : Type 0 where
  text : Text → Key
  bytes : Bytes → Key

abbrev pub key_bytes : Key → Result Bytes
key_bytes (text s) = encode_utf8 s
key_bytes (bytes b) = ok b

-- HashedPartitioner._hash without the C implementation, and with its seed.
abbrev pub hash_key : Key → Result ℕ
hash_key key = key_bytes key >>= λ b. ok (pure_murmur2 b 0x9747b28c)

abbrev pub item {ℓ} : {A : Type ℓ} → Option A → Result A
item none = err index_error
item (some a) = ok a

abbrev pub by_hash {ℓ} : {A : Type ℓ} → List A → ℕ → Result A
by_hash [] hash = err zero_division_error
by_hash (p ∷ ps) hash = item (get_elem? (p ∷ ps) (hash % 2 ^ 31 % length (p ∷ ps)))

-- HashedPartitioner.partition
unfoldable pub hashed_partition : Key → List ℤ → Result ℤ
hashed_partition key partitions = hash_key key >>= by_hash partitions

-- `iterpart` is a cycle over `source`, of whose round `rest` is left.
pub record RoundRobinPartitioner : Type 0 where
  pub partitions : List ℤ
  pub source : List ℤ
  pub rest : List ℤ

abbrev pub skip : ℕ → List ℤ → List ℤ → List ℤ
skip zero source rest = rest
skip (suc n) source rest = elim (advance source rest) [
  | none ↦ rest
  | some (p, rest') ↦ skip n source rest'
]

abbrev pub started : List ℤ → ℕ → RoundRobinPartitioner
started partitions start = record {
  partitions = sort_into ltb_ℤ [] partitions;
  source = partitions;
  rest = skip start partitions partitions;
}

-- _set_partitions; `start` is what randint(0, len(partitions) - 1) gives, where it is called.
abbrev pub set_partitions : Bool → ℕ → List ℤ → Result RoundRobinPartitioner
set_partitions false start partitions = ok (started partitions 0)
set_partitions true start [] = err value_error
set_partitions true start (p ∷ ps) = ok (started (p ∷ ps) start)

abbrev pub ints_beq : List ℤ → List ℤ → Bool
ints_beq [] [] = true
ints_beq (a ∷ s) (b ∷ t) = eqb_ℤ a b && ints_beq s t
ints_beq _ _ = false

abbrev pub next_partition :
    RoundRobinPartitioner → Option (ℤ × List ℤ) → Result (ℤ × RoundRobinPartitioner)
next_partition st none = err stop_iteration
next_partition st (some (p, rest)) =
    ok (p, record { partitions = st.partitions; source = st.source; rest = rest })

-- RoundRobinPartitioner.partition
unfoldable pub partition :
    Bool → ℕ → RoundRobinPartitioner → List ℤ → Result (ℤ × RoundRobinPartitioner)
partition random_start start st partitions =
    (if ints_beq st.partitions partitions
      then ok st
      else set_partitions random_start start partitions)
    >>= λ fresh. next_partition fresh (advance fresh.source fresh.rest)

-- One call for each element of `starts`, with the partitions that the calls return.
unfoldable pub calls : Bool → List ℕ → RoundRobinPartitioner → List ℤ → Result (List ℤ)
unfolding partition
calls random_start [] st partitions = ok []
calls random_start (start ∷ starts) st partitions =
    partition random_start start st partitions >>= λ r.
    calls random_start starts r.1 partitions >>= λ chosen. ok (r.0 ∷ chosen)
