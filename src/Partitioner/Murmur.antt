-- ===== src/Partitioner/Murmur.antt =====
-- `pure_murmur2` of afkak/partitioner.py beside the hash of Kafka's Java client, of which it is a port.
use Prim.Native.Nat.{bit_xor, bit_xor-bitwise, digits, differ}
use native.Mathlib.Nat.{pow-suc, mod-lt}
use mathlib.Core.Path.{subst}
use afkak.Prelude.{
  ℕ, zero, suc, ◌+◌, ◌*◌, ◌/◌, ◌%◌, ◌^◌, ◌≤◌, ◌<◌, ◌≡◌, refl, sym, ap, ◌∙◌, [], ◌∷◌, arith, length,
}
use afkak.Wire.Struct.{Bytes}
use afkak.Partitioner.{low32, m, mixed_word, extra_bytes, hash_words, finish, pure_murmur2}

-- Exclusive or stays within the bits of its arguments.
differ_most : (a b : ℕ) → a < 2 → b < 2 → differ a b < 2
differ_most zero b h g = g
differ_most (suc a) zero h g = h
differ_most (suc zero) (suc zero) h g = omega arith
differ_most (suc zero) (suc (suc b)) h g = absurd (omega arith)
differ_most (suc (suc a)) (suc b) h g = absurd (omega arith)

digits_bound : (k n a b : ℕ) → a < 2 ^ k → b < 2 ^ k → digits (λ c. c) differ n a b < 2 ^ k
digits_bound k zero a b h g = g
digits_bound k (suc n) zero b h g = g
digits_bound zero (suc n) (suc a) b h g = absurd (omega arith)
digits_bound (suc k) (suc n) (suc a) b h g =
    let power = pow-suc 2 k in
    let rest = digits_bound k n (suc a / 2) (b / 2) (omega (arith, power)) (omega (arith, power)) in
    let last = differ_most (suc a % 2) (b % 2) (omega arith) (omega arith) in
    omega (arith, power, rest, last)

bit_xor_bound : (a b : ℕ) → a < 2 ^ 32 → b < 2 ^ 32 → bit_xor a b < 2 ^ 32
bit_xor_bound a b h g =
    subst (λ c. c < 2 ^ 32) (sym (λ i. bit_xor-bitwise a b i)) (digits_bound 32 a a b h g)

low32_bound : (n : ℕ) → low32 n < 2 ^ 32
low32_bound n = mod-lt n (omega arith)

low32_small : (n : ℕ) → n < 2 ^ 32 → low32 n ≡ n
low32_small n h = omega (arith, h)

-- Java's int arithmetic, on the 32 bits of an int: a * b, a ^ b, a >>> n and data[i] & 0xff.
abbrev mul : ℕ → ℕ → ℕ
mul a b = (a * b) % 2 ^ 32

-- A little-endian int.
abbrev little : Bytes → ℕ
little [] = 0
little (b ∷ bs) = b % 256 + 256 * little bs

abbrev scramble : ℕ → ℕ
scramble k = let k1 = mul k 0x5bd1e995 in mul (bit_xor k1 (k1 / 2 ^ 24)) 0x5bd1e995

-- The words, and the switch over what is left.
unfoldable pub mixed : ℕ → Bytes → ℕ
mixed h [] = h
mixed h (b0 ∷ []) = mul (bit_xor h (b0 % 256)) 0x5bd1e995
mixed h (b0 ∷ b1 ∷ []) = mul (bit_xor (bit_xor h (b1 % 256 * 2 ^ 8)) (b0 % 256)) 0x5bd1e995
mixed h (b0 ∷ b1 ∷ b2 ∷ []) =
    let high = bit_xor (bit_xor h (b2 % 256 * 2 ^ 16)) (b1 % 256 * 2 ^ 8) in
    mul (bit_xor high (b0 % 256)) 0x5bd1e995
mixed h (b0 ∷ b1 ∷ b2 ∷ b3 ∷ bs) =
    mixed (bit_xor (mul h 0x5bd1e995) (scramble (little (b0 ∷ b1 ∷ b2 ∷ b3 ∷ [])))) bs

abbrev avalanche : ℕ → ℕ
avalanche h = let h1 = mul (bit_xor h (h / 2 ^ 13)) 0x5bd1e995 in bit_xor h1 (h1 / 2 ^ 15)

-- The hash of org.apache.kafka.common.utils.Utils.murmur2, as a number without sign.
unfoldable pub java_murmur2 : Bytes → ℕ
unfolding mixed
java_murmur2 bs = avalanche (mixed (bit_xor 0x9747b28c (length bs) % 2 ^ 32) bs)

-- What is shifted to the right stays an int, and so does the exclusive or with it.
xor_shift_bound : (h d : ℕ) → h < 2 ^ 32 → h / d ≤ h → bit_xor h (h / d) < 2 ^ 32
xor_shift_bound h d bound less = bit_xor_bound h (h / d) bound (omega (arith, less))

mixed_word_lem :
    (b0 b1 b2 b3 : ℕ) → mixed_word b0 b1 b2 b3 ≡ scramble (little (b0 ∷ b1 ∷ b2 ∷ b3 ∷ []))
mixed_word_lem b0 b1 b2 b3 =
    let k1 = mul (little (b0 ∷ b1 ∷ b2 ∷ b3 ∷ [])) 0x5bd1e995 in
    let bound = low32_bound (little (b0 ∷ b1 ∷ b2 ∷ b3 ∷ []) * 0x5bd1e995) in
    let word : low32 (b0 % 256 + b1 % 256 * 2 ^ 8 + b2 % 256 * 2 ^ 16 + b3 % 256 * 2 ^ 24)
        ≡ little (b0 ∷ b1 ∷ b2 ∷ b3 ∷ []) =
      omega arith in
    ap (λ w. low32 (low32 (bit_xor (low32 (w * m)) (low32 (w * m) / 2 ^ 24)) * m)) word
    ∙ ap (λ x. low32 (x * m))
        (low32_small (bit_xor k1 (k1 / 2 ^ 24)) (xor_shift_bound k1 (2 ^ 24) bound (omega arith)))

extra_bytes_lem : (h : ℕ) (bs : Bytes) → h < 2 ^ 32 → length bs < 4 → extra_bytes h bs ≡ mixed h bs
unfolding mixed
extra_bytes_lem h [] bound short = refl
extra_bytes_lem h (b0 ∷ []) bound short =
    ap (λ x. low32 (x * m))
      (low32_small (bit_xor h (b0 % 256)) (bit_xor_bound h (b0 % 256) bound (omega arith)))
extra_bytes_lem h (b0 ∷ b1 ∷ []) bound short =
    let first = bit_xor_bound h (b1 % 256 * 2 ^ 8) bound (omega arith) in
    let h1 = bit_xor h (b1 % 256 * 2 ^ 8) in
    ap (λ x. low32 (low32 (bit_xor x (b0 % 256)) * m)) (low32_small h1 first)
    ∙ ap (λ x. low32 (x * m))
        (low32_small (bit_xor h1 (b0 % 256)) (bit_xor_bound h1 (b0 % 256) first (omega arith)))
extra_bytes_lem h (b0 ∷ b1 ∷ b2 ∷ []) bound short =
    let first = bit_xor_bound h (b2 % 256 * 2 ^ 16) bound (omega arith) in
    let h1 = bit_xor h (b2 % 256 * 2 ^ 16) in
    let second = bit_xor_bound h1 (b1 % 256 * 2 ^ 8) first (omega arith) in
    let h2 = bit_xor h1 (b1 % 256 * 2 ^ 8) in
    ap (λ x. low32 (low32 (bit_xor (low32 (bit_xor x (b1 % 256 * 2 ^ 8))) (b0 % 256)) * m))
      (low32_small h1 first)
    ∙ ap (λ x. low32 (low32 (bit_xor x (b0 % 256)) * m)) (low32_small h2 second)
    ∙ ap (λ x. low32 (x * m))
        (low32_small (bit_xor h2 (b0 % 256)) (bit_xor_bound h2 (b0 % 256) second (omega arith)))
extra_bytes_lem h (b0 ∷ b1 ∷ b2 ∷ b3 ∷ bs) bound short = absurd (omega arith)

mixed_bound : (h : ℕ) (bs : Bytes) → h < 2 ^ 32 → mixed h bs < 2 ^ 32
unfolding mixed
mixed_bound h [] bound = bound
mixed_bound h (b0 ∷ []) bound = low32_bound _
mixed_bound h (b0 ∷ b1 ∷ []) bound = low32_bound _
mixed_bound h (b0 ∷ b1 ∷ b2 ∷ []) bound = low32_bound _
mixed_bound h (b0 ∷ b1 ∷ b2 ∷ b3 ∷ bs) bound =
    let k = scramble (little (b0 ∷ b1 ∷ b2 ∷ b3 ∷ [])) in
    let next = bit_xor_bound (low32 (h * m)) k (low32_bound (h * m)) (low32_bound _) in
    mixed_bound (bit_xor (low32 (h * m)) k) bs next

hash_words_lem : (h : ℕ) (bs : Bytes) → h < 2 ^ 32 → hash_words h bs ≡ mixed h bs
unfolding hash_words mixed
hash_words_lem h [] bound = refl
hash_words_lem h (b0 ∷ []) bound = extra_bytes_lem h (b0 ∷ []) bound (omega arith)
hash_words_lem h (b0 ∷ b1 ∷ []) bound = extra_bytes_lem h (b0 ∷ b1 ∷ []) bound (omega arith)
hash_words_lem h (b0 ∷ b1 ∷ b2 ∷ []) bound =
    extra_bytes_lem h (b0 ∷ b1 ∷ b2 ∷ []) bound (omega arith)
hash_words_lem h (b0 ∷ b1 ∷ b2 ∷ b3 ∷ bs) bound =
    let k = scramble (little (b0 ∷ b1 ∷ b2 ∷ b3 ∷ [])) in
    let next = bit_xor_bound (low32 (h * m)) k (low32_bound (h * m)) (low32_bound _) in
    ap (λ w. hash_words (low32 (bit_xor (low32 (h * m)) w)) bs) (mixed_word_lem b0 b1 b2 b3)
    ∙ ap (λ x. hash_words x bs) (low32_small (bit_xor (low32 (h * m)) k) next)
    ∙ hash_words_lem (bit_xor (low32 (h * m)) k) bs next

finish_lem : (h : ℕ) → h < 2 ^ 32 → finish h ≡ avalanche h
finish_lem h bound =
    let one =
      low32_small (bit_xor h (h / 2 ^ 13)) (xor_shift_bound h (2 ^ 13) bound (omega arith)) in
    let h1 = mul (bit_xor h (h / 2 ^ 13)) 0x5bd1e995 in
    ap (λ x. low32 (bit_xor (low32 (x * m)) (low32 (x * m) / 2 ^ 15))) one
    ∙ low32_small (bit_xor h1 (h1 / 2 ^ 15))
        (xor_shift_bound h1 (2 ^ 15) (low32_bound _) (omega arith))

-- A start that is no int, of a key of 2 ** 32 bytes or more, is cut to one by the first word.
start_lem : (h : ℕ) (bs : Bytes) → 4 ≤ length bs → hash_words h bs ≡ hash_words (low32 h) bs
unfolding hash_words
start_lem h [] long = absurd (omega arith)
start_lem h (b0 ∷ []) long = absurd (omega arith)
start_lem h (b0 ∷ b1 ∷ []) long = absurd (omega arith)
start_lem h (b0 ∷ b1 ∷ b2 ∷ []) long = absurd (omega arith)
start_lem h (b0 ∷ b1 ∷ b2 ∷ b3 ∷ bs) long =
    let cut : low32 (h * m) ≡ low32 (low32 h * m) = omega arith in
    ap (λ x. hash_words (low32 (bit_xor x (mixed_word b0 b1 b2 b3))) bs) cut

seed_lem :
    (bs : Bytes)
    → hash_words (bit_xor 0x9747b28c (length bs)) bs
      ≡ hash_words (low32 (bit_xor 0x9747b28c (length bs))) bs
seed_lem [] = refl
seed_lem (b0 ∷ []) = refl
seed_lem (b0 ∷ b1 ∷ []) = refl
seed_lem (b0 ∷ b1 ∷ b2 ∷ []) = refl
seed_lem (b0 ∷ b1 ∷ b2 ∷ b3 ∷ bs) =
    start_lem (bit_xor 0x9747b28c (length (b0 ∷ b1 ∷ b2 ∷ b3 ∷ bs))) (b0 ∷ b1 ∷ b2 ∷ b3 ∷ bs)
      (omega arith)

-- With its default seed, pure_murmur2 of any bytes is the hash of Kafka's Java client, which is
-- computed in the arithmetic of 32-bit ints.
pub pure_murmur2-java : (bs : Bytes) → pure_murmur2 bs 0x9747b28c ≡ java_murmur2 bs
unfolding pure_murmur2 java_murmur2
pure_murmur2-java bs =
    let start = low32 (bit_xor 0x9747b28c (length bs)) in
    let bound = low32_bound (bit_xor 0x9747b28c (length bs)) in
    ap finish (seed_lem bs ∙ hash_words_lem start bs bound)
    ∙ finish_lem (mixed start bs) (mixed_bound start bs bound)
