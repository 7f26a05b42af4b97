-- ===== src/Wire/Struct/RoundTrip.antt =====
-- `struct.unpack` undoes `struct.pack`, for every format.
use native.Mathlib.Nat.{pow-suc}
use afkak.Prelude.{
  ℕ, zero, suc, ◌+◌, ◌*◌, ◌/◌, ◌%◌, ◌^◌, ◌<◌, ◌≡◌, refl, ap, sym, ◌∙◌, true, List, [], ◌∷◌, ◌++◌,
  arith, length, length-append, take_front, drop_front, append-nil, append_assoc, ==_refl,
  Bool-cases, inl, inr,
}
use afkak.Prelude.Int.{ℤ}
use afkak.Result.{ok, >>=-eq-ok}
use afkak.Wire.Struct.{
  Bytes, Code, u8, u32, i16, i32, i64, size, fits, to_word, from_word, be_bytes, from_be, encode,
  decode, Values, calcsize, pack, unpack_values, unpack,
}

pub length-be_bytes : (k n : ℕ) → length (be_bytes k n) ≡ k
unfolding be_bytes
length-be_bytes zero n = refl
length-be_bytes (suc k) n =
    omega (arith, length-append (be_bytes k (n / 256)) (n % 256 ∷ []), length-be_bytes k (n / 256))

-- The bytes of `n`, read onto an accumulator, shift it by `k` bytes and add `n`.
from_be-be_bytes :
    (k n acc : ℕ) (bs : Bytes)
    → n < 256 ^ k
    → from_be acc (be_bytes k n ++ bs) ≡ from_be (acc * 256 ^ k + n) bs
unfolding be_bytes from_be
from_be-be_bytes zero n acc bs h = ap (λ a. from_be a bs) (omega arith)
from_be-be_bytes (suc k) n acc bs h = rw append_assoc (
    from_be-be_bytes k (n / 256) acc (n % 256 ∷ bs) (omega (arith, pow-suc 256 k))
    ∙ ap (λ a. from_be a bs) (omega (arith, ap (λ p. acc * p) (pow-suc 256 k))))

from_be-word : (k n : ℕ) → n < 256 ^ k → from_be 0 (be_bytes k n) ≡ n
unfolding from_be
from_be-word k n h =
    rw (sym (append-nil (be_bytes k n))) (from_be-be_bytes k n 0 [] h ∙ omega arith)

from_word-to_word :
    (c : Code) (v : ℤ)
    → fits c v ≡ true
    → (to_word c v < 256 ^ size c) × (from_word c (to_word c v) ≡ v)
from_word-to_word u8 v h = ground arith
from_word-to_word u32 v h = ground arith
from_word-to_word i16 v h = ground arith
from_word-to_word i32 v h = ground arith
from_word-to_word i64 v h = ground arith

decode-encode : (c : Code) (v : ℤ) → fits c v ≡ true → decode c (encode c v) ≡ v
decode-encode c v h =
    let (small, back) = from_word-to_word c v h in
    ap (from_word c) (from_be-word (size c) (to_word c v) small) ∙ back

-- The bytes of a first value that fits, and of the rest.
pub pack_parts :
    (c : Code) (cs : List Code) (v : ℤ) (vs : Values cs) (bs : Bytes)
    → pack (c ∷ cs) (v, vs) ≡ ok bs
    → (fits c v ≡ true) × ((rest : Bytes) × (pack cs vs ≡ ok rest) × (bs ≡ encode c v ++ rest))
unfolding pack
pack_parts c cs v vs bs h = elim (Bool-cases (fits c v)) [
  | inl good ↦ (good, parts (>>=-eq-ok (pack cs vs) (λ r. ok (encode c v ++ r)) (rw good at h)))
  | inr bad ↦ cc
]
  where
    parts :
        (rest : Bytes) × (pack cs vs ≡ ok rest) × (ok (encode c v ++ rest) ≡ ok bs)
        → (rest : Bytes) × (pack cs vs ≡ ok rest) × (bs ≡ encode c v ++ rest)
    parts (rest, packed, same) = (rest, packed, cc)

-- One more value in front.
pub pack-cons :
    (c : Code) (cs : List Code) (v : ℤ) (vs : Values cs) (a b : Bytes)
    → pack (c ∷ []) (v, tt) ≡ ok a
    → pack cs vs ≡ ok b
    → pack (c ∷ cs) (v, vs) ≡ ok (a ++ b)
unfolding pack
pack-cons c cs v vs a b ha hb =
    let (good, (rest, packed, same)) = pack_parts c [] v tt a ha in
    let none_left : rest ≡ [] = cc in rw (good, hb, same, none_left, append-nil (encode c v))

pub pack_first : (c : Code) (v : ℤ) → fits c v ≡ true → pack (c ∷ []) (v, tt) ≡ ok (encode c v)
unfolding pack
pack_first c v good = rw (good, append-nil (encode c v))

pub length-pack :
    (format : List Code) (vs : Values format) (bs : Bytes)
    → pack format vs ≡ ok bs
    → length bs ≡ calcsize format
unfolding pack
length-pack [] vs bs h = ground arith
length-pack (c ∷ cs) (v, vs) bs h =
    let (good, (rest, packed, same)) = pack_parts c cs v vs bs h in
    rw same (
      omega (
        arith,
        length-append (encode c v) rest,
        length-be_bytes (size c) (to_word c v),
        length-pack cs vs rest packed,
      ))

pub unpack_values-pack :
    (format : List Code) (vs : Values format) (bs : Bytes)
    → pack format vs ≡ ok bs
    → unpack_values format bs ≡ vs
unpack_values-pack [] vs bs h = refl
unpack_values-pack (c ∷ cs) (v, vs) bs h =
    let (good, (rest, packed, same)) = pack_parts c cs v vs bs h in
    let width = length-be_bytes (size c) (to_word c v) in
    rw
      (
        same,
        take_front (size c) (encode c v) rest width,
        drop_front (size c) (encode c v) rest width,
      )
      (λ i. (decode-encode c v good i, unpack_values-pack cs vs rest packed i))

-- What `pack` wrote is exactly what `unpack` reads, and it has the size of the format.
pub unpack-pack :
    (format : List Code) (vs : Values format) (bs : Bytes)
    → pack format vs ≡ ok bs
    → (unpack format bs ≡ ok vs) × (length bs ≡ calcsize format)
unfolding unpack
unpack-pack format vs bs h =
    let sized = length-pack format vs bs h in
    (rw (sized, ==_refl (calcsize format)) (ap ok (unpack_values-pack format vs bs h)), sized)
