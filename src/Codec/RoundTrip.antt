-- ===== src/Codec/RoundTrip.antt =====
-- What `snappy_decode` of afkak/codec.py makes of what `snappy_encode` made.
use afkak.Prelude.{
  ℕ, zero, suc, ◌+◌, ◌≤◌, ◌<◌, ◌≡◌, ap, ◌∙◌, ◌≢◌, Bool, true, false, some, [], ◌∷◌, ◌++◌,
  append_assoc, arith, lt→ltb, le→ltb_false, length, take, drop, length-append, length-drop,
  drop-append, take_front, take_all, take-append-drop,
}
use afkak.Prelude.Int.{ℤ, pos, slice, slice_middle, negsuc}
use afkak.Result.{Result, ok, err, out_of_fuel, ◌>>=◌, >>=-eq-ok}
use afkak.Wire.Struct.{Bytes, i32, pack}
use afkak.Wire.Struct.RoundTrip.{length-pack, unpack_values-pack}
use afkak.Wire.Reader.{whole_length}
use afkak.Codec.{
  xerial_header, Snappy, encode_blocks, snappy_encode, unpack_at, decode_blocks, is_xerial,
  snappy_decode,
}

-- What is asked of the package: it gives back what it compressed, and what it compresses does not
-- start like the framed format.
pub record IsSnappy (snappy : Snappy) : Type 0 where
  pub lossless : (b : Bytes) → snappy.decompress (snappy.compress b) ≡ ok b
  pub unframed : (b : Bytes) → is_xerial (snappy.compress b) ≡ false

-- The place of a block.
slice_block :
    (front size block rest : Bytes)
    → length size ≡ 4
    → slice
        (front ++ (size ++ (block ++ rest)))
        (pos (length front + 4))
        (pos (length front + 4 + length block))
      ≡ block
slice_block front size block rest four =
    let there = slice_middle (front ++ size) block rest in
    let start : length (front ++ size) ≡ length front + 4 =
      omega (arith, length-append front size, four) in
    simp append_assoc at (rw start at there)

-- The length in front of a block.
unpack_at-pack :
    (front size rest : Bytes) (z : ℤ)
    → pack (i32 ∷ []) (z, tt) ≡ ok size
    → unpack_at (front ++ (size ++ rest)) (length front) ≡ ok z
unpack_at-pack front size rest z h =
    let four = length-pack (i32 ∷ []) (z, tt) size h in
    let room : length front + 4 ≤ length (front ++ (size ++ rest)) =
      omega (arith, four, whole_length front size rest) in
    let value = ap (λ v. v.0) (unpack_values-pack (i32 ∷ []) (z, tt) size h) in
    rw (le→ltb_false _ _ room, drop-append front (size ++ rest), take_front 4 size rest four)
      (ap ok (rw (take_all 4 size (omega (arith, four))) at value))

module _ (snappy : Snappy) (good : IsSnappy snappy) where
  -- One round, at a block.
  decode_blocks-block :
      (front size block rest chunk tail : Bytes) (k : ℕ)
      → pack (i32 ∷ []) (pos (length block), tt) ≡ ok size
      → snappy.decompress block ≡ ok chunk
      → decode_blocks snappy k
          (front ++ (size ++ (block ++ rest)))
          (pos (length (front ++ (size ++ block))))
        ≡ ok tail
      → decode_blocks snappy (suc k) (front ++ (size ++ (block ++ rest))) (pos (length front))
        ≡ ok (chunk ++ tail)
  unfolding decode_blocks
  decode_blocks-block front size block rest chunk tail k packed opened later =
      let four = length-pack (i32 ∷ []) (pos (length block), tt) size packed in
      let inside : length front < length (front ++ (size ++ (block ++ rest))) =
        omega (arith, four, whole_length front size (block ++ rest)) in
      let next : length (front ++ (size ++ block)) ≡ length front + 4 + length block =
        omega (arith, four, length-append front (size ++ block), length-append size block) in
      let behind = rw next at later in
      rw (
        lt→ltb _ _ inside,
        unpack_at-pack front size (block ++ rest) (pos (length block)) packed,
        slice_block front size block rest four,
        opened,
        behind,
      )

  -- The blocks of a payload, behind `front`.
  decode_blocks-encode_blocks :
      (fuel n : ℕ) (payload blocks front : Bytes) (k : ℕ)
      → encode_blocks snappy fuel (suc n) payload ≡ ok blocks
      → length blocks < k
      → decode_blocks snappy k (front ++ blocks) (pos (length front)) ≡ ok payload
  unfolding encode_blocks decode_blocks
  decode_blocks-encode_blocks fuel n payload blocks front zero h enough = absurd (omega arith)
  decode_blocks-encode_blocks fuel n [] blocks front (suc k) h enough =
      let nothing : [] ≡ blocks = cc in
      let over : length (front ++ []) ≤ length front = omega (arith, length-append front []) in
      rw (← nothing, le→ltb_false _ _ over)
  decode_blocks-encode_blocks zero n (b ∷ payload) blocks front (suc k) h enough = cc
  decode_blocks-encode_blocks (suc fuel) n (b ∷ payload) blocks front (suc k) h enough =
      let chunk = take (suc n) (b ∷ payload) in
      let block = snappy.compress chunk in
      let (size, e1, h1) = >>=-eq-ok (pack (i32 ∷ []) (pos (length block), tt)) _ h in
      let (rest, e2, e3) =
        >>=-eq-ok (encode_blocks snappy fuel (suc n) (drop (suc n) (b ∷ payload))) _ h1 in
      let joined : size ++ (block ++ rest) ≡ blocks = cc in
      let four = length-pack (i32 ∷ []) _ size e1 in
      let smaller : length rest < k = omega (
        arith,
        ap length joined,
        four,
        length-append size (block ++ rest),
        length-append block rest,
      ) in
      let later =
        decode_blocks-encode_blocks fuel n (drop (suc n) (b ∷ payload)) rest
          (front ++ (size ++ block)) k e2 smaller in
      let whole = take-append-drop (suc n) (b ∷ payload) in
      rw (← joined) (
        decode_blocks-block front size block rest chunk (drop (suc n) (b ∷ payload)) k e1
          (good.lossless chunk) (simp append_assoc at later)
        ∙ ap ok whole)

  -- What is compressed, framed in blocks of any size that is not negative or not framed, decompresses
  -- to the payload.
  pub snappy_decode-snappy_encode :
      (xerial_compatible : Bool) (xerial_blocksize : ℕ) (payload encoded : Bytes)
      → snappy_encode (some snappy) xerial_compatible (pos xerial_blocksize) payload ≡ ok encoded
      → snappy_decode (some snappy) encoded ≡ ok payload
  unfolding snappy_encode snappy_decode
  snappy_decode-snappy_encode false blocksize payload encoded h =
      let same : snappy.compress payload ≡ encoded = cc in
      rw (← same, good.unframed payload, good.lossless payload)
  snappy_decode-snappy_encode true zero payload encoded h = cc
  snappy_decode-snappy_encode true (suc n) payload encoded h =
      let (blocks, e, e') = >>=-eq-ok (encode_blocks snappy (length payload) (suc n) payload) _ h in
      let same : xerial_header ++ blocks ≡ encoded = cc in
      rw (← same) (
        decode_blocks-encode_blocks (length payload) n payload blocks xerial_header
          (suc (length (xerial_header ++ blocks))) e
          (omega (arith, length-append xerial_header blocks)))

pack_raises : (z : ℤ) → pack (i32 ∷ []) (z, tt) ≢ err out_of_fuel
unfolding pack
pack_raises z = ground arith

encode_blocks_ends :
    (snappy : Snappy) (fuel n : ℕ) (payload : Bytes)
    → length payload ≤ fuel
    → encode_blocks snappy fuel (suc n) payload ≢ err out_of_fuel
unfolding encode_blocks
encode_blocks_ends snappy fuel n [] h = λ q. cc
encode_blocks_ends snappy zero n (b ∷ payload) h = absurd (omega arith)
encode_blocks_ends snappy (suc fuel) n (b ∷ payload) h =
    let block = snappy.compress (take (suc n) (b ∷ payload)) in
    let shorter : length (drop n payload) ≤ fuel = omega (arith, length-drop n payload) in
    joined (pack (i32 ∷ []) (pos (length block), tt))
      (encode_blocks snappy fuel (suc n) (drop n payload)) (pack_raises (pos (length block)))
      (encode_blocks_ends snappy fuel n (drop n payload) shorter) block
  where
    joined :
        (first rest : Result Bytes)
        → first ≢ err out_of_fuel
        → rest ≢ err out_of_fuel
        → (block : Bytes)
        → (first >>= λ size. rest >>= λ bs. ok (size ++ (block ++ bs))) ≢ err out_of_fuel
    joined (ok x) (ok y) g g' block = λ q. cc
    joined (ok x) (err e) g g' block = λ q. g' q
    joined (err e) rest g g' block = λ q. g q

-- The fuel of `snappy_encode` is enough.
snappy_encode_ends :
    (snappy : Snappy) (xerial_compatible : Bool) (xerial_blocksize : ℤ) (payload : Bytes)
    → snappy_encode (some snappy) xerial_compatible xerial_blocksize payload ≢ err out_of_fuel
unfolding snappy_encode
snappy_encode_ends snappy false blocksize payload = λ q. cc
snappy_encode_ends snappy true (negsuc n) payload = λ q. cc
snappy_encode_ends snappy true (pos zero) payload = λ q. cc
snappy_encode_ends snappy true (pos (suc n)) payload =
    framed (encode_blocks snappy (length payload) (suc n) payload)
      (encode_blocks_ends snappy (length payload) n payload (omega arith))
  where
    framed :
        (r : Result Bytes)
        → r ≢ err out_of_fuel
        → (r >>= λ blocks. ok (xerial_header ++ blocks)) ≢ err out_of_fuel
    framed (ok x) g = λ q. cc
    framed (err e) g = λ q. g q
