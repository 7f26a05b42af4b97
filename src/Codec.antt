-- ===== src/Codec.antt =====
-- afkak/codec.py: the blocks that a Snappy stream is framed in.
pub mod RoundTrip
use afkak.Prelude.{
  ℕ, zero, suc, ◌+◌, ◌-◌, Bool, true, false, Option, none, some, [], ◌∷◌, ◌++◌, ltb, if◌then◌else◌,
  length, take, drop,
}
use afkak.Prelude.Int.{ℤ, pos, negsuc, ◌+ℤ◌, ltb_ℤ, slice}
use afkak.Result.{Result, ok, err, not_implemented, value_error, struct_error, out_of_fuel, ◌>>=◌}
use afkak.Wire.Struct.{Bytes, i32, pack, decode}
use afkak.Protocol.Grouping.{text_beq}

-- _XERIAL_HEADER
abbrev pub xerial_header : Bytes
xerial_header =
    0x82 ∷ 0x53 ∷ 0x4e ∷ 0x41 ∷ 0x50 ∷ 0x50 ∷ 0x59 ∷ 0 ∷ 0 ∷ 0 ∷ 0 ∷ 1 ∷ 0 ∷ 0 ∷ 0 ∷ 1 ∷ []

-- The package `snappy`, which need not be installed.
pub record Snappy : Type 0 where
  pub compress : Bytes → Bytes
  pub decompress : Bytes → Result Bytes

-- The chunks of the payload, each compressed and behind its length. A chunk has at least one byte,
-- so a round for each byte is enough.
unfoldable pub encode_blocks : Snappy → ℕ → ℕ → Bytes → Result Bytes
encode_blocks snappy fuel blocksize [] = ok []
encode_blocks snappy zero blocksize (b ∷ payload) = err out_of_fuel
encode_blocks snappy (suc fuel) blocksize (b ∷ payload) =
    let block = snappy.compress (take blocksize (b ∷ payload)) in
    pack (i32 ∷ []) (pos (length block), tt) >>= λ size.
    encode_blocks snappy fuel blocksize (drop blocksize (b ∷ payload)) >>= λ rest.
    ok (size ++ (block ++ rest))

-- range() takes no step of 0, and has nothing for a negative one.
abbrev pub encode_chunks : Snappy → ℤ → Bytes → Result Bytes
encode_chunks snappy (negsuc n) payload = ok xerial_header
encode_chunks snappy (pos zero) payload = err value_error
encode_chunks snappy (pos (suc n)) payload =
    encode_blocks snappy (length payload) (suc n) payload >>= λ blocks. ok (xerial_header ++ blocks)

unfoldable pub snappy_encode : Option Snappy → Bool → ℤ → Bytes → Result Bytes
unfolding encode_blocks
snappy_encode none xerial_compatible xerial_blocksize payload = err not_implemented
snappy_encode (some snappy) true xerial_blocksize payload =
    encode_chunks snappy xerial_blocksize payload
snappy_encode (some snappy) false xerial_blocksize payload = ok (snappy.compress payload)

-- struct.unpack_from('!i', view, offset): a negative offset counts from the end.
abbrev pub unpack_at : Bytes → ℕ → Result ℤ
unpack_at view c =
    if ltb (length view) (c + 4) then err struct_error else ok (decode i32 (take 4 (drop c view)))

abbrev pub unpack_from : Bytes → ℤ → Result ℤ
unpack_from view (pos c) = unpack_at view c
unpack_from view (negsuc n) =
    if ltb n (length view) then unpack_at view (length view - suc n) else err struct_error

-- The `while` loop, and the joining of its output.
unfoldable pub decode_blocks : Snappy → ℕ → Bytes → ℤ → Result Bytes
decode_blocks snappy zero view cursor = err out_of_fuel
decode_blocks snappy (suc fuel) view cursor =
    let later = decode_blocks snappy fuel view in
    if ltb_ℤ cursor (pos (length view))
    then (unpack_from view cursor >>= λ block_size.
        snappy.decompress (slice view (cursor +ℤ pos 4) (cursor +ℤ pos 4 +ℤ block_size))
        >>= λ block. later (cursor +ℤ pos 4 +ℤ block_size) >>= λ rest. ok (block ++ rest))
    else ok []

-- payload.startswith(_XERIAL_HEADER)
abbrev pub is_xerial : Bytes → Bool
is_xerial payload = text_beq (take 16 payload) xerial_header

-- Blocks that lie one behind the other are no more than the bytes; `out_of_fuel` stands for the
-- loops that a negative block size might start.
unfoldable pub snappy_decode : Option Snappy → Bytes → Result Bytes
unfolding decode_blocks
snappy_decode none payload = err not_implemented
snappy_decode (some snappy) payload =
    if is_xerial payload
    then decode_blocks snappy (suc (length payload)) payload (pos 16)
    else snappy.decompress payload
