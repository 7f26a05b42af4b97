-- ===== src/MessageSet.antt =====
-- afkak/kafkacodec.py: messages and message sets, and afkak/common.py: `Message`.
pub mod Crc
pub mod Entry
pub mod RoundTrip
pub mod Truncated
pub mod Create
pub mod Compressed
pub mod Termination
use afkak.Prelude.{
  ℕ, zero, suc, ◌-◌, ◌%◌, ◌^◌, Bool, true, false, Option, none, some, List, [], ◌∷◌, ◌++◌, ◌==◌,
  if◌then◌else◌, length, drop,
}
use afkak.Prelude.Int.{ℤ, pos, negsuc, ◌+ℤ◌, ltb_ℤ, eqb_ℤ}
use afkak.Result.{
  Error, Result, ok, err, buffer_underflow, checksum_error, protocol_error, fetch_size_too_small,
  type_error, recursion_error, out_of_fuel, ◌>>=◌,
}
use afkak.Wire.Struct.{Bytes, u8, u32, i32, i64, pack}
use afkak.Wire.Reader
use afkak.Wire.Reader.{Reader, relative_unpack}
use afkak.Wire.Strings.{write_int_string, read_int_string}
use afkak.MessageSet.Crc.{crc32}
use afkak.Generator.{Gen, raises, finished, yield_one, then_from}

pub record Message : Type 0 where
  pub magic : ℤ
  pub attributes : ℤ
  pub key : Option Bytes
  pub value : Option Bytes

pub record OffsetAndMessage : Type 0 where
  pub offset : ℤ
  pub message : Message

-- `message.attributes & ATTRIBUTE_CODEC_MASK`, in two's complement.
abbrev pub codec_of : ℤ → ℕ
codec_of (pos n) = n % 4
codec_of (negsuc n) = 3 - n % 4

abbrev pub codec_none : ℕ
codec_none = 0

abbrev pub codec_gzip : ℕ
codec_gzip = 1

abbrev pub codec_snappy : ℕ
codec_snappy = 2

-- The bytes of a message of format 0: its checksum and its fields.
abbrev encode_fields : Message → Result Bytes
encode_fields m = do
  head ← pack (u8 ∷ u8 ∷ []) (m.magic, (m.attributes, tt))
  key ← write_int_string m.key
  value ← write_int_string m.value
  let msg = head ++ (key ++ value)
  crc ← pack (u32 ∷ []) (pos (crc32 msg % 2 ^ 32), tt)
  ok (crc ++ msg)

-- KafkaCodec._encode_message
unfoldable pub encode_message : Message → Result Bytes
encode_message m = if eqb_ℤ m.magic (pos 0) then encode_fields m else err protocol_error

-- The loop of `_encode_message_set`: `incr` is what the offset grows by.
unfoldable pub encode_from : ℤ → ℕ → List Message → Result Bytes
encode_from offset incr [] = ok []
encode_from offset incr (m ∷ ms) = do
  encoded ← encode_message m
  head ← pack (i64 ∷ i32 ∷ []) (offset, (pos (length encoded), tt))
  rest ← encode_from (offset +ℤ pos incr) incr ms
  ok (head ++ (encoded ++ rest))

-- KafkaCodec._encode_message_set
unfoldable pub encode_message_set : List Message → Option ℤ → Result Bytes
encode_message_set ms none = encode_from (pos 0) 0 ms
encode_message_set ms (some offset) = encode_from offset 1 ms

-- The decompressors, from `gzip` and from the package `snappy` by way of afkak/codec.py.
pub record Decompressors : Type 0 where
  pub gzip_decode : Option Bytes → Result Bytes
  pub snappy_decode : Option Bytes → Result Bytes

-- The checksum is that of all that follows it.
abbrev checked : Bytes → ℤ → Bool
checked buf crc = eqb_ℤ crc (pos (crc32 (drop 4 buf) % 2 ^ 32))

-- The key and the value, behind what `v` holds: the checksum, the magic number and the attributes.
abbrev fields_of : ℤ × (ℤ × (ℤ × Unit {0})) → Reader Message
fields_of v = Reader.◌>>=◌ read_int_string (λ key. Reader.◌>>=◌ read_int_string (λ value.
    Reader.pure (record { magic = v.1.0; attributes = v.1.1.0; key = key; value = value })))

abbrev after_crc : ℤ × (ℤ × (ℤ × Unit {0})) → Reader Message
after_crc v buf cur = if checked buf v.0 then fields_of v buf cur else err checksum_error

unfoldable pub read_fields : Reader Message
read_fields = Reader.◌>>=◌ (relative_unpack (u32 ∷ u8 ∷ u8 ∷ [])) after_crc

-- The offset and the bytes of the next message of a set.
unfoldable pub read_entry : Reader (ℤ × Option Bytes)
read_entry =
    Reader.◌>>=◌ (relative_unpack (i64 ∷ []))
      (λ v. Reader.◌>>=◌ read_int_string (λ msg. Reader.pure (v.0, msg)))

module _ (d : Decompressors) (nested : Bytes → Gen OffsetAndMessage) where
  abbrev inner_set : Result Bytes → Gen OffsetAndMessage
  inner_set (ok set) = nested set
  inner_set (err e) = raises e

  abbrev by_codec : ℕ → ℤ → Message → Gen OffsetAndMessage
  by_codec codec offset m =
      if codec == codec_none
      then yield_one (record { offset = offset; message = m })
      else if codec == codec_gzip
      then inner_set (d.gzip_decode m.value)
      else if codec == codec_snappy
      then inner_set (d.snappy_decode m.value)
      else raises protocol_error

  abbrev decoded_message : ℤ → Result (Message × ℤ) → Gen OffsetAndMessage
  decoded_message offset (ok (m, cur)) = by_codec (codec_of m.attributes) offset m
  decoded_message offset (err e) = raises e

  -- KafkaCodec._decode_message; `nested` decodes the set inside a compressed message.
  unfoldable pub decode_message : Option Bytes → ℤ → Gen OffsetAndMessage
  decode_message none offset = raises type_error
  decode_message (some buf) offset = decoded_message offset (read_fields buf (pos 0))

  -- What the loop does at a BufferUnderflowError: `read_message` tells whether it has yielded yet.
  abbrev at_underflow : Bool → Gen OffsetAndMessage
  at_underflow true = finished
  at_underflow false = raises fetch_size_too_small

  abbrev on_error : Bool → Error → Gen OffsetAndMessage
  on_error read_message buffer_underflow = at_underflow read_message
  on_error read_message e = raises e

  abbrev some_yielded : Bool → List OffsetAndMessage → Bool
  some_yielded read_message [] = read_message
  some_yielded read_message (y ∷ ys) = true

  -- The rest of a round, after one message gave `g`; `go` is the next round.
  abbrev after_message :
      Gen OffsetAndMessage → Bool → (Bool → Gen OffsetAndMessage) → Gen OffsetAndMessage
  after_message g read_message go =
      let seen = some_yielded read_message g.yielded in
      then_from g.yielded (elim g.raised [ none ↦ go seen | some e ↦ on_error seen e ])

  -- A round on what `read_entry` gave; `go` is the loop from the next cursor on.
  abbrev after_entry :
      Bool
      → (ℤ → Bool → Gen OffsetAndMessage)
      → Result ((ℤ × Option Bytes) × ℤ)
      → Gen OffsetAndMessage
  after_entry read_message go (err e) = on_error read_message e
  after_entry read_message go (ok ((offset, msg), next)) =
      after_message (decode_message msg offset) read_message (go next)

  -- The `while` loop of `_decode_message_set_iter`.
  unfoldable pub set_loop : ℕ → Bytes → ℤ → Bool → Gen OffsetAndMessage
  unfolding decode_message
  set_loop zero buf cur read_message = raises out_of_fuel
  set_loop (suc fuel) buf cur read_message =
      if ltb_ℤ cur (pos (length buf))
      then after_entry read_message (set_loop fuel buf) (read_entry buf cur)
      else finished

-- KafkaCodec._decode_message_set_iter; `depth` sets may be nested before the interpreter's limit
-- on recursion. A round takes 12 bytes at least, so a round for each byte is enough.
unfoldable pub decode_message_set_iter : Decompressors → ℕ → Bytes → Gen OffsetAndMessage
unfolding set_loop
decode_message_set_iter d zero buf = raises recursion_error
decode_message_set_iter d (suc depth) buf =
    set_loop d (decode_message_set_iter d depth) (suc (length buf)) buf (pos 0) false
