-- ===== src/MessageSet/Entry.antt =====
-- One message of a set: what the encoder writes for it, and what the decoder makes of that.
use mathlib.Core.Path.{subst}
use afkak.Prelude.{
  ℕ, ◌+◌, ◌%◌, ◌^◌, ◌≤◌, ◌≡◌, refl, sym, ap, ◌∙◌, inl, inr, Option, none, some, List, [], ◌∷◌, ◌++◌,
  append-nil, append_assoc, arith, ==_refl, Bool-cases, length, drop, length-append, drop_front,
}
use afkak.Prelude.Int.{ℤ, pos, ◌+ℤ◌, eqb_ℤ}
use afkak.Result.{ok, >>=-eq-ok}
use afkak.Wire.Struct.{Bytes, u8, u32, i32, i64, pack, encode}
use afkak.Wire.Struct.RoundTrip.{pack_parts, pack_first, pack-cons, length-pack}
use afkak.Wire.Reader
use afkak.Wire.Reader.{
  Reader, Reads, Reads-bind, Reads-pure, Reads-relative_unpack, relative_unpack,
}
use afkak.Wire.Strings.{write_int_string, read_int_string}
use afkak.Wire.Strings.RoundTrip.{Reads-write_int_string}
use afkak.Generator.{Gen}
use afkak.MessageSet.Crc.{crc32}
use afkak.MessageSet.{
  Message, OffsetAndMessage, codec_of, Decompressors, encode_fields, encode_message, encode_from,
  read_fields, read_entry, decode_message,
}

-- The parts of an encoded message.
record Parts (m : Message) (bs : Bytes) : Type 0 where
  crc : Bytes
  head : Bytes
  key : Bytes
  value : Bytes
  head_packed : pack (u8 ∷ u8 ∷ []) (m.magic, (m.attributes, tt)) ≡ ok head
  key_written : write_int_string m.key ≡ ok key
  value_written : write_int_string m.value ≡ ok value
  crc_packed : pack (u32 ∷ []) (pos (crc32 (head ++ (key ++ value)) % 2 ^ 32), tt) ≡ ok crc
  whole : crc ++ (head ++ (key ++ value)) ≡ bs

encode_fields-Parts : (m : Message) (bs : Bytes) → encode_fields m ≡ ok bs → Parts m bs
encode_fields-Parts m bs h =
    let (head, e1, h1) = >>=-eq-ok (pack (u8 ∷ u8 ∷ []) (m.magic, (m.attributes, tt))) _ h in
    let (key, e2, h2) = >>=-eq-ok (write_int_string m.key) _ h1 in
    let (value, e3, h3) = >>=-eq-ok (write_int_string m.value) _ h2 in
    let (crc, e4, h4) =
      >>=-eq-ok (pack (u32 ∷ []) (pos (crc32 (head ++ (key ++ value)) % 2 ^ 32), tt)) _ h3 in
    record {
      crc = crc;
      head = head;
      key = key;
      value = value;
      head_packed = e1;
      key_written = e2;
      value_written = e3;
      crc_packed = e4;
      whole = cc;
    }

encode_message-Parts : (m : Message) (bs : Bytes) → encode_message m ≡ ok bs → Parts m bs
unfolding encode_message
encode_message-Parts m bs h = elim (Bool-cases (eqb_ℤ m.magic (pos 0))) [
  | inl good ↦ encode_fields-Parts m bs (rw good at h)
  | inr bad ↦ cc
]

-- The fields behind the checksum.
Reads-fields :
    (m : Message) {bs : Bytes} (p : Parts m bs)
    → Reads
        (Reader.◌>>=◌ read_int_string (λ key. Reader.◌>>=◌ read_int_string (λ value.
          Reader.pure {A = Message}
            (record { magic = m.magic; attributes = m.attributes; key = key; value = value }))))
        (p.key ++ (p.value ++ []))
        m
Reads-fields m p =
    Reads-bind read_int_string _ p.key (p.value ++ []) m.key m
      (Reads-write_int_string m.key p.key p.key_written)
      (Reads-bind read_int_string _ p.value [] m.value m
        (Reads-write_int_string m.value p.value p.value_written) (Reads-pure m))

read_fields-Parts :
    (m : Message) {bs : Bytes} (p : Parts m bs)
    → read_fields (p.crc ++ (p.head ++ (p.key ++ p.value))) (pos 0) ≡ ok (m, pos (length bs))
unfolding read_fields
read_fields-Parts m {bs} p =
    let front : Bytes = p.crc ++ p.head in
    let tail : Bytes = p.key ++ p.value in
    let word = pack-cons u32 (u8 ∷ u8 ∷ []) _ _ p.crc p.head p.crc_packed p.head_packed in
    let start = (Reads-relative_unpack (u32 ∷ u8 ∷ u8 ∷ []) _ front word).at [] tail in
    let fields = simp append-nil at ((Reads-fields m p).at front []) in
    let crc_width = length-pack (u32 ∷ []) _ p.crc p.crc_packed in
    let body : drop 4 (front ++ tail) ≡ p.head ++ tail =
      rw (append_assoc p.crc p.head tail) (drop_front 4 p.crc (p.head ++ tail) crc_width) in
    let total : length front + length tail ≡ length bs =
      sym (length-append front tail) ∙ ap length (append_assoc p.crc p.head tail ∙ p.whole) in
    let here : 0 + length front ≡ length front = omega arith in
    rw (← append_assoc p.crc p.head tail, start, body, ==_refl, here, ← total) fields

-- What `read_fields` makes of an encoded message, and how long one is.
pub read_fields-encode_message :
    (m : Message) (bs : Bytes)
    → encode_message m ≡ ok bs
    → read_fields bs (pos 0) ≡ ok (m, pos (length bs))
read_fields-encode_message m bs h =
    let p = encode_message-Parts m bs h in
    subst (λ b. read_fields b (pos 0) ≡ ok (m, pos (length bs))) p.whole (read_fields-Parts m p)

-- A message that is not compressed.
abbrev pub IsPlain : Message → Type 0
IsPlain m = codec_of m.attributes ≡ 0

module _ (d : Decompressors) (nested : Bytes → Gen OffsetAndMessage) where
  pub decode_message-encode_message :
      (m : Message) (offset : ℤ) (bs : Bytes)
      → IsPlain m
      → encode_message m ≡ ok bs
      → decode_message d nested (some bs) offset
        ≡ record { yielded = record { offset = offset; message = m } ∷ []; raised = none }
  unfolding decode_message
  decode_message-encode_message m offset bs plain h = rw (read_fields-encode_message m bs h, plain)

-- The two parts of the entry that `_encode_message_set` writes for one message.
pub record Entry (offset : ℤ) (m : Message) (bs : Bytes) : Type 0 where
  pub at_offset : Bytes
  pub prefix : Bytes
  pub encoded : Bytes
  pub message_encoded : encode_message m ≡ ok encoded
  pub offset_packed : pack (i64 ∷ []) (offset, tt) ≡ ok at_offset
  pub prefix_packed : pack (i32 ∷ []) (pos (length encoded), tt) ≡ ok prefix
  pub whole : at_offset ++ (prefix ++ encoded) ≡ bs

pub Reads-read_entry :
    {offset : ℤ} {m : Message} {bs : Bytes} (e : Entry offset m bs)
    → Reads read_entry bs (offset, some e.encoded)
unfolding read_entry
Reads-read_entry {offset} {m} {bs} e =
    let written : write_int_string (some e.encoded) ≡ ok (e.prefix ++ e.encoded) =
      unfold write_int_string in rw e.prefix_packed in
    let tail =
      Reads-bind read_int_string (λ msg. Reader.pure {A = ℤ × Option Bytes} (offset, msg))
        (e.prefix ++ e.encoded) [] (some e.encoded) (offset, some e.encoded)
        (Reads-write_int_string (some e.encoded) _ written) (Reads-pure _) in
    let both =
      Reads-bind (relative_unpack (i64 ∷ [])) _ e.at_offset (e.prefix ++ e.encoded ++ [])
        (offset, tt) (offset, some e.encoded)
        (Reads-relative_unpack (i64 ∷ []) _ e.at_offset e.offset_packed) tail in
    subst (λ b. Reads read_entry b (offset, some e.encoded))
      (ap (λ b. e.at_offset ++ b) (append-nil (e.prefix ++ e.encoded)) ∙ e.whole) both

-- An encoded set starts with the entry of its first message.
pub encode_from-cons :
    (offset : ℤ) (incr : ℕ) (m : Message) (ms : List Message) (bs : Bytes)
    → encode_from offset incr (m ∷ ms) ≡ ok bs
    → (entry : Bytes) × (rest : Bytes) × Entry offset m entry
      × (encode_from (offset +ℤ pos incr) incr ms ≡ ok rest)
      × (entry ++ rest ≡ bs)
unfolding encode_from
encode_from-cons offset incr m ms bs h =
    let (encoded, e1, h1) = >>=-eq-ok (encode_message m) _ h in
    let (head, e2, h2) =
      >>=-eq-ok (pack (i64 ∷ i32 ∷ []) (offset, (pos (length encoded), tt))) _ h1 in
    let (rest, e3, h3) = >>=-eq-ok (encode_from (offset +ℤ pos incr) incr ms) _ h2 in
    let (good, (prefix, packed, joined)) = pack_parts i64 (i32 ∷ []) offset _ head e2 in
    let whole : head ++ (encoded ++ rest) ≡ bs = cc in
    let entry : Entry offset m (encode i64 offset ++ (prefix ++ encoded)) = record {
      at_offset = encode i64 offset;
      prefix = prefix;
      encoded = encoded;
      message_encoded = e1;
      offset_packed = pack_first i64 offset good;
      prefix_packed = packed;
      whole = refl;
    } in
    (
      encode i64 offset ++ (prefix ++ encoded),
      rest,
      entry,
      e3,
      rw
          (
            append_assoc (encode i64 offset) (prefix ++ encoded) rest,
            append_assoc prefix encoded rest,
            ← append_assoc (encode i64 offset) prefix (encoded ++ rest),
            ← joined,
          )
          whole,
    )

-- An entry has twelve bytes before its message.
pub length-Entry : {offset : ℤ} {m : Message} {bs : Bytes} → Entry offset m bs → 12 ≤ length bs
length-Entry e = omega (
  arith,
  ap length e.whole,
  length-append e.at_offset (e.prefix ++ e.encoded),
  length-append e.prefix e.encoded,
  length-pack (i64 ∷ []) _ e.at_offset e.offset_packed,
  length-pack (i32 ∷ []) _ e.prefix e.prefix_packed,
)
