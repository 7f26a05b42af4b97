-- ===== src/Tests/Messages.antt =====
-- The theorems on message sets at concrete ones.
use afkak.Prelude.{◌≡◌, refl, none, some, List, [], ◌∷◌, ◌++◌, arith, take, drop}
use afkak.Prelude.Int.{pos}
use afkak.Result.{ok}
use afkak.Wire.Struct.{Bytes, pack, be_bytes}
use afkak.Wire.Strings.{write_int_string}
use afkak.MessageSet.{
  Message, encode_message, encode_from, encode_message_set, decode_message_set_iter,
}
use afkak.MessageSet.Crc.{crc32}
use afkak.MessageSet.Create.{SendRequest, create_message_set, create_gzip_message, compressed}
use afkak.MessageSet.RoundTrip.{decode_message_set_iter-encode_message_set}
use afkak.MessageSet.Compressed.{decode-create_message_set}
use afkak.MessageSet.Truncated.{decode_message_set_iter_truncated}
use afkak.MessageSet.Termination.{IsFueled, decode_message_set_iter_ends}
use afkak.Tests.{hi, hi_message, compressors, decompressors, lossless, python}

-- One message at offset 7, and its first bytes and the others.
abbrev hi_set : Bytes
hi_set =
    0 ∷ 0 ∷ 0 ∷ 0 ∷ 0 ∷ 0 ∷ 0 ∷ 7 ∷ 0 ∷ 0 ∷ 0 ∷ 16 ∷ 253 ∷ 110 ∷ 189 ∷ 219 ∷ 0 ∷ 0 ∷ 255 ∷ 255 ∷ 255
    ∷ 255 ∷ 0 ∷ 0 ∷ 0 ∷ 2 ∷ 104 ∷ 105 ∷ []

hi_set-written : encode_from (pos 7) 1 (hi_message ∷ []) ≡ ok hi_set
unfolding encode_from encode_message write_int_string pack be_bytes crc32
hi_set-written = refl

abbrev hi_part : Bytes
hi_part = take 14 hi_set

abbrev hi_more : Bytes
hi_more = drop 14 hi_set

-- A producer's request for one message, compressed.
abbrev hi_requests : List SendRequest
hi_requests = record { key = none; messages = some hi ∷ [] } ∷ []

abbrev inner_set : Bytes
inner_set = 0 ∷ 0 ∷ 0 ∷ 0 ∷ 0 ∷ 0 ∷ 0 ∷ 0 ∷ drop 8 hi_set

abbrev zipped : List Message
zipped = compressed 1 (0x1f ∷ inner_set) ∷ []

abbrev zipped_set : Bytes
zipped_set =
    0 ∷ 0 ∷ 0 ∷ 0 ∷ 0 ∷ 0 ∷ 0 ∷ 0 ∷ 0 ∷ 0 ∷ 0 ∷ 43 ∷ 236 ∷ 95 ∷ 80 ∷ 75 ∷ 0 ∷ 1 ∷ 255 ∷ 255 ∷ 255
    ∷ 255 ∷ 0 ∷ 0 ∷ 0 ∷ 29 ∷ 31 ∷ 0 ∷ 0 ∷ 0 ∷ 0 ∷ 0 ∷ 0 ∷ 0 ∷ 0 ∷ 0 ∷ 0 ∷ 0 ∷ 16 ∷ 253 ∷ 110 ∷ 189
    ∷ 219 ∷ 0 ∷ 0 ∷ 255 ∷ 255 ∷ 255 ∷ 255 ∷ 0 ∷ 0 ∷ 0 ∷ 2 ∷ 104 ∷ 105 ∷ []

zipped-created : create_message_set compressors hi_requests (pos 1) ≡ ok zipped
unfolding create_message_set create_gzip_message encode_message_set encode_from encode_message
    write_int_string pack be_bytes crc32
zipped-created = refl

zipped_set-written : encode_message_set zipped none ≡ ok zipped_set
unfolding encode_message_set encode_from encode_message write_int_string pack be_bytes crc32
zipped_set-written = refl

decode-create_message_set_example :
    decode_message_set_iter decompressors 3 zipped_set
    ≡ record { yielded = record { offset = pos 0; message = hi_message } ∷ []; raised = none }
decode-create_message_set_example =
    decode-create_message_set compressors decompressors lossless 1 hi_requests (pos 1) zipped
      zipped_set zipped-created zipped_set-written

decode_message_set_iter_truncated_example :
    decode_message_set_iter decompressors 1 (hi_set ++ hi_part)
    ≡ record { yielded = record { offset = pos 7; message = hi_message } ∷ []; raised = none }
decode_message_set_iter_truncated_example =
    decode_message_set_iter_truncated decompressors 0 (hi_message ∷ []) hi_message (pos 7) (pos 7) 1
      1 hi_set hi_part hi_more (refl, tt) hi_set-written hi_set-written (omega arith) (omega arith)

decode_message_set_iter_ends_example : IsFueled (decode_message_set_iter decompressors 5 hi_set)
decode_message_set_iter_ends_example = decode_message_set_iter_ends decompressors 5 hi_set python

hi_set-written_at : encode_message_set (hi_message ∷ []) (some (pos 7)) ≡ ok hi_set
unfolding encode_message_set
hi_set-written_at = hi_set-written

decode_message_set_iter-encode_message_set_example :
    decode_message_set_iter decompressors 1 hi_set
    ≡ record { yielded = record { offset = pos 7; message = hi_message } ∷ []; raised = none }
decode_message_set_iter-encode_message_set_example =
    decode_message_set_iter-encode_message_set decompressors 0 (hi_message ∷ []) (some (pos 7))
      hi_set (refl, tt) hi_set-written_at
