-- ===== src/Tests/Responses.antt =====
-- The theorems on responses at concrete ones.
use afkak.Prelude.{◌≡◌, refl, Option, none, some, List, [], ◌∷◌, ◌++◌}
use afkak.Prelude.Int.{ℤ, pos}
use afkak.Result.{ok}
use afkak.Wire.Struct.{Bytes, i32, pack, be_bytes}
use afkak.Wire.Text.{Text, encode_ascii}
use afkak.Wire.Strings.{write_int_string, write_short_bytes, write_short_ascii}
use afkak.MessageSet.{decode_message_set_iter}
use afkak.Protocol.Grouping.{Dict, insert}
use afkak.Protocol.Responses.{
  decode_produce_response, decode_fetch_response, decode_offset_fetch_response,
  decode_metadata_response,
}
use afkak.Protocol.Responses.Broker.{
  response, produced, fetched, stored, BrokerFields, TopicFields, metadata_bytes, made_broker,
  made_topic,
}
use afkak.Protocol.Responses.RoundTrip.{
  decode_produce_response-response, decode_fetch_response-response,
  decode_offset_fetch_response-response,
}
use afkak.Protocol.Responses.Metadata.{decode_metadata_response-metadata}
use afkak.Tests.{hi, decompressors}

abbrev produce_out : Dict Text (Dict ℤ (ℤ × ℤ))
produce_out = (hi, (pos 3, (pos 0, pos 5)) ∷ []) ∷ []

abbrev produce_bytes : Bytes
produce_bytes =
    0 ∷ 0 ∷ 0 ∷ 9 ∷ 0 ∷ 0 ∷ 0 ∷ 1 ∷ 0 ∷ 2 ∷ 104 ∷ 105 ∷ 0 ∷ 0 ∷ 0 ∷ 1 ∷ 0 ∷ 0 ∷ 0 ∷ 3 ∷ 0 ∷ 0 ∷ 0
    ∷ 0 ∷ 0 ∷ 0 ∷ 0 ∷ 0 ∷ 0 ∷ 5 ∷ []

produce_bytes-written : response produced (pos 9) produce_out ≡ ok produce_bytes
unfolding write_short_ascii write_short_bytes encode_ascii pack be_bytes
produce_bytes-written = refl

decode_produce_response-response_example : decode_produce_response produce_bytes ≡ record {
  yielded = record { topic = hi; partition = pos 3; error = pos 0; offset = pos 5 } ∷ [];
  raised = none;
}
decode_produce_response-response_example =
    decode_produce_response-response (pos 9) produce_out produce_bytes produce_bytes-written

abbrev fetch_out : Dict Text (Dict ℤ (ℤ × (ℤ × Option Bytes)))
fetch_out = (hi, (pos 3, (pos 0, (pos 5, some []))) ∷ []) ∷ []

abbrev fetch_bytes : Bytes
fetch_bytes =
    0 ∷ 0 ∷ 0 ∷ 9 ∷ 0 ∷ 0 ∷ 0 ∷ 1 ∷ 0 ∷ 2 ∷ 104 ∷ 105 ∷ 0 ∷ 0 ∷ 0 ∷ 1 ∷ 0 ∷ 0 ∷ 0 ∷ 3 ∷ 0 ∷ 0 ∷ 0
    ∷ 0 ∷ 0 ∷ 0 ∷ 0 ∷ 0 ∷ 0 ∷ 5 ∷ 0 ∷ 0 ∷ 0 ∷ 0 ∷ []

fetch_bytes-written : response fetched (pos 9) fetch_out ≡ ok fetch_bytes
unfolding write_int_string write_short_ascii write_short_bytes encode_ascii pack be_bytes
fetch_bytes-written = refl

decode_fetch_response-response_example :
    decode_fetch_response decompressors 2 fetch_bytes ≡ record {
      yielded =
          record {
            topic = hi;
            partition = pos 3;
            error = pos 0;
            highwater_mark = pos 5;
            messages = decode_message_set_iter decompressors 2 [];
          }
          ∷ [];
      raised = none;
    }
decode_fetch_response-response_example =
    decode_fetch_response-response decompressors 2 (pos 9) fetch_out fetch_bytes fetch_bytes-written

abbrev offset_fetch_out : Dict Text (Dict ℤ (ℤ × (Option Bytes × ℤ)))
offset_fetch_out = (hi, (pos 3, (pos 5, (some hi, pos 0))) ∷ []) ∷ []

abbrev offset_fetch_bytes : Bytes
offset_fetch_bytes =
    0 ∷ 0 ∷ 0 ∷ 9 ∷ 0 ∷ 0 ∷ 0 ∷ 1 ∷ 0 ∷ 2 ∷ 104 ∷ 105 ∷ 0 ∷ 0 ∷ 0 ∷ 1 ∷ 0 ∷ 0 ∷ 0 ∷ 3 ∷ 0 ∷ 0 ∷ 0
    ∷ 0 ∷ 0 ∷ 0 ∷ 0 ∷ 5 ∷ 0 ∷ 2 ∷ 104 ∷ 105 ∷ 0 ∷ 0 ∷ []

offset_fetch_bytes-written : response stored (pos 9) offset_fetch_out ≡ ok offset_fetch_bytes
unfolding write_short_ascii write_short_bytes encode_ascii pack be_bytes
offset_fetch_bytes-written = refl

decode_offset_fetch_response-response_example :
    decode_offset_fetch_response offset_fetch_bytes ≡ record {
      yielded =
          record {
            topic = hi;
            partition = pos 3;
            offset = pos 5;
            metadata = some hi;
            error = pos 0;
          }
          ∷ [];
      raised = none;
    }
decode_offset_fetch_response-response_example =
    decode_offset_fetch_response-response (pos 9) offset_fetch_out offset_fetch_bytes
      offset_fetch_bytes-written

abbrev one_broker : List BrokerFields
one_broker = (pos 1, (hi, pos 9092)) ∷ []

abbrev one_topic : List TopicFields
one_topic = (pos 0, (hi, (pos 0, (pos 3, (pos 1, (pos 1 ∷ [], pos 1 ∷ [])))) ∷ [])) ∷ []

abbrev metadata_head : Bytes
metadata_head = 0 ∷ 0 ∷ 0 ∷ 9 ∷ 0 ∷ 0 ∷ 0 ∷ 1 ∷ []

abbrev metadata_body : Bytes
metadata_body =
    0 ∷ 0 ∷ 0 ∷ 1 ∷ 0 ∷ 2 ∷ 104 ∷ 105 ∷ 0 ∷ 0 ∷ 35 ∷ 132 ∷ 0 ∷ 0 ∷ 0 ∷ 1 ∷ 0 ∷ 0 ∷ 0 ∷ 2 ∷ 104 ∷ 105
    ∷ 0 ∷ 0 ∷ 0 ∷ 1 ∷ 0 ∷ 0 ∷ 0 ∷ 0 ∷ 0 ∷ 3 ∷ 0 ∷ 0 ∷ 0 ∷ 1 ∷ 0 ∷ 0 ∷ 0 ∷ 1 ∷ 0 ∷ 0 ∷ 0 ∷ 1 ∷ 0 ∷ 0
    ∷ 0 ∷ 1 ∷ 0 ∷ 0 ∷ 0 ∷ 1 ∷ []

metadata_head-written : pack (i32 ∷ i32 ∷ []) (pos 9, (pos 1, tt)) ≡ ok metadata_head
unfolding pack be_bytes
metadata_head-written = refl

metadata_body-written : metadata_bytes one_broker one_topic ≡ ok metadata_body
unfolding write_short_ascii write_short_bytes encode_ascii pack be_bytes
metadata_body-written = refl

decode_metadata_response-metadata_example :
    decode_metadata_response (metadata_head ++ metadata_body)
    ≡ ok (
      made_broker (pos 1, (hi, pos 9092)) ∷ [],
      made_topic (pos 0, (hi, (pos 0, (pos 3, (pos 1, (pos 1 ∷ [], pos 1 ∷ [])))) ∷ [])) ∷ [],
    )
unfolding insert
decode_metadata_response-metadata_example =
    decode_metadata_response-metadata (pos 9) one_broker one_topic metadata_head metadata_body
      metadata_head-written metadata_body-written
