-- ===== src/Tests/Protocol.antt =====
-- The theorems on requests and responses at concrete ones.
use afkak.Prelude.{◌≡◌, refl, none, some, List, [], ◌∷◌}
use afkak.Prelude.Int.{ℤ, pos}
use afkak.Result.{ok}
use afkak.Wire.Struct.{Bytes, pack, be_bytes}
use afkak.Wire.Text.{Text, encode_ascii, encode_utf8, encode_char}
use afkak.Wire.Strings.{write_int_string, write_short_bytes, write_short_ascii, write_short_text}
use afkak.Protocol.Data.{FetchRequest}
use afkak.Protocol.Grouping.{
  Dict, lookup, insert, group_by_topic_and_partition, at_partition,
  group_by_topic_and_partition_lem,
}
use afkak.Protocol.Header.{encode_message_header}
use afkak.Protocol.Requests.{encode_fetch_request}
use afkak.Protocol.Requests.Envelope.{Request, encode_request, HasEnvelope, encode_request_envelope}
use afkak.Protocol.Group.{
  encode_sync_group_member_assignment, decode_sync_group_member_assignment,
  encode_join_group_protocol_metadata, decode_join_group_protocol_metadata,
}
use afkak.Protocol.Group.RoundTrip.{
  decode-encode_sync_group_member_assignment, decode-encode_join_group_protocol_metadata,
}
use afkak.Tests.{hi}

abbrev fetch_hi : FetchRequest
fetch_hi = record { topic = hi; partition = pos 3; offset = pos 5; max_bytes = pos 4096 }

abbrev fetch_bytes : Bytes
fetch_bytes =
    0 ∷ 1 ∷ 0 ∷ 0 ∷ 0 ∷ 0 ∷ 0 ∷ 9 ∷ 0 ∷ 2 ∷ 104 ∷ 105 ∷ 255 ∷ 255 ∷ 255 ∷ 255 ∷ 0 ∷ 0 ∷ 0 ∷ 100 ∷ 0
    ∷ 0 ∷ 0 ∷ 1 ∷ 0 ∷ 0 ∷ 0 ∷ 1 ∷ 0 ∷ 2 ∷ 104 ∷ 105 ∷ 0 ∷ 0 ∷ 0 ∷ 1 ∷ 0 ∷ 0 ∷ 0 ∷ 3 ∷ 0 ∷ 0 ∷ 0 ∷ 0
    ∷ 0 ∷ 0 ∷ 0 ∷ 5 ∷ 0 ∷ 0 ∷ 16 ∷ 0 ∷ []

fetch_bytes-written :
    encode_request hi (pos 9) (Request.fetch (fetch_hi ∷ []) (pos 100) (pos 1)) ≡ ok fetch_bytes
unfolding encode_fetch_request encode_message_header group_by_topic_and_partition lookup insert
    write_short_ascii write_short_bytes encode_ascii pack be_bytes
fetch_bytes-written = refl

encode_request_envelope_example : HasEnvelope hi (pos 9) 1 0 fetch_bytes
encode_request_envelope_example =
    encode_request_envelope hi (pos 9) (Request.fetch (fetch_hi ∷ []) (pos 100) (pos 1)) fetch_bytes
      fetch_bytes-written

group_by_topic_and_partition_lem_example :
    at_partition
      (λ (p : FetchRequest). p.topic)
      (λ p. p.partition)
      hi
      (pos 3)
      (group_by_topic_and_partition
        (λ (p : FetchRequest). p.topic)
        (λ p. p.partition)
        (fetch_hi ∷ []))
    ≡ some fetch_hi
group_by_topic_and_partition_lem_example =
    group_by_topic_and_partition_lem (λ (p : FetchRequest). p.topic) (λ p. p.partition)
      (fetch_hi ∷ []) hi (pos 3)

abbrev assignments : Dict Text (List ℤ)
assignments = (hi, pos 1 ∷ pos 2 ∷ []) ∷ []

abbrev assignment_bytes : Bytes
assignment_bytes =
    0 ∷ 0 ∷ 0 ∷ 0 ∷ 0 ∷ 1 ∷ 0 ∷ 2 ∷ 104 ∷ 105 ∷ 0 ∷ 0 ∷ 0 ∷ 2 ∷ 0 ∷ 0 ∷ 0 ∷ 1 ∷ 0 ∷ 0 ∷ 0 ∷ 2 ∷ 255
    ∷ 255 ∷ 255 ∷ 255 ∷ []

assignment_bytes-written :
    encode_sync_group_member_assignment (pos 0) assignments none ≡ ok assignment_bytes
unfolding encode_sync_group_member_assignment write_int_string write_short_ascii write_short_bytes
    encode_ascii pack be_bytes
assignment_bytes-written = refl

decode-encode_sync_group_member_assignment_example :
    decode_sync_group_member_assignment assignment_bytes
    ≡ ok (record { version = pos 0; assignments = assignments; user_data = none })
decode-encode_sync_group_member_assignment_example =
    decode-encode_sync_group_member_assignment assignments none assignment_bytes (tt, tt)
      assignment_bytes-written

abbrev metadata_bytes : Bytes
metadata_bytes = 0 ∷ 0 ∷ 0 ∷ 0 ∷ 0 ∷ 1 ∷ 0 ∷ 2 ∷ 104 ∷ 105 ∷ 0 ∷ 0 ∷ 0 ∷ 2 ∷ 104 ∷ 105 ∷ []

metadata_bytes-written :
    encode_join_group_protocol_metadata (pos 0) (hi ∷ []) (some hi) ≡ ok metadata_bytes
unfolding encode_join_group_protocol_metadata write_int_string write_short_text write_short_bytes
    encode_utf8 encode_char pack be_bytes
metadata_bytes-written = refl

decode-encode_join_group_protocol_metadata_example :
    decode_join_group_protocol_metadata metadata_bytes
    ≡ ok (record { version = pos 0; subscriptions = hi ∷ []; user_data = some hi })
decode-encode_join_group_protocol_metadata_example =
    decode-encode_join_group_protocol_metadata (pos 0) (hi ∷ []) (some hi) metadata_bytes
      metadata_bytes-written
