-- ===== src/Tests/Coordinator.antt =====
-- The theorems on the answers of a coordinator at concrete ones.
use afkak.Prelude.{◌≡◌, refl, none, [], ◌∷◌, ◌++◌}
use afkak.Prelude.Int.{pos}
use afkak.Result.{ok}
use afkak.Wire.Struct.{Bytes, pack, be_bytes}
use afkak.Wire.Text.{encode_utf8, encode_char}
use afkak.Wire.Strings.{write_int_string, write_short_bytes, write_short_text}
use afkak.Protocol.Data.{JoinGroupResponse}
use afkak.Protocol.Responses.{decode_join_group_response}
use afkak.Protocol.Responses.Group.{join_group_bytes, decode_join_group_response-join_group}
use afkak.Tests.{hi}

abbrev joined : JoinGroupResponse
joined = record {
  error = pos 0;
  generation_id = pos 5;
  group_protocol = hi;
  leader_id = hi;
  member_id = hi;
  members = record { member_id = hi; member_metadata = none } ∷ [];
}

abbrev hi_bytes : Bytes
hi_bytes = 0 ∷ 2 ∷ hi

abbrev joined_bytes : Bytes
joined_bytes =
    (0 ∷ 0 ∷ 0 ∷ 9 ∷ 0 ∷ 0 ∷ 0 ∷ 0 ∷ 0 ∷ 5 ∷ [])
    ++ (hi_bytes ++ (hi_bytes ++ (hi_bytes ++ (0 ∷ 0 ∷ 0 ∷ 1 ∷ []))))
    ++ (hi_bytes ++ (255 ∷ 255 ∷ 255 ∷ 255 ∷ []))

joined-written : join_group_bytes (pos 9) joined ≡ ok joined_bytes
unfolding write_short_text write_short_bytes write_int_string encode_utf8 encode_char pack be_bytes
joined-written = refl

decode_join_group_response-join_group_example : decode_join_group_response joined_bytes ≡ ok joined
decode_join_group_response-join_group_example =
    decode_join_group_response-join_group (pos 9) joined joined_bytes joined-written
