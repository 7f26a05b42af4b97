-- ===== src/Protocol/Group.antt =====
-- afkak/kafkacodec.py: what members of a consumer group tell one another through the broker.
pub mod RoundTrip
use afkak.Prelude.{Option, some, List, [], ◌∷◌, if◌then◌else◌, length}
use afkak.Prelude.Int.{ℤ, pos, eqb_ℤ}
use afkak.Result.{Result, protocol_error}
use afkak.Wire.Struct.{Bytes, i16, i32, pack}
use afkak.Wire.Reader.{Reader, pure, raise, repeat, relative_unpack, ◌>>=◌}
use afkak.Wire.Text.{Text}
use afkak.Wire.Strings.{
  write_int_string, write_short_ascii, write_short_text, read_int_string, read_short_ascii,
  read_short_text,
}
use afkak.Protocol.Data.{JoinGroupProtocolMetadata, SyncGroupMemberAssignment}
use afkak.Protocol.Grouping.{Dict, text_eq}
use afkak.Protocol.Header.{◌⊕◌, join_all}
use afkak.Protocol.Topics.{pack_length, rounds}
use afkak.Protocol.Requests.{pack_i32}
use afkak.Protocol.Responses.{read_all, relative_unpack_ints, dict_of}

unfoldable pub encode_join_group_protocol_metadata : ℤ → List Text → Option Bytes → Result Bytes
encode_join_group_protocol_metadata version subscriptions user_data =
    pack (i16 ∷ i32 ∷ []) (version, (pos (length subscriptions), tt))
    ⊕ join_all (λ s. write_short_text (some s)) subscriptions
    ⊕ write_int_string user_data

abbrev pub read_protocol_metadata : Reader JoinGroupProtocolMetadata
read_protocol_metadata = do
  v ← relative_unpack (i16 ∷ i32 ∷ [])
  subscriptions ← repeat (rounds v.1.0) read_short_text
  user_data ← read_int_string
  pure (record { version = v.0; subscriptions = subscriptions; user_data = user_data })

unfoldable pub decode_join_group_protocol_metadata : Bytes → Result JoinGroupProtocolMetadata
decode_join_group_protocol_metadata = read_all read_protocol_metadata

-- `>i%si`: the number of partitions, and each of them.
abbrev pub encode_assigned : Text × List ℤ → Result Bytes
encode_assigned (topic, partitions) =
    write_short_ascii (some topic) ⊕ pack_length partitions ⊕ join_all pack_i32 partitions

unfoldable pub encode_sync_group_member_assignment :
    ℤ → Dict Text (List ℤ) → Option Bytes → Result Bytes
encode_sync_group_member_assignment version assignments user_data =
    pack (i16 ∷ []) (version, tt)
    ⊕ pack_length assignments
    ⊕ join_all encode_assigned assignments
    ⊕ write_int_string user_data

abbrev pub read_assigned : Reader (Text × List ℤ)
read_assigned = do
  topic ← read_short_ascii
  num_partitions ← relative_unpack (i32 ∷ [])
  partitions ← relative_unpack_ints num_partitions.0
  pure (topic, partitions)

-- The assignments and the user data, behind the version and the number of assignments.
abbrev pub read_assignment : ℤ → ℤ → Reader SyncGroupMemberAssignment
read_assignment version num_assignments = do
  assignments ← repeat (rounds num_assignments) read_assigned
  user_data ← read_int_string
  pure (record { version = version; assignments = dict_of [] assignments; user_data = user_data })

-- Only version 0 is supported.
abbrev pub supported_assignment : ℤ × (ℤ × Unit {0}) → Reader SyncGroupMemberAssignment
supported_assignment v =
    if eqb_ℤ v.0 (pos 0) then read_assignment v.0 v.1.0 else raise protocol_error

unfoldable pub decode_sync_group_member_assignment : Bytes → Result SyncGroupMemberAssignment
decode_sync_group_member_assignment =
    read_all (relative_unpack (i16 ∷ i32 ∷ []) >>= supported_assignment)
