-- ===== src/Protocol/Requests.antt =====
-- afkak/kafkacodec.py: the encoders of requests, `KafkaCodec.encode_*`.
pub mod Envelope
use afkak.Prelude.{Option, none, some, List, [], ◌∷◌, length}
use afkak.Prelude.Int.{ℤ, pos}
use afkak.Result.{Result, ok, err, assertion_error, ◌>>=◌}
use afkak.Wire.Struct.{Bytes, i16, i32, i64, pack}
use afkak.Wire.Text.{Text}
use afkak.Wire.Strings.{
  minus_one, write_int_string, write_short_bytes, write_short_ascii, write_short_text,
}
use afkak.MessageSet.{encode_message_set}
use afkak.Protocol.Data.{
  ProduceRequest, FetchRequest, OffsetRequest, OffsetCommitRequest, OffsetFetchRequest,
  JoinGroupRequestProtocol, JoinGroupRequest, SyncGroupRequestMember, SyncGroupRequest,
  HeartbeatRequest, LeaveGroupRequest,
}
use afkak.Protocol.Grouping.{group_by_topic_and_partition}
use afkak.Protocol.Header.{
  ◌⊕◌, join_all, produce, fetch, offset, metadata, offset_commit, offset_fetch, find_coordinator,
  join_group, heartbeat, leave_group, sync_group, encode_message_header,
}
use afkak.Protocol.Topics.{pack_length, encode_topics}

abbrev pub pack_i32 : ℤ → Result Bytes
pack_i32 n = pack (i32 ∷ []) (n, tt)

-- The sizes and the bytes of one partition's message set.
abbrev pub produce_partition : ℤ × ProduceRequest → Result Bytes
produce_partition (partition, payload) = encode_message_set payload.messages none >>= λ msg_set.
    pack (i32 ∷ i32 ∷ []) (partition, (pos (length msg_set), tt)) ⊕ ok msg_set

module _ (client_id : Bytes) (correlation_id : ℤ) where
  unfoldable pub encode_produce_request : List ProduceRequest → ℤ → ℤ → Result Bytes
  encode_produce_request payloads acks timeout =
      let grouped = group_by_topic_and_partition (λ p. p.topic) (λ p. p.partition) payloads in
      encode_message_header client_id correlation_id produce 0
      ⊕ pack (i16 ∷ i32 ∷ i32 ∷ []) (acks, (timeout, (pos (length grouped), tt)))
      ⊕ encode_topics produce_partition grouped

  abbrev fetch_partition : ℤ × FetchRequest → Result Bytes
  fetch_partition (partition, payload) =
      pack (i32 ∷ i64 ∷ i32 ∷ []) (partition, (payload.offset, (payload.max_bytes, tt)))

  unfoldable pub encode_fetch_request : List FetchRequest → ℤ → ℤ → Result Bytes
  encode_fetch_request payloads max_wait_time min_bytes =
      let grouped = group_by_topic_and_partition (λ p. p.topic) (λ p. p.partition) payloads in
      encode_message_header client_id correlation_id fetch 0
      ⊕ pack (i32 ∷ i32 ∷ i32 ∷ i32 ∷ [])
          (minus_one, (max_wait_time, (min_bytes, (pos (length grouped), tt))))
      ⊕ encode_topics fetch_partition grouped

  abbrev offset_partition : ℤ × OffsetRequest → Result Bytes
  offset_partition (partition, payload) =
      pack (i32 ∷ i64 ∷ i32 ∷ []) (partition, (payload.time, (payload.max_offsets, tt)))

  unfoldable pub encode_offset_request : List OffsetRequest → Result Bytes
  encode_offset_request payloads =
      let grouped = group_by_topic_and_partition (λ p. p.topic) (λ p. p.partition) payloads in
      encode_message_header client_id correlation_id offset 0
      ⊕ pack (i32 ∷ i32 ∷ []) (minus_one, (pos (length grouped), tt))
      ⊕ encode_topics offset_partition grouped

  unfoldable pub encode_metadata_request : List Text → Result Bytes
  encode_metadata_request topics =
      encode_message_header client_id correlation_id metadata 0
      ⊕ pack_length topics
      ⊕ join_all (λ topic. write_short_ascii (some topic)) topics

  unfoldable pub encode_consumermetadata_request : Text → Result Bytes
  encode_consumermetadata_request consumer_group =
      encode_message_header client_id correlation_id find_coordinator 0
      ⊕ write_short_ascii (some consumer_group)

  abbrev commit_partition : ℤ × OffsetCommitRequest → Result Bytes
  commit_partition (partition, payload) =
      pack (i32 ∷ i64 ∷ i64 ∷ []) (partition, (payload.offset, (payload.timestamp, tt)))
      ⊕ write_short_bytes payload.metadata

  -- `assert consumer_id is not None` comes first.
  unfoldable pub encode_offset_commit_request :
      Text → ℤ → Option Text → List OffsetCommitRequest → Result Bytes
  encode_offset_commit_request group generation_id none payloads = err assertion_error
  encode_offset_commit_request group generation_id (some consumer_id) payloads =
      let grouped = group_by_topic_and_partition (λ p. p.topic) (λ p. p.partition) payloads in
      encode_message_header client_id correlation_id offset_commit 1
      ⊕ write_short_ascii (some group)
      ⊕ pack_i32 generation_id
      ⊕ write_short_ascii (some consumer_id)
      ⊕ pack_length grouped
      ⊕ encode_topics commit_partition grouped

  unfoldable pub encode_offset_fetch_request : Text → List OffsetFetchRequest → Result Bytes
  encode_offset_fetch_request group payloads =
      let grouped = group_by_topic_and_partition (λ p. p.topic) (λ p. p.partition) payloads in
      encode_message_header client_id correlation_id offset_fetch 1
      ⊕ write_short_ascii (some group)
      ⊕ pack_length grouped
      ⊕ encode_topics (λ p. pack_i32 p.0) grouped

  abbrev join_protocol : JoinGroupRequestProtocol → Result Bytes
  join_protocol p = write_short_ascii (some p.protocol_name) ⊕ write_int_string p.protocol_metadata

  unfoldable pub encode_join_group_request : JoinGroupRequest → Result Bytes
  encode_join_group_request payload =
      encode_message_header client_id correlation_id join_group 0
      ⊕ write_short_text (some payload.group)
      ⊕ pack_i32 payload.session_timeout
      ⊕ write_short_text (some payload.member_id)
      ⊕ write_short_text (some payload.protocol_type)
      ⊕ pack_length payload.group_protocols
      ⊕ join_all join_protocol payload.group_protocols

  unfoldable pub encode_leave_group_request : LeaveGroupRequest → Result Bytes
  encode_leave_group_request payload =
      encode_message_header client_id correlation_id leave_group 0
      ⊕ write_short_text (some payload.group)
      ⊕ write_short_text (some payload.member_id)

  unfoldable pub encode_heartbeat_request : HeartbeatRequest → Result Bytes
  encode_heartbeat_request payload =
      encode_message_header client_id correlation_id heartbeat 0
      ⊕ write_short_text (some payload.group)
      ⊕ pack_i32 payload.generation_id
      ⊕ write_short_text (some payload.member_id)

  abbrev sync_member : SyncGroupRequestMember → Result Bytes
  sync_member m = write_short_text (some m.member_id) ⊕ write_int_string m.member_metadata

  unfoldable pub encode_sync_group_request : SyncGroupRequest → Result Bytes
  encode_sync_group_request payload =
      encode_message_header client_id correlation_id sync_group 0
      ⊕ write_short_text (some payload.group)
      ⊕ pack_i32 payload.generation_id
      ⊕ write_short_text (some payload.member_id)
      ⊕ pack_length payload.group_assignment
      ⊕ join_all sync_member payload.group_assignment
