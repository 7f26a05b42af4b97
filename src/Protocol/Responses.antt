-- ===== src/Protocol/Responses.antt =====
-- afkak/kafkacodec.py: the decoders of responses, `KafkaCodec.decode_*`.
pub mod Broker
pub mod RoundTrip
pub mod Metadata
pub mod Group
use afkak.Prelude.{
  ℕ, zero, suc, ◌*◌, Option, none, some, List, [], ◌∷◌, ◌==◌, if◌then◌else◌, length, take, drop,
}
use afkak.Prelude.Int.{ℤ, pos, negsuc, ◌+ℤ◌, ltb_ℤ, slice}
use afkak.Result
use afkak.Result.{Result, ok, err, type_error, invalid_message, struct_error, buffer_underflow}
use afkak.Wire.Struct.{Bytes, i16, i32, i64, decode}
use afkak.Wire.Reader.{Reader, pure, raise, repeat, relative_unpack, ◌>>=◌}
use afkak.Wire.Text.{Text}
use afkak.Wire.Strings.{read_int_string, read_short_bytes, read_short_ascii, read_short_text}
use afkak.Generator.{Gen, raises}
use afkak.MessageSet.{OffsetAndMessage, Decompressors, decode_message_set_iter}
use afkak.Protocol.Data.{
  ProduceResponse, FetchResponse, OffsetResponse, OffsetCommitResponse, OffsetFetchResponse,
  ConsumerMetadataResponse, BrokerMetadata, PartitionMetadata, TopicMetadata,
  JoinGroupResponseMember, JoinGroupResponse, SyncGroupResponse,
}
use afkak.Protocol.Grouping.{Eq, Dict, insert, text_eq, ℤ_eq}
use afkak.Protocol.Topics.{rounds, use_read, read_topics, to_gen}

-- What a reader makes of a whole buffer.
abbrev pub read_all {ℓ} : {A : Type ℓ} → Reader A → Bytes → Result A
read_all m buf = Result.◌>>=◌ (m buf (pos 0)) (λ r. ok r.0)

unfoldable pub get_response_correlation_id : Bytes → Result ℤ
get_response_correlation_id = read_all (do v ← relative_unpack (i32 ∷ []); pure v.0)

-- A response that is a correlation id, and arrays of topics and partitions.
abbrev topics_gen {ℓ} : {Y : Type ℓ} → (Text → Reader Y) → Bytes → Gen Y
topics_gen item buf =
    to_gen
      (use_read (relative_unpack (i32 ∷ i32 ∷ []) buf (pos 0)) (λ v. read_topics item buf v.1.0))

abbrev pub produce_item : Text → Reader ProduceResponse
produce_item topic = do
  v ← relative_unpack (i32 ∷ i16 ∷ i64 ∷ [])
  pure (record { topic = topic; partition = v.0; error = v.1.0; offset = v.1.1.0 })

unfoldable pub decode_produce_response : Bytes → Gen ProduceResponse
decode_produce_response = topics_gen produce_item

module _ (d : Decompressors) (depth : ℕ) where
  -- A null message set has no length to compare the cursor with.
  abbrev pub set_messages : Option Bytes → Gen OffsetAndMessage
  set_messages none = raises type_error
  set_messages (some set) = decode_message_set_iter d depth set

  abbrev pub fetch_item : Text → Reader FetchResponse
  fetch_item topic = do
    v ← relative_unpack (i32 ∷ i16 ∷ i64 ∷ [])
    message_set ← read_int_string
    pure (record {
      topic = topic;
      partition = v.0;
      error = v.1.0;
      highwater_mark = v.1.1.0;
      messages = set_messages message_set;
    })

  unfoldable pub decode_fetch_response : Bytes → Gen FetchResponse
  decode_fetch_response = topics_gen fetch_item

abbrev pub offset_item : Text → Reader OffsetResponse
offset_item topic = do
  v ← relative_unpack (i32 ∷ i16 ∷ i32 ∷ [])
  offsets ← repeat (rounds v.1.1.0) (do o ← relative_unpack (i64 ∷ []); pure o.0)
  pure (record { topic = topic; partition = v.0; error = v.1.0; offsets = offsets })

unfoldable pub decode_offset_response : Bytes → Gen OffsetResponse
decode_offset_response = topics_gen offset_item

-- These two read the correlation id and the number of topics one after the other.
abbrev topics_gen_two {ℓ} : {Y : Type ℓ} → (Text → Reader Y) → Bytes → Gen Y
topics_gen_two item buf = to_gen (
    use_read (relative_unpack (i32 ∷ []) buf (pos 0)) λ correlation cur.
      use_read (relative_unpack (i32 ∷ []) buf cur) λ v. read_topics item buf v.0)

abbrev pub commit_item : Text → Reader OffsetCommitResponse
commit_item topic = do
  v ← relative_unpack (i32 ∷ i16 ∷ [])
  pure (record { topic = topic; partition = v.0; error = v.1.0 })

unfoldable pub decode_offset_commit_response : Bytes → Gen OffsetCommitResponse
decode_offset_commit_response = topics_gen_two commit_item

abbrev pub offset_fetch_item : Text → Reader OffsetFetchResponse
offset_fetch_item topic = do
  v ← relative_unpack (i32 ∷ i64 ∷ [])
  metadata ← read_short_bytes
  e ← relative_unpack (i16 ∷ [])
  pure (record { topic = topic; partition = v.0; offset = v.1.0; metadata = metadata; error = e.0 })

unfoldable pub decode_offset_fetch_response : Bytes → Gen OffsetFetchResponse
decode_offset_fetch_response = topics_gen_two offset_fetch_item

abbrev pub ints_values : ℕ → Bytes → List ℤ
ints_values zero bs = []
ints_values (suc n) bs = decode i32 (take 4 bs) ∷ ints_values n (drop 4 bs)

-- relative_unpack('>%di' % n, …): a negative count is no format.
unfoldable pub relative_unpack_ints : ℤ → Reader (List ℤ)
relative_unpack_ints (negsuc n) buf cur = err struct_error
relative_unpack_ints (pos n) buf cur =
    let next = cur +ℤ pos (4 * n) in
    let out = slice buf cur next in
    if ltb_ℤ (pos (length buf)) next
    then err buffer_underflow
    else if length out == 4 * n
    then ok (ints_values n out, next)
    else err struct_error

-- A dictionary of the values that were read, each under its key.
abbrev pub dict_of {ℓ κ} : {K : Type ℓ} {V : Type κ} ⦃e : Eq K⦄ → Dict K V → List (K × V) → Dict K V
dict_of found [] = found
dict_of found ((k, v) ∷ l) = dict_of (insert k v found) l

abbrev pub max_brokers : ℕ
max_brokers = 1024

abbrev pub read_broker : Reader (ℤ × BrokerMetadata)
read_broker = do
  node ← relative_unpack (i32 ∷ [])
  host ← read_short_ascii
  port ← relative_unpack (i32 ∷ [])
  pure (node.0, record { node_id = node.0; host = host; port = port.0 })

abbrev pub read_partition : Text → Reader (ℤ × PartitionMetadata)
read_partition topic_name = do
  v ← relative_unpack (i16 ∷ i32 ∷ i32 ∷ i32 ∷ [])
  replicas ← relative_unpack_ints v.1.1.1.0
  num_isr ← relative_unpack (i32 ∷ [])
  isr ← relative_unpack_ints num_isr.0
  pure (
    v.1.0,
    record {
      topic = topic_name;
      partition = v.1.0;
      partition_error_code = v.0;
      leader = v.1.1.0;
      replicas = replicas;
      isr = isr;
    },
  )

abbrev pub read_topic_metadata : Reader (Text × TopicMetadata)
read_topic_metadata = do
  error ← relative_unpack (i16 ∷ [])
  topic_name ← read_short_ascii
  num_partitions ← relative_unpack (i32 ∷ [])
  partitions ← repeat (rounds num_partitions.0) (read_partition topic_name)
  pure (
    topic_name,
    record {
      topic = topic_name;
      topic_error_code = error.0;
      partition_metadata = dict_of [] partitions;
    },
  )

-- The two dictionaries, behind the number of brokers.
abbrev pub read_metadata : ℤ → Reader (Dict ℤ BrokerMetadata × Dict Text TopicMetadata)
read_metadata numbrokers = do
  brokers ← repeat (rounds numbrokers) read_broker
  num_topics ← relative_unpack (i32 ∷ [])
  topics ← repeat (rounds num_topics.0) read_topic_metadata
  pure (dict_of [] brokers, dict_of [] topics)

unfoldable pub decode_metadata_response :
    Bytes → Result (Dict ℤ BrokerMetadata × Dict Text TopicMetadata)
decode_metadata_response = read_all (do
  v ← relative_unpack (i32 ∷ i32 ∷ [])
  if ltb_ℤ (pos max_brokers) v.1.0 then raise invalid_message else read_metadata v.1.0)

unfoldable pub decode_consumermetadata_response : Bytes → Result ConsumerMetadataResponse
decode_consumermetadata_response = read_all (do
  v ← relative_unpack (i32 ∷ i16 ∷ i32 ∷ [])
  host ← read_short_ascii
  port ← relative_unpack (i32 ∷ [])
  pure (record { error = v.1.0; node_id = v.1.1.0; host = host; port = port.0 }))

abbrev pub read_member : Reader JoinGroupResponseMember
read_member = do
  member_id ← read_short_text
  member_metadata ← read_int_string
  pure (record { member_id = member_id; member_metadata = member_metadata })

unfoldable pub decode_join_group_response : Bytes → Result JoinGroupResponse
decode_join_group_response = read_all (do
  v ← relative_unpack (i32 ∷ i16 ∷ i32 ∷ [])
  group_protocol ← read_short_text
  leader_id ← read_short_text
  member_id ← read_short_text
  num_members ← relative_unpack (i32 ∷ [])
  members ← repeat (rounds num_members.0) read_member
  pure (record {
    error = v.1.0;
    generation_id = v.1.1.0;
    group_protocol = group_protocol;
    leader_id = leader_id;
    member_id = member_id;
    members = members;
  }))

abbrev read_error : Reader ℤ
read_error = do v ← relative_unpack (i32 ∷ i16 ∷ []); pure v.1.0

-- The responses of these two have one field, `error`.
unfoldable pub decode_leave_group_response : Bytes → Result ℤ
decode_leave_group_response = read_all read_error

unfoldable pub decode_heartbeat_response : Bytes → Result ℤ
decode_heartbeat_response = read_all read_error

unfoldable pub decode_sync_group_response : Bytes → Result SyncGroupResponse
decode_sync_group_response = read_all (do
  error ← read_error
  member_assignment ← read_int_string
  pure (record { error = error; member_assignment = member_assignment }))
