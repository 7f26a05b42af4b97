-- ===== src/Protocol/Responses/Broker.antt =====
-- What a broker answers with, in the layout of the protocol, and what the tuples of it are; the other
-- side of afkak/kafkacodec.py's decoders.
use afkak.Prelude.{Option, some, List, [], ◌∷◌, length}
use afkak.Prelude.Int.{ℤ, pos}
use afkak.Result.{Result}
use afkak.Wire.Struct.{Bytes, i16, i32, i64, pack}
use afkak.Wire.Text.{Text}
use afkak.Wire.Strings.{write_int_string, write_short_bytes, write_short_ascii}
use afkak.Protocol.Data.{
  ProduceResponse, OffsetResponse, OffsetCommitResponse, OffsetFetchResponse, BrokerMetadata,
  PartitionMetadata, TopicMetadata,
}
use afkak.Protocol.Grouping.{Dict, text_eq, ℤ_eq}
use afkak.Protocol.Header.{◌⊕◌, join_all}
use afkak.Protocol.Topics.{pack_length, encode_topics}
use afkak.Protocol.Requests.{pack_i32}
use afkak.Protocol.Responses.{dict_of}

-- A broker's response: the correlation id, and the topics with their partitions.
abbrev pub response {ℓ} :
    {P : Type ℓ} → (ℤ × P → Result Bytes) → ℤ → Dict Text (Dict ℤ P) → Result Bytes
response part correlation_id out =
    pack (i32 ∷ []) (correlation_id, tt) ⊕ pack_length out ⊕ encode_topics part out

-- What a broker says of one partition.
abbrev pub produced : ℤ × (ℤ × ℤ) → Result Bytes
produced (partition, (error, offset)) =
    pack (i32 ∷ i16 ∷ i64 ∷ []) (partition, (error, (offset, tt)))

abbrev pub fetched : ℤ × (ℤ × (ℤ × Option Bytes)) → Result Bytes
fetched (partition, (error, (highwater_mark, message_set))) =
    pack (i32 ∷ i16 ∷ i64 ∷ []) (partition, (error, (highwater_mark, tt)))
    ⊕ write_int_string message_set

abbrev pub listed : ℤ × (ℤ × List ℤ) → Result Bytes
listed (partition, (error, offsets)) =
    pack (i32 ∷ i16 ∷ i32 ∷ []) (partition, (error, (pos (length offsets), tt)))
    ⊕ join_all (λ o. pack (i64 ∷ []) (o, tt)) offsets

abbrev pub committed : ℤ × ℤ → Result Bytes
committed (partition, error) = pack (i32 ∷ i16 ∷ []) (partition, (error, tt))

abbrev pub stored : ℤ × (ℤ × (Option Bytes × ℤ)) → Result Bytes
stored (partition, (offset, (metadata, error))) =
    pack (i32 ∷ i64 ∷ []) (partition, (offset, tt))
    ⊕ write_short_bytes metadata
    ⊕ pack (i16 ∷ []) (error, tt)

-- What is made of it.
abbrev pub made_produce : Text → ℤ × (ℤ × ℤ) → ProduceResponse
made_produce topic (partition, (error, offset)) = record {
  topic = topic;
  partition = partition;
  error = error;
  offset = offset;
}

abbrev pub made_commit : Text → ℤ × ℤ → OffsetCommitResponse
made_commit topic (partition, error) = record {
  topic = topic;
  partition = partition;
  error = error;
}

abbrev pub made_offset : Text → ℤ × (ℤ × List ℤ) → OffsetResponse
made_offset topic (partition, (error, offsets)) = record {
  topic = topic;
  partition = partition;
  error = error;
  offsets = offsets;
}

abbrev pub made_stored : Text → ℤ × (ℤ × (Option Bytes × ℤ)) → OffsetFetchResponse
made_stored topic (partition, (offset, (metadata, error))) = record {
  topic = topic;
  partition = partition;
  offset = offset;
  metadata = metadata;
  error = error;
}

-- What a broker says of another broker, of a partition and of a topic.
abbrev pub BrokerFields : Type 0
BrokerFields = ℤ × (Text × ℤ)

abbrev pub PartitionFields : Type 0
PartitionFields = ℤ × (ℤ × (ℤ × (List ℤ × List ℤ)))

abbrev pub TopicFields : Type 0
TopicFields = ℤ × (Text × List PartitionFields)

abbrev pub broker_bytes : BrokerFields → Result Bytes
broker_bytes (node_id, (host, port)) =
    pack_i32 node_id ⊕ write_short_ascii (some host) ⊕ pack_i32 port

abbrev pub partition_bytes : PartitionFields → Result Bytes
partition_bytes (error, (partition, (leader, (replicas, isr)))) =
    pack (i16 ∷ i32 ∷ i32 ∷ i32 ∷ []) (error, (partition, (leader, (pos (length replicas), tt))))
    ⊕ join_all pack_i32 replicas
    ⊕ pack_length isr
    ⊕ join_all pack_i32 isr

abbrev pub topic_bytes : TopicFields → Result Bytes
topic_bytes (error, (topic, partitions)) =
    pack (i16 ∷ []) (error, tt)
    ⊕ write_short_ascii (some topic)
    ⊕ pack_length partitions
    ⊕ join_all partition_bytes partitions

-- The rest of the response, behind the correlation id and the number of brokers.
abbrev pub metadata_bytes : List BrokerFields → List TopicFields → Result Bytes
metadata_bytes brokers topics =
    join_all broker_bytes brokers ⊕ pack_length topics ⊕ join_all topic_bytes topics

-- What is made of them.
abbrev pub made_all {ℓ κ} : {A : Type ℓ} {B : Type κ} → (A → B) → List A → List B
made_all make [] = []
made_all make (x ∷ xs) = make x ∷ made_all make xs

abbrev pub made_broker : BrokerFields → ℤ × BrokerMetadata
made_broker (node_id, (host, port)) =
    (node_id, record { node_id = node_id; host = host; port = port })

abbrev pub made_partition : Text → PartitionFields → ℤ × PartitionMetadata
made_partition topic (error, (partition, (leader, (replicas, isr)))) = (
  partition,
  record {
    topic = topic;
    partition = partition;
    partition_error_code = error;
    leader = leader;
    replicas = replicas;
    isr = isr;
  },
)

abbrev pub made_topic : TopicFields → Text × TopicMetadata
made_topic (error, (topic, partitions)) = (
  topic,
  record {
    topic = topic;
    topic_error_code = error;
    partition_metadata = dict_of [] (made_all (made_partition topic) partitions);
  },
)
