-- ===== src/Client.antt =====
-- The cache of topic metadata in afkak/client.py: what KafkaClient keeps of topics, partitions and
-- coordinators, its resets, its queries, and the loop of `_merge_topic_metadata`.
pub mod Covered
pub mod Merging
pub mod Cached
pub mod View
pub mod Alike
pub mod Replicated
pub mod Answers
pub mod Queried
use afkak.Prelude.{
  Bool, true, false, ◌&&◌, ◌||◌, not, Option, none, some, List, [], ◌∷◌, ◌++◌, ltb, ◌==◌,
  if◌then◌else◌, length,
}
use afkak.Prelude.Int.{ℤ, pos, negsuc, eqb_ℤ, ltb_ℤ}
use afkak.Result.{Error, Result, ok, err, key_error, value_error, ◌>>=◌}
use afkak.Wire.Text.{Text}
use afkak.Protocol.Data.{BrokerMetadata, PartitionMetadata, TopicMetadata}
use afkak.Protocol.Grouping.{Dict, lookup, insert, text_eq, ℤ_eq}
use afkak.Dictionary.{delete}
use afkak.Assignment.{sort_into}
use afkak.Producer.{Part}
use afkak.Producer.Batches.{part_eq, listed}

-- The attributes of KafkaClient that hold metadata of topics and groups.
pub record MetadataCache : Type 0 where
  pub topics_to_brokers : Dict Part (Option BrokerMetadata)
  pub partition_meta : Dict Part PartitionMetadata
  pub topic_partitions : Dict Text (List ℤ)
  pub topic_errors : Dict Text ℤ
  pub group_to_coordinator : Dict Text BrokerMetadata

abbrev pub no_metadata : MetadataCache
no_metadata = record {
  topics_to_brokers = [];
  partition_meta = [];
  topic_partitions = [];
  topic_errors = [];
  group_to_coordinator = [];
}

-- reset_topic_metadata, for one topic.
unfoldable pub forget_partitions :
    Text → List ℤ → Dict Part (Option BrokerMetadata) → Dict Part (Option BrokerMetadata)
forget_partitions topic [] brokers = brokers
forget_partitions topic (p ∷ ps) brokers = forget_partitions topic ps (delete (topic, p) brokers)

abbrev forget_topic : Text → Option (List ℤ) → MetadataCache → MetadataCache
forget_topic topic none cache = record cache { topic_errors = delete topic cache.topic_errors }
forget_topic topic (some partitions) cache = record cache {
  topics_to_brokers = forget_partitions topic partitions cache.topics_to_brokers;
  topic_partitions = delete topic cache.topic_partitions;
  topic_errors = delete topic cache.topic_errors;
}

abbrev pub reset_topic : Text → MetadataCache → MetadataCache
reset_topic topic cache = forget_topic topic (lookup topic cache.topic_partitions) cache

abbrev pub reset_topics : List Text → MetadataCache → MetadataCache
reset_topics [] cache = cache
reset_topics (t ∷ ts) cache = reset_topics ts (reset_topic t cache)

-- _coerce_topic, of a text.
abbrev pub is_topic_name : Text → Bool
is_topic_name topic = not (ltb (length topic) 1 || ltb 249 (length topic))

abbrev pub coerce_topic : Text → Result Text
coerce_topic topic = if is_topic_name topic then ok topic else err value_error

abbrev pub coerce_topics : List Text → Result (List Text)
coerce_topics [] = ok []
coerce_topics (t ∷ ts) =
    coerce_topic t >>= λ topic. coerce_topics ts >>= λ topics. ok (topic ∷ topics)

-- All the names are looked at before anything is removed.
abbrev pub reset_topic_metadata : List Text → MetadataCache → Result MetadataCache
reset_topic_metadata names cache = coerce_topics names >>= λ topics. ok (reset_topics topics cache)

abbrev pub reset_consumer_group_metadata : List Text → MetadataCache → MetadataCache
reset_consumer_group_metadata [] cache = cache
reset_consumer_group_metadata (g ∷ gs) cache =
    reset_consumer_group_metadata gs
      (record cache { group_to_coordinator = delete g cache.group_to_coordinator })

abbrev pub reset_all_metadata : MetadataCache → MetadataCache
reset_all_metadata cache = record no_metadata { partition_meta = cache.partition_meta }

-- The queries.
abbrev is_there {ℓ} : {A : Type ℓ} → Option A → Bool
is_there none = false
is_there (some a) = true

abbrev has_metadata_for_topic : Text → MetadataCache → Result Bool
has_metadata_for_topic topic cache =
    coerce_topic topic >>= λ t. ok (is_there (lookup t cache.topic_partitions))

abbrev error_or_unknown : Option ℤ → ℤ
error_or_unknown none = pos 3
error_or_unknown (some errno) = errno

abbrev pub known_error : Text → MetadataCache → ℤ
known_error topic cache = error_or_unknown (lookup topic cache.topic_errors)

abbrev pub metadata_error_for_topic : Text → MetadataCache → Result ℤ
metadata_error_for_topic topic cache = coerce_topic topic >>= λ t. ok (known_error t cache)

abbrev is_replicated : Option PartitionMetadata → Bool
is_replicated none = false
is_replicated (some meta) = length meta.replicas == length meta.isr

abbrev pub partition_fully_replicated : Part → MetadataCache → Bool
partition_fully_replicated part cache = is_replicated (lookup part cache.partition_meta)

abbrev pub all_replicated : Text → List ℤ → MetadataCache → Bool
all_replicated topic [] cache = true
all_replicated topic (p ∷ ps) cache =
    partition_fully_replicated (topic, p) cache && all_replicated topic ps cache

abbrev pub replicated_of : Text → Option (List ℤ) → MetadataCache → Bool
replicated_of topic none cache = false
replicated_of topic (some []) cache = false
replicated_of topic (some (p ∷ ps)) cache = all_replicated topic (p ∷ ps) cache

abbrev pub known_replicated : Text → MetadataCache → Bool
known_replicated topic cache = replicated_of topic (lookup topic cache.topic_partitions) cache

abbrev pub topic_fully_replicated : Text → MetadataCache → Result Bool
topic_fully_replicated topic cache = coerce_topic topic >>= λ t. ok (known_replicated t cache)

-- The cache, and what was raised.
abbrev pub Merge : Type 0
Merge = MetadataCache × Option Error

-- self.topics_to_brokers[topic_part] = brokers[meta.leader]
abbrev pub set_broker : Part → Option BrokerMetadata → MetadataCache → Merge
set_broker part none cache = (cache, some key_error)
set_broker part (some broker) cache =
    (record cache { topics_to_brokers = insert part (some broker) cache.topics_to_brokers }, none)

unfoldable pub set_leader : Dict ℤ BrokerMetadata → Part → ℤ → MetadataCache → Merge
set_leader brokers part leader cache =
    if eqb_ℤ leader (negsuc 0)
    then (record cache { topics_to_brokers = insert part none cache.topics_to_brokers }, none)
    else set_broker part (lookup leader brokers) cache

-- The partition is listed, and its metadata kept.
abbrev pub list_partition : Text → ℤ → PartitionMetadata → MetadataCache → MetadataCache
list_partition topic p meta cache = record cache {
  topic_partitions =
      insert topic (listed (lookup topic cache.topic_partitions) ++ p ∷ []) cache.topic_partitions;
  partition_meta = insert (topic, p) meta cache.partition_meta;
}

abbrev pub merge_partition :
    Dict ℤ BrokerMetadata → Text → ℤ × PartitionMetadata → MetadataCache → Merge
merge_partition brokers topic (p, meta) cache =
    set_leader brokers (topic, p) meta.leader (list_partition topic p meta cache)

-- A step, and what follows it where nothing was raised.
abbrev pub and_then : Merge → (MetadataCache → Merge) → Merge
and_then (cache, some e) rest = (cache, some e)
and_then (cache, none) rest = rest cache

abbrev pub merge_partitions :
    Dict ℤ BrokerMetadata → Text → List (ℤ × PartitionMetadata) → MetadataCache → Merge
merge_partitions brokers topic [] cache = (cache, none)
merge_partitions brokers topic (m ∷ ms) cache =
    and_then (merge_partition brokers topic m cache) (merge_partitions brokers topic ms)

abbrev pub sort_partitions : Text → MetadataCache → Merge
sort_partitions topic cache = (
  record cache {
    topic_partitions =
        insert topic (sort_into ltb_ℤ [] (listed (lookup topic cache.topic_partitions)))
          cache.topic_partitions;
  },
  none,
)

-- One round of the loop: after the reset the error, then the partitions if there are any.
abbrev pub merge_listed :
    Dict ℤ BrokerMetadata → Text → List (ℤ × PartitionMetadata) → MetadataCache → Merge
merge_listed brokers topic [] cache = (cache, none)
merge_listed brokers topic (m ∷ ms) cache =
    and_then
      (merge_partitions brokers topic (m ∷ ms)
        (record cache { topic_partitions = insert topic [] cache.topic_partitions }))
      (sort_partitions topic)

abbrev pub set_error : Text → ℤ → MetadataCache → MetadataCache
set_error topic errno cache = record cache { topic_errors = insert topic errno cache.topic_errors }

abbrev pub after_reset : Result MetadataCache → MetadataCache → Merge
after_reset (ok reset) cache = (reset, none)
after_reset (err e) cache = (cache, some e)

abbrev pub merge_topic : Dict ℤ BrokerMetadata → Text × TopicMetadata → MetadataCache → Merge
merge_topic brokers (topic, meta) cache =
    and_then (after_reset (reset_topic_metadata (topic ∷ []) cache) cache) (λ reset.
      merge_listed brokers topic meta.partition_metadata
        (set_error topic meta.topic_error_code reset))

-- _merge_topic_metadata, after _update_brokers.
abbrev pub merge_topic_metadata :
    Dict ℤ BrokerMetadata → Dict Text TopicMetadata → MetadataCache → Merge
merge_topic_metadata brokers [] cache = (cache, none)
merge_topic_metadata brokers (t ∷ ts) cache =
    and_then (merge_topic brokers t cache) (merge_topic_metadata brokers ts)
