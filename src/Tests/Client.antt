-- ===== src/Tests/Client.antt =====
-- The theorems on the client's metadata at one response: a topic with a partition that has a leader
-- and one that has none.
use afkak.Prelude.{◌≡◌, refl, ◌⊎◌, true, false, none, List, [], ◌∷◌}
use afkak.Prelude.Int.{ℤ, pos, negsuc}
use afkak.Result.{ok, err, value_error}
use afkak.Wire.Text.{Text}
use afkak.Protocol.Data.{BrokerMetadata, PartitionMetadata, TopicMetadata}
use afkak.Protocol.Grouping.{Dict, lookup, insert}
use afkak.Dictionary.{delete}
use afkak.Producer.Batches.{part_eq}
use afkak.Client.{
  MetadataCache, no_metadata, reset_topic_metadata, merge_topic_metadata, set_leader,
  forget_partitions,
}
use afkak.Client.Cached.{
  are_topic_names, resetting, Reaches, new, next, merging, step, reset_topic_metadata-lookup,
}
use afkak.Client.Queried.{Answers, merge_topic_metadata-Answers}
use afkak.Client.View.{view, merge_topic_metadata-view}

abbrev topic : Text
topic = b't' ∷ []

abbrev other : Text
other = b'u' ∷ []

abbrev broker : BrokerMetadata
broker = record { node_id = pos 1; host = b'h' ∷ []; port = pos 9092 }

abbrev brokers : Dict ℤ BrokerMetadata
brokers = (pos 1, broker) ∷ []

abbrev partition : Text → ℤ → ℤ → PartitionMetadata
partition t p leader = record {
  topic = t;
  partition = p;
  partition_error_code = pos 0;
  leader = leader;
  replicas = pos 1 ∷ [];
  isr = pos 1 ∷ [];
}

abbrev topic_of : Text → List (ℤ × PartitionMetadata) → Text × TopicMetadata
topic_of t l = (t, record { topic = t; topic_error_code = pos 0; partition_metadata = l })

abbrev two_topics : Dict Text TopicMetadata
two_topics =
    topic_of topic
      ((pos 1, partition topic (pos 1) (pos 1)) ∷ (pos 0, partition topic (pos 0) (negsuc 0)) ∷ [])
    ∷ topic_of other ((pos 0, partition other (pos 0) (pos 1)) ∷ [])
    ∷ []

abbrev cached : MetadataCache
cached = step (merging brokers two_topics) no_metadata

abbrev cached-Reaches : Reaches cached
cached-Reaches = next (merging brokers two_topics) new

-- The leader moves away, and partition 0 is gone.
abbrev moved : Dict Text TopicMetadata
moved = topic_of topic ((pos 1, partition topic (pos 1) (negsuc 0)) ∷ []) ∷ []

reset_topic_metadata-lookup_example :
    ((are_topic_names (topic ∷ []) ≡ false)
      × (reset_topic_metadata (topic ∷ []) cached ≡ err value_error)
      × (step (resetting (topic ∷ [])) cached ≡ cached))
    ⊎ ((after : MetadataCache) × (are_topic_names (topic ∷ []) ≡ true)
        × (reset_topic_metadata (topic ∷ []) cached ≡ ok after)
        × (lookup (topic, pos 1) after.topics_to_brokers ≡ none))
reset_topic_metadata-lookup_example =
    reset_topic_metadata-lookup cached-Reaches (topic ∷ []) topic (pos 1)

-- An empty name, at which nothing is removed.
resets_nothing : reset_topic_metadata (topic ∷ [] ∷ []) cached ≡ err value_error
resets_nothing = refl

merge_topic_metadata-view_example :
    view (merge_topic_metadata brokers moved cached).0 topic (pos 0) ≡ none
unfolding lookup insert delete set_leader forget_partitions
merge_topic_metadata-view_example =
    merge_topic_metadata-view cached-Reaches brokers moved ((tt, tt), tt) refl topic (pos 0)

abbrev merged_topic : TopicMetadata
merged_topic = record {
  topic = topic;
  topic_error_code = pos 0;
  partition_metadata = (pos 1, partition topic (pos 1) (negsuc 0)) ∷ [];
}

merge_topic_metadata-Answers_example :
    Answers topic merged_topic (merge_topic_metadata brokers moved cached).0
unfolding lookup insert delete set_leader forget_partitions
merge_topic_metadata-Answers_example =
    merge_topic_metadata-Answers brokers moved cached topic merged_topic (tt, tt) ((tt, tt), tt)
      refl refl refl
