-- ===== src/Client/Cached.antt =====
-- The metadata cache of afkak/client.py over time: the events that change it, the caches that they
-- reach, and what a reset leaves.
use afkak.Prelude.{
  ◌≡◌, refl, ◌⊎◌, inl, inr, Bool, true, false, ◌&&◌, ◌||◌, none, List, [], ◌∷◌, arith,
  if◌then◌else◌, Bool-cases,
}
use afkak.Prelude.Int.{ℤ}
use afkak.Result.{ok, err, value_error}
use afkak.Wire.Text.{Text}
use afkak.Protocol.Data.{BrokerMetadata, TopicMetadata}
use afkak.Protocol.Grouping.{Dict, lookup, insert, text_eq}
use afkak.Producer.Batches.{part_eq}
use afkak.Client.{
  reset_topics, is_topic_name, coerce_topics, after_reset, MetadataCache, no_metadata, reset_topic,
  reset_topic_metadata, reset_consumer_group_metadata, reset_all_metadata, merge_topic_metadata,
}
use afkak.Client.Covered.{IsCovered, lookup-reset_topic, reset_topic-IsCovered}
use afkak.Client.Merging.{merge_topic_metadata-IsCovered}

-- A response with metadata, one with the coordinator of a group, and the resets.
pub data Event : Type 0 where
  merging : Dict ℤ BrokerMetadata → Dict Text TopicMetadata → Event
  coordinated : Text → BrokerMetadata → Event
  resetting : List Text → Event
  resetting_groups : List Text → Event
  resetting_all : Event

abbrev pub step : Event → MetadataCache → MetadataCache
step (merging brokers topics) cache = (merge_topic_metadata brokers topics cache).0
step (coordinated group broker) cache = record cache {
  group_to_coordinator = insert group broker cache.group_to_coordinator;
}
step (resetting topics) cache = (after_reset (reset_topic_metadata topics cache) cache).0
step (resetting_groups groups) cache = reset_consumer_group_metadata groups cache
step resetting_all cache = reset_all_metadata cache

pub data Reaches : MetadataCache → Type 0 where
  new : Reaches no_metadata
  next : {cache : MetadataCache} (event : Event) → Reaches cache → Reaches (step event cache)

-- All of them are names of topics.
abbrev pub are_topic_names : List Text → Bool
are_topic_names [] = true
are_topic_names (t ∷ ts) = is_topic_name t && are_topic_names ts

coerce_topics-ok : (ts : List Text) → are_topic_names ts ≡ true → coerce_topics ts ≡ ok ts
coerce_topics-ok [] h = refl
coerce_topics-ok (t ∷ ts) h = elim (Bool-cases (is_topic_name t)) [
  | inl good ↦ rw (good, coerce_topics-ok ts (rw good at h))
  | inr bad ↦ cc (rw bad at h)
]

coerce_topics-err :
    (ts : List Text) → are_topic_names ts ≡ false → coerce_topics ts ≡ err value_error
coerce_topics-err [] h = cc
coerce_topics-err (t ∷ ts) h = elim (Bool-cases (is_topic_name t)) [
  | inl good ↦ rw (good, coerce_topics-err ts (rw good at h))
  | inr bad ↦ rw bad
]

reset_topics-IsCovered :
    (topics : List Text) (cache : MetadataCache)
    → IsCovered cache
    → IsCovered (reset_topics topics cache)
reset_topics-IsCovered [] cache h = h
reset_topics-IsCovered (t ∷ ts) cache h =
    reset_topics-IsCovered ts (reset_topic t cache) (reset_topic-IsCovered t cache h)

reset_groups-IsCovered :
    (groups : List Text) (cache : MetadataCache)
    → IsCovered cache
    → IsCovered (reset_consumer_group_metadata groups cache)
reset_groups-IsCovered [] cache h = h
reset_groups-IsCovered (g ∷ gs) cache h =
    reset_groups-IsCovered gs _ (record { distinct = h.distinct; unlisted = h.unlisted })

step-IsCovered :
    (event : Event) (cache : MetadataCache) → IsCovered cache → IsCovered (step event cache)
unfolding lookup
step-IsCovered (merging brokers topics) cache h =
    merge_topic_metadata-IsCovered brokers topics cache h
step-IsCovered (coordinated group broker) cache h = record {
  distinct = h.distinct;
  unlisted = h.unlisted;
}
step-IsCovered (resetting topics) cache h = elim (Bool-cases (are_topic_names topics)) [
  | inl good ↦ rw (step, coerce_topics-ok topics good) (reset_topics-IsCovered topics cache h)
  | inr bad ↦ rw (step, coerce_topics-err topics bad) h
]
step-IsCovered (resetting_groups groups) cache h = reset_groups-IsCovered groups cache h
step-IsCovered resetting_all cache h = record { distinct = tt; unlisted = λ t q missing. refl }

-- In every cache that is reached, through merges that raise as well, no key of topics_to_brokers
-- stands twice, and a partition has an entry there only if its topic lists it.
pub Reaches-IsCovered : {cache : MetadataCache} → Reaches cache → IsCovered cache
unfolding lookup
Reaches-IsCovered new = record { distinct = tt; unlisted = λ t q missing. refl }
Reaches-IsCovered (next event before) = step-IsCovered event _ (Reaches-IsCovered before)

abbrev is_named : Text → List Text → Bool
is_named t [] = false
is_named t (s ∷ ss) = text_eq.beq s t || is_named t ss

reset_topics-lookup :
    (topics : List Text) (t : Text) (q : ℤ) (cache : MetadataCache)
    → IsCovered cache
    → lookup (t, q) (reset_topics topics cache).topics_to_brokers
      ≡ (if is_named t topics then none else lookup (t, q) cache.topics_to_brokers)
reset_topics-lookup [] t q cache h = refl
reset_topics-lookup (s ∷ ss) t q cache h = ground (
  arith,
  reset_topics-lookup ss t q (reset_topic s cache) (reset_topic-IsCovered s cache h),
  lookup-reset_topic s t q cache h,
)

-- In every cache that is reached, reset_topic_metadata raises a ValueError if one of the topics it is
-- given is empty or longer than 249, and then removes nothing. Otherwise it leaves these topics no
-- entry in topics_to_brokers, for any partition, and takes no entry of another topic.
pub reset_topic_metadata-lookup :
    {cache : MetadataCache}
    → Reaches cache
    → (topics : List Text) (t : Text) (q : ℤ)
    → ((are_topic_names topics ≡ false)
        × (reset_topic_metadata topics cache ≡ err value_error)
        × (step (resetting topics) cache ≡ cache))
      ⊎ ((after : MetadataCache) × (are_topic_names topics ≡ true)
          × (reset_topic_metadata topics cache ≡ ok after)
          × (lookup (t, q) after.topics_to_brokers
              ≡ (if is_named t topics then none else lookup (t, q) cache.topics_to_brokers)))
reset_topic_metadata-lookup {cache} reached topics t q =
    elim (Bool-cases (are_topic_names topics)) [
      | inr bad ↦
          let raised = coerce_topics-err topics bad in inl (bad, rw raised, rw (step, raised))
      | inl good ↦ inr (
        reset_topics topics cache,
        good,
        rw (coerce_topics-ok topics good),
        reset_topics-lookup topics t q cache (Reaches-IsCovered reached),
      )
    ]
