-- ===== src/Client/Queried.antt =====
-- The queries of afkak/client.py after `_merge_topic_metadata` has merged a whole response.
use afkak.Prelude.{
  ◌≡◌, refl, ap, ◌∙◌, inl, inr, true, false, none, some, List, [], ◌∷◌, arith, Bool-cases, All,
}
use afkak.Prelude.Int.{ℤ}
use afkak.Result.{ok}
use afkak.Wire.Text.{Text}
use afkak.Protocol.Data.{BrokerMetadata, PartitionMetadata, TopicMetadata}
use afkak.Protocol.Grouping.{Dict, lookup, insert, lookup-insert, text_eq, text_beq_iff, ℤ_eq}
use afkak.Protocol.Grouping.Distinct.{IsDict}
use afkak.Producer.Batches.{listed, part_eq}
use afkak.Client.{
  is_topic_name, metadata_error_for_topic, topic_fully_replicated, MetadataCache, reset_topic,
  merge_partitions, sort_partitions, merge_listed, set_error, merge_topic, merge_topic_metadata,
  known_error, known_replicated,
}
use afkak.Client.Covered.{merge_topic-none}
use afkak.Client.View.{and_then-none, AreDicts}
use afkak.Client.Alike.{AreAlike, alike_trans, merge_topic-AreAlike}
use afkak.Client.Replicated.{all_in_sync, numbers, merge_partitions-IsMerged}
use afkak.Client.Answers.{is_nonempty, Knows, sorted-Knows, Knows-alike}

merge_listed-Knows :
    (brokers : Dict ℤ BrokerMetadata) (topic : Text) (meta : TopicMetadata)
    (l : List (ℤ × PartitionMetadata)) (cache : MetadataCache)
    → is_nonempty (numbers l) ≡ true
    → IsDict l
    → lookup topic cache.topic_errors ≡ some meta.topic_error_code
    → (merge_listed brokers topic l cache).1 ≡ none
    → (known_error topic (merge_listed brokers topic l cache).0 ≡ meta.topic_error_code)
      × (known_replicated topic (merge_listed brokers topic l cache).0 ≡ all_in_sync l)
merge_listed-Knows brokers topic meta [] cache some_there distinct errno h = cc
merge_listed-Knows brokers topic meta (m ∷ l) cache some_there distinct errno h =
    let start : MetadataCache = record cache {
      topic_partitions = insert topic [] cache.topic_partitions;
    } in
    let one = merge_partitions brokers topic (m ∷ l) start in
    let parts = and_then-none one (sort_partitions topic) h in
    let fresh : listed (lookup topic start.topic_partitions) ≡ [] =
      ap listed (lookup-insert topic topic [] cache.topic_partitions)
      ∙ rw ((text_beq_iff topic topic).1 refl) refl in
    let merged = merge_partitions-IsMerged brokers topic (m ∷ l) start distinct parts.0 in
    let done = sorted-Knows topic meta (m ∷ l) start one.0 some_there distinct merged fresh errno in
    (ap (known_error topic) parts.2 ∙ done.0, ap (known_replicated topic) parts.2 ∙ done.1)

merge_topic-Knows :
    (brokers : Dict ℤ BrokerMetadata) (topic : Text) (meta : TopicMetadata) (cache : MetadataCache)
    → is_nonempty (numbers meta.partition_metadata) ≡ true
    → IsDict meta.partition_metadata
    → (merge_topic brokers (topic, meta) cache).1 ≡ none
    → Knows topic meta (merge_topic brokers (topic, meta) cache).0
merge_topic-Knows brokers topic meta cache some_there distinct h =
    let reset = reset_topic topic cache in
    let errno =
      lookup-insert topic topic meta.topic_error_code reset.topic_errors
      ∙ rw ((text_beq_iff topic topic).1 refl) refl in
    let named = merge_topic-none brokers topic meta cache h in
    rw named (
      merge_listed-Knows brokers topic meta meta.partition_metadata
        (set_error topic meta.topic_error_code reset) some_there distinct errno (rw named at h))

merge_others-AreAlike :
    (brokers : Dict ℤ BrokerMetadata) (ts : Dict Text TopicMetadata) (cache : MetadataCache)
    (t : Text)
    → All (λ (u : Text × TopicMetadata). text_eq.beq t u.0 ≡ false) ts
    → (merge_topic_metadata brokers ts cache).1 ≡ none
    → AreAlike t (merge_topic_metadata brokers ts cache).0 cache
merge_others-AreAlike brokers [] cache t apart h = record {
  lists = refl;
  errors = refl;
  metas = λ q. refl;
}
merge_others-AreAlike brokers ((topic, meta) ∷ ts) cache t apart h =
    let one = merge_topic brokers (topic, meta) cache in
    let parts = and_then-none one (merge_topic_metadata brokers ts) h in
    let other : text_eq.beq topic t ≡ false =
      ground (arith, text_beq_iff topic t, text_beq_iff t topic, apart.0) in
    rw parts.2 (
      alike_trans t (merge_topic_metadata brokers ts one.0).0 one.0 cache
        (merge_others-AreAlike brokers ts one.0 t apart.1 parts.1)
        (merge_topic-AreAlike brokers topic meta cache t other parts.0))

merge_topic_metadata-Knows :
    (brokers : Dict ℤ BrokerMetadata) (ts : Dict Text TopicMetadata) (cache : MetadataCache)
    (t : Text) (meta : TopicMetadata)
    → IsDict ts
    → AreDicts ts
    → lookup t ts ≡ some meta
    → is_nonempty (numbers meta.partition_metadata) ≡ true
    → (merge_topic_metadata brokers ts cache).1 ≡ none
    → (is_topic_name t ≡ true) × Knows t meta (merge_topic_metadata brokers ts cache).0
unfolding lookup
merge_topic_metadata-Knows brokers [] cache t meta distinct dicts found some_there h = cc
merge_topic_metadata-Knows brokers ((topic, m) ∷ ts) cache t meta distinct dicts found some_there
      h =
    let one = merge_topic brokers (topic, m) cache in
    let parts = and_then-none one (merge_topic_metadata brokers ts) h in
    rw parts.2 (elim (Bool-cases (text_eq.beq topic t)) [
      | inl same ↦
          let here : topic ≡ t = (text_beq_iff topic t).0 same in
          let it : m ≡ meta = cc (rw same at found) in
          rw (← here, ← it)
            (
              merge_topic-none brokers topic m cache parts.0,
              Knows-alike topic m (merge_topic_metadata brokers ts one.0).0 one.0
                  (merge_others-AreAlike brokers ts one.0 topic distinct.0 parts.1)
                  (merge_topic-Knows brokers topic m cache (rw it some_there) dicts.0 parts.0),
            )
      | inr other ↦
          merge_topic_metadata-Knows brokers ts one.0 t meta distinct.1 dicts.1 (rw other at found)
            some_there parts.1
    ])

-- The answers for a topic.
abbrev pub Answers : Text → TopicMetadata → MetadataCache → Type 0
Answers t meta cache =
    (metadata_error_for_topic t cache ≡ ok meta.topic_error_code)
    × (topic_fully_replicated t cache ≡ ok (all_in_sync meta.partition_metadata))

-- After a response has merged without an exception, the client's queries answer for each of its topics
-- that has partitions by what the response said of it: its error, and whether all the replicas of all
-- of its partitions are in sync, whatever the cache held before.
pub merge_topic_metadata-Answers :
    (brokers : Dict ℤ BrokerMetadata) (ts : Dict Text TopicMetadata) (cache : MetadataCache)
    (t : Text) (meta : TopicMetadata)
    → IsDict ts
    → AreDicts ts
    → lookup t ts ≡ some meta
    → is_nonempty (numbers meta.partition_metadata) ≡ true
    → (merge_topic_metadata brokers ts cache).1 ≡ none
    → Answers t meta (merge_topic_metadata brokers ts cache).0
merge_topic_metadata-Answers brokers ts cache t meta distinct dicts found some_there h =
    let (named, known) =
      merge_topic_metadata-Knows brokers ts cache t meta distinct dicts found some_there h in
    (rw named (ap ok known.0), rw named (ap ok known.1))
