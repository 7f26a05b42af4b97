-- ===== src/Client/Alike.antt =====
-- What a merge of a response leaves alone: the lists, the errors and the metadata of other topics.
use afkak.Prelude.{
  ◌≡◌, refl, ◌∙◌, inl, inr, false, Option, none, some, List, [], ◌∷◌, ◌++◌, Bool-cases,
  Option-cases,
}
use afkak.Prelude.Int.{ℤ, eqb_ℤ, negsuc, ltb_ℤ}
use afkak.Wire.Text.{Text}
use afkak.Protocol.Data.{BrokerMetadata, PartitionMetadata, TopicMetadata}
use afkak.Protocol.Grouping.{Dict, lookup, insert, lookup-insert, text_eq, ℤ_eq}
use afkak.Dictionary.{lookup-delete_other}
use afkak.Assignment.{sort_into}
use afkak.Producer.{Part}
use afkak.Producer.Batches.{part_eq, listed}
use afkak.Client.{
  MetadataCache, reset_topic, set_broker, set_leader, list_partition, merge_partition,
  merge_partitions, sort_partitions, merge_listed, set_error, merge_topic,
}
use afkak.Client.Covered.{merge_topic-none}
use afkak.Client.View.{and_then-none}

-- Two caches that say the same of a topic and its partitions, but for the leaders.
pub record AreAlike (t : Text) (one other : MetadataCache) : Type 0 where
  pub lists : lookup t one.topic_partitions ≡ lookup t other.topic_partitions
  pub errors : lookup t one.topic_errors ≡ lookup t other.topic_errors
  pub metas : (q : ℤ) → lookup (t, q) one.partition_meta ≡ lookup (t, q) other.partition_meta

pub alike_trans :
    (t : Text) (a b c : MetadataCache) → AreAlike t a b → AreAlike t b c → AreAlike t a c
alike_trans t a b c one other = record {
  lists = one.lists ∙ other.lists;
  errors = one.errors ∙ other.errors;
  metas = λ q. one.metas q ∙ other.metas q;
}

set_broker-AreAlike :
    (part : Part) (b : Option BrokerMetadata) (cache : MetadataCache) (t : Text)
    → AreAlike t (set_broker part b cache).0 cache
set_broker-AreAlike part none cache t = record { lists = refl; errors = refl; metas = λ q. refl }
set_broker-AreAlike part (some b) cache t = record {
  lists = refl;
  errors = refl;
  metas = λ q. refl;
}

pub set_leader-AreAlike :
    (brokers : Dict ℤ BrokerMetadata) (part : Part) (leader : ℤ) (cache : MetadataCache) (t : Text)
    → AreAlike t (set_leader brokers part leader cache).0 cache
unfolding set_leader
set_leader-AreAlike brokers part leader cache t = elim (Bool-cases (eqb_ℤ leader (negsuc 0))) [
  | inl same ↦ rw same (record { lists = refl; errors = refl; metas = λ q. refl })
  | inr other ↦ rw other (set_broker-AreAlike part (lookup leader brokers) cache t)
]

merge_partition-AreAlike :
    (brokers : Dict ℤ BrokerMetadata) (topic : Text) (p : ℤ) (meta : PartitionMetadata)
    (cache : MetadataCache) (t : Text)
    → text_eq.beq topic t ≡ false
    → AreAlike t (merge_partition brokers topic (p, meta) cache).0 cache
merge_partition-AreAlike brokers topic p meta cache t other =
    let found = list_partition topic p meta cache in
    alike_trans t (merge_partition brokers topic (p, meta) cache).0 found cache
      (set_leader-AreAlike brokers (topic, p) meta.leader found t)
      (record {
        lists =
            lookup-insert topic t (listed (lookup topic cache.topic_partitions) ++ p ∷ [])
              cache.topic_partitions
            ∙ rw other refl;
        errors = refl;
        metas = λ q. lookup-insert (topic, p) (t, q) meta cache.partition_meta ∙ rw other refl;
      })

merge_partitions-AreAlike :
    (brokers : Dict ℤ BrokerMetadata) (topic : Text) (l : List (ℤ × PartitionMetadata))
    (cache : MetadataCache) (t : Text)
    → text_eq.beq topic t ≡ false
    → (merge_partitions brokers topic l cache).1 ≡ none
    → AreAlike t (merge_partitions brokers topic l cache).0 cache
merge_partitions-AreAlike brokers topic [] cache t other h = record {
  lists = refl;
  errors = refl;
  metas = λ q. refl;
}
merge_partitions-AreAlike brokers topic ((p, meta) ∷ l) cache t other h =
    let one = merge_partition brokers topic (p, meta) cache in
    let parts = and_then-none one (merge_partitions brokers topic l) h in
    rw parts.2 (
      alike_trans t (merge_partitions brokers topic l one.0).0 one.0 cache
        (merge_partitions-AreAlike brokers topic l one.0 t other parts.1)
        (merge_partition-AreAlike brokers topic p meta cache t other))

merge_listed-AreAlike :
    (brokers : Dict ℤ BrokerMetadata) (topic : Text) (l : List (ℤ × PartitionMetadata))
    (cache : MetadataCache) (t : Text)
    → text_eq.beq topic t ≡ false
    → (merge_listed brokers topic l cache).1 ≡ none
    → AreAlike t (merge_listed brokers topic l cache).0 cache
merge_listed-AreAlike brokers topic [] cache t other h = record {
  lists = refl;
  errors = refl;
  metas = λ q. refl;
}
merge_listed-AreAlike brokers topic (m ∷ l) cache t other h =
    let start : MetadataCache = record cache {
      topic_partitions = insert topic [] cache.topic_partitions;
    } in
    let one = merge_partitions brokers topic (m ∷ l) start in
    let parts = and_then-none one (sort_partitions topic) h in
    let same = merge_partitions-AreAlike brokers topic (m ∷ l) start t other parts.0 in
    rw parts.2 (record {
      lists =
          lookup-insert topic t (sort_into ltb_ℤ [] (listed (lookup topic one.0.topic_partitions)))
            one.0.topic_partitions
          ∙ rw other (same.lists ∙ lookup-insert topic t [] cache.topic_partitions ∙ rw other refl);
      errors = same.errors;
      metas = same.metas;
    })

reset_topic-AreAlike :
    (topic : Text) (cache : MetadataCache) (t : Text)
    → text_eq.beq topic t ≡ false
    → AreAlike t (reset_topic topic cache) cache
reset_topic-AreAlike topic cache t other =
    elim (Option-cases (lookup topic cache.topic_partitions)) [
      | inl e ↦ rw e (record {
        lists = refl;
        errors = lookup-delete_other topic t cache.topic_errors other;
        metas = λ q. refl;
      })
      | inr (ps, e) ↦ rw e (record {
        lists = lookup-delete_other topic t cache.topic_partitions other;
        errors = lookup-delete_other topic t cache.topic_errors other;
        metas = λ q. refl;
      })
    ]

pub merge_topic-AreAlike :
    (brokers : Dict ℤ BrokerMetadata) (topic : Text) (meta : TopicMetadata) (cache : MetadataCache)
    (t : Text)
    → text_eq.beq topic t ≡ false
    → (merge_topic brokers (topic, meta) cache).1 ≡ none
    → AreAlike t (merge_topic brokers (topic, meta) cache).0 cache
merge_topic-AreAlike brokers topic meta cache t other h =
    let named = merge_topic-none brokers topic meta cache h in
    let reset = reset_topic topic cache in
    let start = set_error topic meta.topic_error_code reset in
    let same = reset_topic-AreAlike topic cache t other in
    let merged = merge_listed brokers topic meta.partition_metadata start in
    rw named (
      alike_trans t merged.0 start cache
        (merge_listed-AreAlike brokers topic meta.partition_metadata start t other (rw named at h))
        (record {
          lists = same.lists;
          errors =
              lookup-insert topic t meta.topic_error_code reset.topic_errors ∙ rw other same.errors;
          metas = same.metas;
        }))
