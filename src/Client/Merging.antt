-- ===== src/Client/Merging.antt =====
-- The merging of metadata in afkak/client.py, `_merge_topic_metadata`, keeps the entries of
-- topics_to_brokers to the partitions that are listed, also where it raises.
use afkak.Prelude.{
  ◌≡◌, refl, ap, ◌∙◌, inl, inr, true, false, ◌||◌, Option, none, some, List, [], ◌∷◌, ◌++◌, arith,
  Bool-cases,
}
use afkak.Prelude.Int.{ℤ, eqb_ℤ, eqb_ℤ_refl, negsuc, ltb_ℤ}
use afkak.Wire.Text.{Text}
use afkak.Protocol.Data.{BrokerMetadata, PartitionMetadata, TopicMetadata}
use afkak.Protocol.Grouping.{Dict, lookup, insert, lookup-insert, text_eq, text_beq_iff, ℤ_eq}
use afkak.Dictionary.{IsDict-insert}
use afkak.Assignment.{put, sort_into}
use afkak.Producer.{Part}
use afkak.Producer.Batches.{part_eq, part_beq_iff}
use afkak.Client.{
  is_topic_name, MetadataCache, reset_topic, Merge, set_broker, set_leader, list_partition,
  merge_partition, and_then, merge_partitions, sort_partitions, merge_listed, set_error,
  merge_topic, merge_topic_metadata,
}
use afkak.Client.Covered.{
  has, has-append, partitions_of, IsCovered, lookup-reset_topic, reset_topic-IsCovered,
}

has-put : (p x : ℤ) (l : List ℤ) → has p (put ltb_ℤ x l) ≡ (eqb_ℤ x p || has p l)
has-put p x [] = refl
has-put p x (y ∷ l) = ground (arith, has-put p x l)

has-sort_into : (p : ℤ) (done l : List ℤ) → has p (sort_into ltb_ℤ done l) ≡ (has p l || has p done)
has-sort_into p done [] = refl
has-sort_into p done (x ∷ l) =
    ground (arith, has-put p x done, has-sort_into p (put ltb_ℤ x done) l)

-- A topic's list is set, with any metadata of partitions.
set_list-IsCovered :
    (topic : Text) (l : List ℤ) (meta : Dict Part PartitionMetadata) (cache : MetadataCache)
    → IsCovered cache
    → ((q : ℤ) → has q l ≡ false → lookup (topic, q) cache.topics_to_brokers ≡ none)
    → IsCovered (record cache {
      topic_partitions = insert topic l cache.topic_partitions;
      partition_meta = meta;
    })
set_list-IsCovered topic l meta cache h fits = record {
  distinct = h.distinct;
  unlisted = λ t q missing.
      let new = lookup-insert topic t l cache.topic_partitions in
      elim (Bool-cases (text_eq.beq topic t)) [
        | inl same ↦
            let here : topic ≡ t = (text_beq_iff topic t).0 same in
            rw (← here) (fits q (rw (new, same) at missing))
        | inr other ↦ h.unlisted t q (rw (new, other) at missing)
      ];
}

-- An entry is set for a partition that is listed.
set_entry-IsCovered :
    (topic : Text) (p : ℤ) (b : Option BrokerMetadata) (cache : MetadataCache)
    → has p (partitions_of topic cache) ≡ true
    → IsCovered cache
    → IsCovered (record cache { topics_to_brokers = insert (topic, p) b cache.topics_to_brokers })
set_entry-IsCovered topic p b cache known h = record {
  distinct = IsDict-insert (topic, p) b cache.topics_to_brokers h.distinct;
  unlisted = λ t q missing.
      let new = lookup-insert (topic, p) (t, q) b cache.topics_to_brokers in
      elim (Bool-cases (part_eq.beq (topic, p) (t, q))) [
        | inl same ↦
            let here = (part_beq_iff (topic, p) (t, q)).0 same in
            let t_here : topic ≡ t = ap (λ (x : Part). x.0) here in
            let p_here : p ≡ q = ap (λ (x : Part). x.1) here in
            cc (rw (← t_here, ← p_here) at missing, known)
        | inr other ↦ new ∙ rw other (h.unlisted t q missing)
      ];
}

set_broker-IsCovered :
    (topic : Text) (p : ℤ) (b : Option BrokerMetadata) (cache : MetadataCache)
    → has p (partitions_of topic cache) ≡ true
    → IsCovered cache
    → IsCovered (set_broker (topic, p) b cache).0
set_broker-IsCovered topic p none cache known h = h
set_broker-IsCovered topic p (some b) cache known h =
    set_entry-IsCovered topic p (some b) cache known h

set_leader-IsCovered :
    (brokers : Dict ℤ BrokerMetadata) (topic : Text) (p leader : ℤ) (cache : MetadataCache)
    → has p (partitions_of topic cache) ≡ true
    → IsCovered cache
    → IsCovered (set_leader brokers (topic, p) leader cache).0
unfolding set_leader
set_leader-IsCovered brokers topic p leader cache known h =
    elim (Bool-cases (eqb_ℤ leader (negsuc 0))) [
      | inl same ↦ rw same (set_entry-IsCovered topic p none cache known h)
      | inr other ↦ rw other (set_broker-IsCovered topic p (lookup leader brokers) cache known h)
    ]

list_partition-IsCovered :
    (topic : Text) (p : ℤ) (meta : PartitionMetadata) (cache : MetadataCache)
    → IsCovered cache
    → IsCovered (list_partition topic p meta cache)
list_partition-IsCovered topic p meta cache h =
    let l = partitions_of topic cache in
    set_list-IsCovered topic (l ++ p ∷ []) (insert (topic, p) meta cache.partition_meta) cache h
      (λ q missing. h.unlisted topic q (ground (arith, has-append q l (p ∷ []), missing)))

list_partition-has :
    (topic : Text) (p : ℤ) (meta : PartitionMetadata) (cache : MetadataCache)
    → has p (partitions_of topic (list_partition topic p meta cache)) ≡ true
list_partition-has topic p meta cache =
    let l = partitions_of topic cache in
    rw
      (
        lookup-insert topic topic (l ++ p ∷ []) cache.topic_partitions,
        (text_beq_iff topic topic).1 refl,
      )
      (ground (arith, has-append p l (p ∷ []), eqb_ℤ_refl p))

merge_partition-IsCovered :
    (brokers : Dict ℤ BrokerMetadata) (topic : Text) (m : ℤ × PartitionMetadata)
    (cache : MetadataCache)
    → IsCovered cache
    → IsCovered (merge_partition brokers topic m cache).0
merge_partition-IsCovered brokers topic (p, meta) cache h =
    set_leader-IsCovered brokers topic p meta.leader (list_partition topic p meta cache)
      (list_partition-has topic p meta cache) (list_partition-IsCovered topic p meta cache h)

and_then-IsCovered :
    (one : Merge) (rest : MetadataCache → Merge)
    → IsCovered one.0
    → ((cache : MetadataCache) → IsCovered cache → IsCovered (rest cache).0)
    → IsCovered (and_then one rest).0
and_then-IsCovered (cache, none) rest h next = next cache h
and_then-IsCovered (cache, some e) rest h next = h

merge_partitions-IsCovered :
    (brokers : Dict ℤ BrokerMetadata) (topic : Text) (l : List (ℤ × PartitionMetadata))
    (cache : MetadataCache)
    → IsCovered cache
    → IsCovered (merge_partitions brokers topic l cache).0
merge_partitions-IsCovered brokers topic [] cache h = h
merge_partitions-IsCovered brokers topic (m ∷ l) cache h =
    and_then-IsCovered (merge_partition brokers topic m cache) (merge_partitions brokers topic l)
      (merge_partition-IsCovered brokers topic m cache h)
      (merge_partitions-IsCovered brokers topic l)

sort_partitions-IsCovered :
    (topic : Text) (cache : MetadataCache)
    → IsCovered cache
    → IsCovered (sort_partitions topic cache).0
sort_partitions-IsCovered topic cache h =
    let l = partitions_of topic cache in
    set_list-IsCovered topic (sort_into ltb_ℤ [] l) cache.partition_meta cache h
      (λ q missing. h.unlisted topic q (ground (arith, has-sort_into q [] l, missing)))

-- The list of a topic without entries is made empty.
start-IsCovered :
    (topic : Text) (errno : ℤ) (cache : MetadataCache)
    → IsCovered cache
    → IsCovered (set_error topic errno (reset_topic topic cache))
start-IsCovered topic errno cache h =
    let after = reset_topic-IsCovered topic cache h in
    record { distinct = after.distinct; unlisted = after.unlisted }

emptied-IsCovered :
    (topic : Text) (errno : ℤ) (cache : MetadataCache)
    → IsCovered cache
    → IsCovered (record (set_error topic errno (reset_topic topic cache)) {
      topic_partitions = insert topic [] (reset_topic topic cache).topic_partitions;
    })
emptied-IsCovered topic errno cache h =
    set_list-IsCovered topic [] (reset_topic topic cache).partition_meta
      (set_error topic errno (reset_topic topic cache)) (start-IsCovered topic errno cache h)
      (λ q missing.
        lookup-reset_topic topic topic q cache h ∙ rw ((text_beq_iff topic topic).1 refl) refl)

merge_listed-IsCovered :
    (brokers : Dict ℤ BrokerMetadata) (topic : Text) (errno : ℤ) (l : List (ℤ × PartitionMetadata))
    (cache : MetadataCache)
    → IsCovered cache
    → IsCovered (merge_listed brokers topic l (set_error topic errno (reset_topic topic cache))).0
merge_listed-IsCovered brokers topic errno [] cache h = start-IsCovered topic errno cache h
merge_listed-IsCovered brokers topic errno (m ∷ l) cache h =
    and_then-IsCovered
      (merge_partitions brokers topic (m ∷ l)
        (record (set_error topic errno (reset_topic topic cache)) {
          topic_partitions = insert topic [] (reset_topic topic cache).topic_partitions;
        }))
      (sort_partitions topic)
      (merge_partitions-IsCovered brokers topic (m ∷ l) _ (emptied-IsCovered topic errno cache h))
      (sort_partitions-IsCovered topic)

pub merge_topic-IsCovered :
    (brokers : Dict ℤ BrokerMetadata) (t : Text × TopicMetadata) (cache : MetadataCache)
    → IsCovered cache
    → IsCovered (merge_topic brokers t cache).0
merge_topic-IsCovered brokers (topic, meta) cache h = elim (Bool-cases (is_topic_name topic)) [
  | inl good ↦
      rw good
        (merge_listed-IsCovered brokers topic meta.topic_error_code meta.partition_metadata cache h)
  | inr bad ↦ rw bad h
]

pub merge_topic_metadata-IsCovered :
    (brokers : Dict ℤ BrokerMetadata) (ts : Dict Text TopicMetadata) (cache : MetadataCache)
    → IsCovered cache
    → IsCovered (merge_topic_metadata brokers ts cache).0
merge_topic_metadata-IsCovered brokers [] cache h = h
merge_topic_metadata-IsCovered brokers (t ∷ ts) cache h =
    and_then-IsCovered (merge_topic brokers t cache) (merge_topic_metadata brokers ts)
      (merge_topic-IsCovered brokers t cache h) (merge_topic_metadata-IsCovered brokers ts)
