-- ===== src/Client/View.antt =====
-- What a client of afkak/client.py takes its cache for: a function from partitions to what is known of
-- their leaders. A response that merges without an exception changes it as the response says.
use afkak.Prelude.{
  ◌≡◌, refl, ap, ◌∙◌, inl, inr, Option, none, some, List, [], ◌∷◌, arith, if◌then◌else◌, Bool-cases,
  All,
}
use afkak.Prelude.Int.{ℤ, eqb_ℤ, eqb_ℤ→eq, negsuc}
use afkak.Wire.Text.{Text}
use afkak.Protocol.Data.{BrokerMetadata, PartitionMetadata, TopicMetadata}
use afkak.Protocol.Grouping.{Dict, lookup, insert, lookup-insert, text_eq, ℤ_eq}
use afkak.Protocol.Grouping.Distinct.{IsDict}
use afkak.Dictionary.{lookup_new}
use afkak.Producer.{Part}
use afkak.Producer.Batches.{part_eq}
use afkak.Client.{
  MetadataCache, reset_topic, Merge, set_broker, set_leader, list_partition, merge_partition,
  and_then, merge_partitions, sort_partitions, merge_listed, set_error, merge_topic,
  merge_topic_metadata,
}
use afkak.Client.Covered.{merge_topic-none, IsCovered, lookup-reset_topic}
use afkak.Client.Merging.{merge_topic-IsCovered}
use afkak.Client.Cached.{Reaches, Reaches-IsCovered}

-- None for a partition that is not known, or its leader, where it has one.
abbrev Leaders : Type 0
Leaders = Text → ℤ → Option (Option BrokerMetadata)

abbrev pub view : MetadataCache → Leaders
view cache t q = lookup (t, q) cache.topics_to_brokers

-- What a response says of a partition.
abbrev leader_of : Dict ℤ BrokerMetadata → PartitionMetadata → Option BrokerMetadata
leader_of brokers meta = if eqb_ℤ meta.leader (negsuc 0) then none else lookup meta.leader brokers

abbrev pub said :
    Dict ℤ BrokerMetadata
    → Option PartitionMetadata
    → Option (Option BrokerMetadata)
    → Option (Option BrokerMetadata)
said brokers none before = before
said brokers (some meta) before = some (leader_of brokers meta)

-- The topics of a response, each told whole, the last one of a name.
abbrev pub told : Dict ℤ BrokerMetadata → Dict Text TopicMetadata → Leaders → Leaders
told brokers [] before t q = before t q
told brokers ((topic, meta) ∷ ts) before t q =
    told brokers ts
      (λ u p.
        if text_eq.beq topic u
        then said brokers (lookup p meta.partition_metadata) none
        else before u p)
      t q

-- Responses are dictionaries, of dictionaries.
abbrev pub AreDicts : Dict Text TopicMetadata → Type 0
AreDicts ts = All (λ (t : Text × TopicMetadata). IsDict t.1.partition_metadata) ts

-- Code that raised nothing raised nothing in its first step.
pub and_then-none :
    (one : Merge) (rest : MetadataCache → Merge)
    → (and_then one rest).1 ≡ none
    → (one.1 ≡ none) × ((rest one.0).1 ≡ none) × ((and_then one rest).0 ≡ (rest one.0).0)
and_then-none (cache, none) rest h = (refl, h, refl)
and_then-none (cache, some e) rest h = cc

set_broker-view :
    (part : Part) (b : Option BrokerMetadata) (cache : MetadataCache) (t : Text) (q : ℤ)
    → (set_broker part b cache).1 ≡ none
    → view (set_broker part b cache).0 t q
      ≡ (if part_eq.beq part (t, q) then some b else view cache t q)
set_broker-view part none cache t q h = cc
set_broker-view part (some b) cache t q h =
    lookup-insert part (t, q) (some b) cache.topics_to_brokers

merge_partition-view :
    (brokers : Dict ℤ BrokerMetadata) (topic : Text) (p : ℤ) (meta : PartitionMetadata)
    (cache : MetadataCache) (t : Text) (q : ℤ)
    → (merge_partition brokers topic (p, meta) cache).1 ≡ none
    → view (merge_partition brokers topic (p, meta) cache).0 t q
      ≡ (if part_eq.beq (topic, p) (t, q) then some (leader_of brokers meta) else view cache t q)
unfolding set_leader
merge_partition-view brokers topic p meta cache t q h =
    elim (Bool-cases (eqb_ℤ meta.leader (negsuc 0))) [
      | inl same ↦ rw same (lookup-insert (topic, p) (t, q) none cache.topics_to_brokers)
      | inr other ↦ rw other (
          set_broker-view (topic, p) (lookup meta.leader brokers)
            (list_partition topic p meta cache) t q (rw other at h))
    ]

-- A partition that is set last, after one with another number.
said-head :
    (brokers : Dict ℤ BrokerMetadata) (topic t : Text) (p q : ℤ) (meta : PartitionMetadata)
    (l : List (ℤ × PartitionMetadata)) (before : Option (Option BrokerMetadata))
    → IsDict ((p, meta) ∷ l)
    → (if text_eq.beq topic t
        then said brokers
            (lookup q l)
            (if part_eq.beq (topic, p) (t, q) then some (leader_of brokers meta) else before)
        else (if part_eq.beq (topic, p) (t, q) then some (leader_of brokers meta) else before))
      ≡ (if text_eq.beq topic t then said brokers (lookup q ((p, meta) ∷ l)) before else before)
unfolding lookup
said-head brokers topic t p q meta l before h = elim (Bool-cases (text_eq.beq topic t)) [
  | inr other ↦ rw other refl
  | inl same ↦ elim (Bool-cases (eqb_ℤ p q)) [
    | inr apart ↦ rw (same, apart) refl
    | inl here ↦
        let it : p ≡ q = eqb_ℤ→eq p q here in
        let no_more : lookup q l ≡ none = rw (← it) (lookup_new p l h.0) in
        rw (same, here, no_more) refl
  ]
]

merge_partitions-view :
    (brokers : Dict ℤ BrokerMetadata) (topic : Text) (l : List (ℤ × PartitionMetadata))
    (cache : MetadataCache) (t : Text) (q : ℤ)
    → IsDict l
    → (merge_partitions brokers topic l cache).1 ≡ none
    → view (merge_partitions brokers topic l cache).0 t q
      ≡ (if text_eq.beq topic t then said brokers (lookup q l) (view cache t q) else view cache t q)
unfolding lookup
merge_partitions-view brokers topic [] cache t q distinct h = ground arith
merge_partitions-view brokers topic ((p, meta) ∷ l) cache t q distinct h =
    let one = merge_partition brokers topic (p, meta) cache in
    let parts = and_then-none one (merge_partitions brokers topic l) h in
    ap (λ (c : MetadataCache). view c t q) parts.2
    ∙ merge_partitions-view brokers topic l one.0 t q distinct.1 parts.1
    ∙ rw (merge_partition-view brokers topic p meta cache t q parts.0)
        (said-head brokers topic t p q meta l (view cache t q) distinct)

merge_listed-view :
    (brokers : Dict ℤ BrokerMetadata) (topic : Text) (l : List (ℤ × PartitionMetadata))
    (cache : MetadataCache) (t : Text) (q : ℤ)
    → IsDict l
    → (merge_listed brokers topic l cache).1 ≡ none
    → view (merge_listed brokers topic l cache).0 t q
      ≡ (if text_eq.beq topic t then said brokers (lookup q l) (view cache t q) else view cache t q)
unfolding lookup
merge_listed-view brokers topic [] cache t q distinct h = ground arith
merge_listed-view brokers topic (m ∷ l) cache t q distinct h =
    let start : MetadataCache = record cache {
      topic_partitions = insert topic [] cache.topic_partitions;
    } in
    let parts =
      and_then-none (merge_partitions brokers topic (m ∷ l) start) (sort_partitions topic) h in
    ap (λ (c : MetadataCache). view c t q) parts.2
    ∙ merge_partitions-view brokers topic (m ∷ l) start t q distinct parts.0

merge_topic-view :
    (brokers : Dict ℤ BrokerMetadata) (topic : Text) (meta : TopicMetadata) (cache : MetadataCache)
    (t : Text) (q : ℤ)
    → IsCovered cache
    → IsDict meta.partition_metadata
    → (merge_topic brokers (topic, meta) cache).1 ≡ none
    → view (merge_topic brokers (topic, meta) cache).0 t q ≡ (
        if text_eq.beq topic t
        then said brokers (lookup q meta.partition_metadata) none
        else view cache t q)
merge_topic-view brokers topic meta cache t q covered distinct h =
    let after = set_error topic meta.topic_error_code (reset_topic topic cache) in
    let named = merge_topic-none brokers topic meta cache h in
    let merged =
      merge_listed-view brokers topic meta.partition_metadata after t q distinct (rw named at h) in
    rw named (merged ∙ ground (arith, lookup-reset_topic topic t q cache covered))

told_same :
    (brokers : Dict ℤ BrokerMetadata) (ts : Dict Text TopicMetadata) (one other : Leaders)
    → ((t : Text) (q : ℤ) → one t q ≡ other t q)
    → (t : Text) (q : ℤ) → told brokers ts one t q ≡ told brokers ts other t q
told_same brokers [] one other same t q = same t q
told_same brokers ((topic, meta) ∷ ts) one other same t q =
    told_same brokers ts _ _
      (λ u p. elim (Bool-cases (text_eq.beq topic u)) [
        | inl e ↦ rw e refl
        | inr e ↦ rw e (same u p)
      ])
      t q

merge_topic_metadata_lem :
    (brokers : Dict ℤ BrokerMetadata) (ts : Dict Text TopicMetadata) (cache : MetadataCache)
    → IsCovered cache
    → AreDicts ts
    → (merge_topic_metadata brokers ts cache).1 ≡ none
    → (t : Text) (q : ℤ)
    → view (merge_topic_metadata brokers ts cache).0 t q ≡ told brokers ts (view cache) t q
merge_topic_metadata_lem brokers [] cache covered dicts h t q = refl
merge_topic_metadata_lem brokers ((topic, meta) ∷ ts) cache covered dicts h t q =
    let one = merge_topic brokers (topic, meta) cache in
    let parts = and_then-none one (merge_topic_metadata brokers ts) h in
    ap (λ (c : MetadataCache). view c t q) parts.2
    ∙ merge_topic_metadata_lem brokers ts one.0
        (merge_topic-IsCovered brokers (topic, meta) cache covered) dicts.1 parts.1 t q
    ∙ told_same brokers ts (view one.0) _
        (λ u p. merge_topic-view brokers topic meta cache u p covered dicts.0 parts.0) t q

-- In every cache that is reached, a response that merges without an exception changes what is known
-- of the leaders as the response says: of each topic that it names, exactly the partitions that it
-- names are known after it, each with the broker that leads it, or with none if its leader is -1;
-- what is known of other topics stays.
pub merge_topic_metadata-view :
    {cache : MetadataCache}
    → Reaches cache
    → (brokers : Dict ℤ BrokerMetadata) (ts : Dict Text TopicMetadata) → AreDicts ts
    → (merge_topic_metadata brokers ts cache).1 ≡ none
    → (t : Text) (q : ℤ)
    → view (merge_topic_metadata brokers ts cache).0 t q ≡ told brokers ts (view cache) t q
merge_topic_metadata-view {cache} reached brokers ts dicts h =
    merge_topic_metadata_lem brokers ts cache (Reaches-IsCovered reached) dicts h
