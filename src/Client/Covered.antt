-- ===== src/Client/Covered.antt =====
-- The entries of topics_to_brokers in afkak/client.py belong to the partitions that are listed for their
-- topics.
use afkak.Prelude.{
  ◌≡◌, refl, ◌∙◌, inl, inr, Bool, true, false, ◌&&◌, ◌||◌, Option, none, List, [], ◌∷◌, ◌++◌, arith,
  if◌then◌else◌, Bool-cases, Option-cases,
}
use afkak.Prelude.Int.{ℤ, eqb_ℤ}
use afkak.Wire.Text.{Text}
use afkak.Protocol.Data.{BrokerMetadata, TopicMetadata}
use afkak.Protocol.Grouping.{Dict, lookup, text_eq, text_beq_iff, ℤ_eq}
use afkak.Protocol.Grouping.Distinct.{IsDict}
use afkak.Dictionary.{delete, IsDict-delete, lookup-delete, lookup-delete_other}
use afkak.Producer.{Part}
use afkak.Producer.Batches.{part_eq, listed}
use afkak.Client.{merge_topic, is_topic_name, MetadataCache, forget_partitions, reset_topic}

-- Is a partition in a list?
abbrev pub has : ℤ → List ℤ → Bool
has p [] = false
has p (q ∷ qs) = eqb_ℤ q p || has p qs

pub has-append : (p : ℤ) (xs ys : List ℤ) → has p (xs ++ ys) ≡ (has p xs || has p ys)
has-append p [] ys = refl
has-append p (x ∷ xs) ys = ground (arith, has-append p xs ys)

abbrev pub partitions_of : Text → MetadataCache → List ℤ
partitions_of topic cache = listed (lookup topic cache.topic_partitions)

-- No key of topics_to_brokers stands twice, and a partition that is not listed has no entry in it.
pub record IsCovered (cache : MetadataCache) : Type 0 where
  pub distinct : IsDict cache.topics_to_brokers
  pub unlisted :
      (topic : Text) (p : ℤ)
      → has p (partitions_of topic cache) ≡ false
      → lookup (topic, p) cache.topics_to_brokers ≡ none

IsDict-forget_partitions :
    (topic : Text) (ps : List ℤ) (d : Dict Part (Option BrokerMetadata))
    → IsDict d
    → IsDict (forget_partitions topic ps d)
unfolding forget_partitions
IsDict-forget_partitions topic [] d h = h
IsDict-forget_partitions topic (p ∷ ps) d h =
    IsDict-forget_partitions topic ps (delete (topic, p) d) (IsDict-delete (topic, p) d h)

-- Of the topic's entries those go that are listed; others stay.
lookup-forget_partitions :
    (topic t : Text) (q : ℤ) (ps : List ℤ) (d : Dict Part (Option BrokerMetadata))
    → IsDict d
    → lookup (t, q) (forget_partitions topic ps d)
      ≡ (if text_eq.beq topic t && has q ps then none else lookup (t, q) d)
unfolding forget_partitions
lookup-forget_partitions topic t q [] d h = ground arith
lookup-forget_partitions topic t q (p ∷ ps) d h = ground (
  arith,
  lookup-forget_partitions topic t q ps (delete (topic, p) d) (IsDict-delete (topic, p) d h),
  lookup-delete (topic, p) (t, q) d h,
)

-- A reset takes all entries of its topic, and leaves the others.
pub lookup-reset_topic :
    (topic t : Text) (q : ℤ) (cache : MetadataCache)
    → IsCovered cache
    → lookup (t, q) (reset_topic topic cache).topics_to_brokers
      ≡ (if text_eq.beq topic t then none else lookup (t, q) cache.topics_to_brokers)
lookup-reset_topic topic t q cache h = elim (Option-cases (lookup topic cache.topic_partitions)) [
  | inl e ↦
      let gone = h.unlisted topic q (rw e refl) in rw e (ground (arith, text_beq_iff topic t, gone))
  | inr (ps, e) ↦
      let gone : has q ps ≡ false → lookup (topic, q) cache.topics_to_brokers ≡ none =
        λ no. h.unlisted topic q (rw e no) in
      rw e (
        ground (
          arith,
          text_beq_iff topic t,
          gone,
          lookup-forget_partitions topic t q ps cache.topics_to_brokers h.distinct,
        ))
]

partitions_of-reset_topic :
    (topic t : Text) (cache : MetadataCache)
    → text_eq.beq topic t ≡ false
    → lookup t (reset_topic topic cache).topic_partitions ≡ lookup t cache.topic_partitions
partitions_of-reset_topic topic t cache other =
    elim (Option-cases (lookup topic cache.topic_partitions)) [
      | inl e ↦ rw e refl
      | inr (ps, e) ↦ rw e (lookup-delete_other topic t cache.topic_partitions other)
    ]

pub reset_topic-IsCovered :
    (topic : Text) (cache : MetadataCache) → IsCovered cache → IsCovered (reset_topic topic cache)
reset_topic-IsCovered topic cache h = record {
  distinct = elim (Option-cases (lookup topic cache.topic_partitions)) [
    | inl e ↦ rw e h.distinct
    | inr (ps, e) ↦ rw e (IsDict-forget_partitions topic ps cache.topics_to_brokers h.distinct)
  ];
  unlisted = λ t p no. elim (Bool-cases (text_eq.beq topic t)) [
    | inl same ↦ lookup-reset_topic topic t p cache h ∙ rw same refl
    | inr other ↦
        lookup-reset_topic topic t p cache h
        ∙ rw other (h.unlisted t p (rw (← partitions_of-reset_topic topic t cache other) no))
  ];
}

-- The name of a topic that is merged without an exception is one.
pub merge_topic-none :
    (brokers : Dict ℤ BrokerMetadata) (topic : Text) (meta : TopicMetadata) (cache : MetadataCache)
    → (merge_topic brokers (topic, meta) cache).1 ≡ none
    → is_topic_name topic ≡ true
merge_topic-none brokers topic meta cache h = elim (Bool-cases (is_topic_name topic)) [
  | inl good ↦ good
  | inr bad ↦ cc (rw bad at h)
]
