-- ===== src/Client/Answers.antt =====
-- What the cache of afkak/client.py has of a topic after a merge.
use afkak.Prelude.{
  ◌≡◌, refl, ap, ◌∙◌, Bool, true, false, ◌&&◌, ◌||◌, Option, none, some, List, [], ◌∷◌, ◌++◌, arith,
  All,
}
use afkak.Prelude.Int.{ℤ, ltb_ℤ}
use afkak.Wire.Text.{Text}
use afkak.Protocol.Data.{PartitionMetadata, TopicMetadata}
use afkak.Protocol.Grouping.{lookup, lookup-insert, text_eq, text_beq_iff, ℤ_eq}
use afkak.Protocol.Grouping.Distinct.{IsDict}
use afkak.Assignment.{put, sort_into}
use afkak.Producer.Batches.{part_eq, listed}
use afkak.Client.{
  MetadataCache, sort_partitions, all_replicated, replicated_of, known_replicated, known_error,
  partition_fully_replicated,
}
use afkak.Client.Replicated.{all_in_sync, numbers, IsMerged, lookup_self}
use afkak.Client.Alike.{AreAlike}

all_replicated-put :
    (t : Text) (x : ℤ) (l : List ℤ) (cache : MetadataCache)
    → all_replicated t (put ltb_ℤ x l) cache
      ≡ (partition_fully_replicated (t, x) cache && all_replicated t l cache)
all_replicated-put t x [] cache = refl
all_replicated-put t x (y ∷ l) cache = ground (arith, all_replicated-put t x l cache)

all_replicated-sort_into :
    (t : Text) (done l : List ℤ) (cache : MetadataCache)
    → all_replicated t (sort_into ltb_ℤ done l) cache
      ≡ (all_replicated t l cache && all_replicated t done cache)
all_replicated-sort_into t done [] cache = refl
all_replicated-sort_into t done (x ∷ l) cache = ground (
  arith,
  all_replicated-put t x done cache,
  all_replicated-sort_into t (put ltb_ℤ x done) l cache,
)

abbrev pub is_nonempty : List ℤ → Bool
is_nonempty [] = false
is_nonempty (p ∷ ps) = true

is_nonempty-put : (x : ℤ) (l : List ℤ) → is_nonempty (put ltb_ℤ x l) ≡ true
is_nonempty-put x [] = refl
is_nonempty-put x (y ∷ l) = ground arith

is_nonempty-sort_into :
    (done l : List ℤ) → is_nonempty (sort_into ltb_ℤ done l) ≡ (is_nonempty l || is_nonempty done)
is_nonempty-sort_into done [] = refl
is_nonempty-sort_into done (x ∷ l) =
    ground (arith, is_nonempty-put x done, is_nonempty-sort_into (put ltb_ℤ x done) l)

replicated_of-some :
    (t : Text) (ps : List ℤ) (cache : MetadataCache)
    → replicated_of t (some ps) cache ≡ (is_nonempty ps && all_replicated t ps cache)
replicated_of-some t [] cache = refl
replicated_of-some t (p ∷ ps) cache = refl

all_replicated_alike :
    (t : Text) (ps : List ℤ) (one other : MetadataCache)
    → ((q : ℤ) → lookup (t, q) one.partition_meta ≡ lookup (t, q) other.partition_meta)
    → all_replicated t ps one ≡ all_replicated t ps other
all_replicated_alike t [] one other same = refl
all_replicated_alike t (p ∷ ps) one other same =
    rw (same p, all_replicated_alike t ps one other same) refl

replicated_of_alike :
    (t : Text) (o : Option (List ℤ)) (one other : MetadataCache)
    → ((q : ℤ) → lookup (t, q) one.partition_meta ≡ lookup (t, q) other.partition_meta)
    → replicated_of t o one ≡ replicated_of t o other
replicated_of_alike t none one other same = refl
replicated_of_alike t (some []) one other same = refl
replicated_of_alike t (some (p ∷ ps)) one other same =
    all_replicated_alike t (p ∷ ps) one other same

all_replicated-numbers :
    (t : Text) (l : List (ℤ × PartitionMetadata)) (cache : MetadataCache)
    → All (λ (m : ℤ × PartitionMetadata). lookup (t, m.0) cache.partition_meta ≡ some m.1) l
    → all_replicated t (numbers l) cache ≡ all_in_sync l
all_replicated-numbers t [] cache h = refl
all_replicated-numbers t ((p, meta) ∷ l) cache h =
    rw (h.0, all_replicated-numbers t l cache h.1) refl

merged-metas :
    (topic : Text) (l rest : List (ℤ × PartitionMetadata)) (before after : MetadataCache)
    → IsMerged topic l before after
    → All (λ (m : ℤ × PartitionMetadata). lookup m.0 l ≡ some m.1) rest
    → All (λ (m : ℤ × PartitionMetadata). lookup (topic, m.0) after.partition_meta ≡ some m.1) rest
merged-metas topic l [] before after merged h = tt
merged-metas topic l ((p, meta) ∷ rest) before after merged h =
    (merged.metas p ∙ rw h.0 refl, merged-metas topic l rest before after merged h.1)

-- What the cache has of a topic.
abbrev pub Knows : Text → TopicMetadata → MetadataCache → Type 0
Knows t meta cache =
    (known_error t cache ≡ meta.topic_error_code)
    × (known_replicated t cache ≡ all_in_sync meta.partition_metadata)

pub Knows-alike :
    (t : Text) (meta : TopicMetadata) (one other : MetadataCache)
    → AreAlike t one other
    → Knows t meta other
    → Knows t meta one
Knows-alike t meta one other same h = (
  rw same.errors h.0,
  rw same.lists
      (replicated_of_alike t (lookup t other.topic_partitions) one other same.metas ∙ h.1),
)

-- Partitions that were merged into a topic without any, once their list is sorted.
pub sorted-Knows :
    (topic : Text) (meta : TopicMetadata) (l : List (ℤ × PartitionMetadata))
    (start done : MetadataCache)
    → is_nonempty (numbers l) ≡ true
    → IsDict l
    → IsMerged topic l start done
    → listed (lookup topic start.topic_partitions) ≡ []
    → lookup topic start.topic_errors ≡ some meta.topic_error_code
    → (known_error topic (sort_partitions topic done).0 ≡ meta.topic_error_code)
      × (known_replicated topic (sort_partitions topic done).0 ≡ all_in_sync l)
sorted-Knows topic meta l start done some_there distinct merged empty errno = (
  rw (merged.errors, errno) refl,
  rw (lookup-insert topic topic ps done.topic_partitions, (text_beq_iff topic topic).1 refl)
      (replicated_of-some topic ps after ∙ sorted_in_sync),
)
  where
    ps : List ℤ
    ps = sort_into ltb_ℤ [] (listed (lookup topic done.topic_partitions))

    after : MetadataCache
    after = (sort_partitions topic done).0

    list : listed (lookup topic done.topic_partitions) ≡ numbers l
    list = merged.lists ∙ ap (λ qs. qs ++ numbers l) empty

    sorted_in_sync : (is_nonempty ps && all_replicated topic ps after) ≡ all_in_sync l
    sorted_in_sync =
        ap
          (λ qs.
            is_nonempty (sort_into ltb_ℤ [] qs)
            && all_replicated topic (sort_into ltb_ℤ [] qs) after)
          list
        ∙ rw (is_nonempty-sort_into [] (numbers l), some_there)
            (all_replicated-sort_into topic [] (numbers l) after
              ∙ rw
                  (all_replicated-numbers topic l after
                    (merged-metas topic l l start done merged (lookup_self l distinct)))
                  (ground arith))
