-- ===== src/Client/Replicated.antt =====
-- What the merge of a topic in afkak/client.py does to the list and the metadata of its partitions.
use afkak.Prelude.{
  ◌≡◌, refl, sym, ap, ◌∙◌, inl, inr, Bool, true, false, ◌&&◌, Option, none, some, List, [], ◌∷◌,
  ◌++◌, append-nil, append_assoc, ◌==◌, Bool-cases, length, All,
}
use afkak.Prelude.Int.{ℤ, eqb_ℤ, eqb_ℤ→eq, eqb_ℤ_refl}
use afkak.Wire.Text.{Text}
use afkak.Protocol.Data.{BrokerMetadata, PartitionMetadata}
use afkak.Protocol.Grouping.{Dict, lookup, lookup-insert, text_eq, text_beq_iff, ℤ_eq}
use afkak.Protocol.Grouping.Distinct.{IsDict}
use afkak.Dictionary.{lookup_new}
use afkak.Producer.Batches.{part_eq, listed}
use afkak.Client.{MetadataCache, list_partition, merge_partition, merge_partitions}
use afkak.Client.View.{and_then-none}
use afkak.Client.Alike.{set_leader-AreAlike}

-- All replicas of a topic's partitions are in sync, by its metadata.
abbrev pub all_in_sync : List (ℤ × PartitionMetadata) → Bool
all_in_sync [] = true
all_in_sync ((p, meta) ∷ l) = length meta.replicas == length meta.isr && all_in_sync l

abbrev pub or_else : Option PartitionMetadata → Option PartitionMetadata → Option PartitionMetadata
or_else none before = before
or_else (some meta) before = some meta

abbrev pub numbers : List (ℤ × PartitionMetadata) → List ℤ
numbers [] = []
numbers ((p, meta) ∷ l) = p ∷ numbers l

-- What the merge of partitions does to the list of its topic, and to their metadata.
pub record IsMerged (topic : Text) (l : List (ℤ × PartitionMetadata)) (before after : MetadataCache)
    : Type 0 where
  pub lists :
      listed (lookup topic after.topic_partitions)
      ≡ listed (lookup topic before.topic_partitions) ++ numbers l
  pub errors : lookup topic after.topic_errors ≡ lookup topic before.topic_errors
  pub metas :
      (q : ℤ)
      → lookup (topic, q) after.partition_meta
        ≡ or_else (lookup q l) (lookup (topic, q) before.partition_meta)

merge_partition-IsMerged :
    (brokers : Dict ℤ BrokerMetadata) (topic : Text) (p : ℤ) (meta : PartitionMetadata)
    (cache : MetadataCache)
    → IsMerged topic ((p, meta) ∷ []) cache (merge_partition brokers topic (p, meta) cache).0
unfolding lookup
merge_partition-IsMerged brokers topic p meta cache =
    let found = list_partition topic p meta cache in
    let same = set_leader-AreAlike brokers (topic, p) meta.leader found topic in
    let l = listed (lookup topic cache.topic_partitions) ++ p ∷ [] in
    record {
      lists =
          ap listed same.lists
          ∙ ap listed (lookup-insert topic topic l cache.topic_partitions)
          ∙ rw ((text_beq_iff topic topic).1 refl) refl;
      errors = same.errors;
      metas = λ q.
          same.metas q
          ∙ lookup-insert (topic, p) (topic, q) meta cache.partition_meta
          ∙ elim (Bool-cases (eqb_ℤ p q)) [
            | inl e ↦ rw ((text_beq_iff topic topic).1 refl, e) refl
            | inr e ↦ rw ((text_beq_iff topic topic).1 refl, e) refl
          ];
    }

pub merge_partitions-IsMerged :
    (brokers : Dict ℤ BrokerMetadata) (topic : Text) (l : List (ℤ × PartitionMetadata))
    (cache : MetadataCache)
    → IsDict l
    → (merge_partitions brokers topic l cache).1 ≡ none
    → IsMerged topic l cache (merge_partitions brokers topic l cache).0
unfolding lookup
merge_partitions-IsMerged brokers topic [] cache distinct h = record {
  lists = sym (append-nil (listed (lookup topic cache.topic_partitions)));
  errors = refl;
  metas = λ q. refl;
}
merge_partitions-IsMerged brokers topic ((p, meta) ∷ l) cache distinct h =
    let one = merge_partition brokers topic (p, meta) cache in
    let parts = and_then-none one (merge_partitions brokers topic l) h in
    let first = merge_partition-IsMerged brokers topic p meta cache in
    let others = merge_partitions-IsMerged brokers topic l one.0 distinct.1 parts.1 in
    rw parts.2 (record {
      lists =
          others.lists
          ∙ ap (λ ps. ps ++ numbers l) first.lists
          ∙ append_assoc (listed (lookup topic cache.topic_partitions)) (p ∷ []) (numbers l);
      errors = others.errors ∙ first.errors;
      metas = λ q.
          others.metas q
          ∙ ap (or_else (lookup q l)) (first.metas q)
          ∙ elim (Bool-cases (eqb_ℤ p q)) [
            | inl e ↦
                let it : p ≡ q = eqb_ℤ→eq p q e in
                let no_more : lookup q l ≡ none = rw (← it) (lookup_new p l distinct.0) in
                rw (e, no_more) refl
            | inr e ↦ rw e refl
          ];
    })

pub lookup_self :
    (l : List (ℤ × PartitionMetadata))
    → IsDict l
    → All (λ (m : ℤ × PartitionMetadata). lookup m.0 l ≡ some m.1) l
unfolding lookup
lookup_self [] distinct = tt
lookup_self ((p, meta) ∷ l) distinct =
    (rw (eqb_ℤ_refl p) refl, kept l distinct.0 (lookup_self l distinct.1))
  where
    kept :
        (rest : List (ℤ × PartitionMetadata))
        → All (λ (m : ℤ × PartitionMetadata). eqb_ℤ p m.0 ≡ false) rest
        → All (λ (m : ℤ × PartitionMetadata). lookup m.0 l ≡ some m.1) rest
        → All (λ (m : ℤ × PartitionMetadata). lookup m.0 ((p, meta) ∷ l) ≡ some m.1) rest
    kept [] apart h = tt
    kept ((q, w) ∷ rest) apart h = (rw apart.0 h.0, kept rest apart.1 h.1)
