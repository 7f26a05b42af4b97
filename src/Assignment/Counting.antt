-- ===== src/Assignment/Counting.antt =====
-- How often the assignment of afkak/_group.py gives a partition out, and to whom.
use afkak.Prelude.{
  ℕ, ◌+◌, ◌*◌, ◌≡◌, refl, inl, inr, true, ◌&&◌, Option, none, some, List, [], ◌∷◌, ◌++◌, arith,
  Bool-cases, All, All-append,
}
use afkak.Prelude.Int.{ℤ, eqb_ℤ}
use afkak.Wire.Text.{Text}
use afkak.Protocol.Grouping.{Dict, text_eq, text_beq, text_beq_iff, lookup, insert, lookup-insert}
use afkak.Assignment.{
  contains, each_partition, with_partitions, topic_pairs, Assignment, or_none, append_to,
}
use afkak.Assignment.Sorting.{sum_of, one_if, times}

-- How often a partition stands in a list.
abbrev pub count : ℤ → List ℤ → ℕ
count p l = sum_of (λ q. one_if (eqb_ℤ q p)) l

count-append : (p : ℤ) (xs ys : List ℤ) → count p (xs ++ ys) ≡ count p xs + count p ys
count-append p [] ys = omega arith
count-append p (x ∷ xs) ys = omega (arith, count-append p xs ys)

abbrev pub is_pair : Text → ℤ → Text × ℤ → ℕ
is_pair t p (s, q) = one_if (text_beq s t && eqb_ℤ q p)

-- How often the pairs of the topics hold one pair.
sum_of-append {ℓ} :
    {A : Type ℓ} (f : A → ℕ) (xs ys : List A) → sum_of f (xs ++ ys) ≡ sum_of f xs + sum_of f ys
sum_of-append f [] ys = omega arith
sum_of-append f (x ∷ xs) ys = omega (arith, sum_of-append f xs ys)

sum_of-each_partition :
    (t : Text) (p : ℤ) (s : Text) (ps : List ℤ)
    → sum_of (is_pair t p) (each_partition s ps) ≡ one_if (text_beq s t) * count p ps
sum_of-each_partition t p s [] = ground arith
sum_of-each_partition t p s (q ∷ ps) = elim (Bool-cases (text_beq s t)) [
  | inl same ↦ rw same (omega (arith, rw same at (sum_of-each_partition t p s ps)))
  | inr other ↦ rw other (omega (arith, rw other at (sum_of-each_partition t p s ps)))
]

with_partitions-eq-some :
    (s : Text) (a : Option (List ℤ)) (b : Option (List (Text × ℤ))) (pairs : List (Text × ℤ))
    → with_partitions s a b ≡ some pairs
    → (ps : List ℤ) × (rest : List (Text × ℤ)) × (a ≡ some ps)
      × (b ≡ some rest)
      × (each_partition s ps ++ rest ≡ pairs)
with_partitions-eq-some s (some ps) (some rest) pairs h = (ps, rest, refl, refl, cc)
with_partitions-eq-some s (some ps) none pairs h = cc
with_partitions-eq-some s none b pairs h = cc

pub sum_of-topic_pairs :
    (known : Dict Text (List ℤ)) (t : Text) (p : ℤ) (topics : List Text) (pairs : List (Text × ℤ))
    → topic_pairs known topics ≡ some pairs
    → sum_of (is_pair t p) pairs ≡ times t topics * count p (or_none (lookup t known))
sum_of-topic_pairs known t p [] pairs h =
    let nothing : [] ≡ pairs = cc in rw (← nothing) (ground arith)
sum_of-topic_pairs known t p (s ∷ topics) pairs h =
    let (ps, rest, found, others, joined) =
      with_partitions-eq-some s (lookup s known) (topic_pairs known topics) pairs h in
    rw
      (
        ← joined,
        sum_of-append (is_pair t p) (each_partition s ps) rest,
        sum_of-each_partition t p s ps,
      )
      (here ps rest found (sum_of-topic_pairs known t p topics rest others))
  where
    here :
        (ps : List ℤ) (rest : List (Text × ℤ))
        → lookup s known ≡ some ps
        → sum_of (is_pair t p) rest ≡ times t topics * count p (or_none (lookup t known))
        → one_if (text_beq s t) * count p ps + sum_of (is_pair t p) rest
          ≡ (one_if (text_beq s t) + times t topics) * count p (or_none (lookup t known))
    here ps rest found tail = elim (Bool-cases (text_beq s t)) [
      | inl same ↦
          let at_s : s ≡ t = (text_beq_iff s t).0 same in
          let at_t : lookup t known ≡ some ps = rw at_s at found in
          rw (same, tail, at_t) (ground arith)
      | inr other ↦ rw (other, tail) (ground arith)
    ]

each_partition-contains :
    (all : List Text) (s : Text) (ps : List ℤ)
    → contains s all ≡ true
    → All (λ (x : Text × ℤ). contains x.0 all ≡ true) (each_partition s ps)
each_partition-contains all s [] h = tt
each_partition-contains all s (p ∷ ps) h = (h, each_partition-contains all s ps h)

-- The topics of the pairs are topics of the list.
pub topic_pairs-contains :
    (known : Dict Text (List ℤ)) (all topics : List Text) (pairs : List (Text × ℤ))
    → All (λ t. contains t all ≡ true) topics
    → topic_pairs known topics ≡ some pairs
    → All (λ (x : Text × ℤ). contains x.0 all ≡ true) pairs
topic_pairs-contains known all [] pairs asks h = let nothing : [] ≡ pairs = cc in rw (← nothing) tt
topic_pairs-contains known all (s ∷ topics) pairs asks h =
    let (ps, rest, found, others, joined) =
      with_partitions-eq-some s (lookup s known) (topic_pairs known topics) pairs h in
    rw (← joined) (
      All-append (λ (x : Text × ℤ). contains x.0 all ≡ true) (each_partition s ps) rest
        (each_partition-contains all s ps asks.0)
        (topic_pairs-contains known all topics rest asks.1 others))

-- How often an assignment gives out a partition of a topic, to all members together.
abbrev pub given_in : Text → ℤ → Dict Text (List ℤ) → ℕ
given_in t p topics = count p (or_none (lookup t topics))

abbrev pub given_out : Text → ℤ → Assignment → ℕ
given_out t p assignment = sum_of (λ (m : Text × Dict Text (List ℤ)). given_in t p m.1) assignment

given_out-insert :
    (t : Text) (p : ℤ) (m : Text) (topics : Dict Text (List ℤ)) (a : Assignment)
    → given_out t p (insert m topics a) + given_in t p (or_none (lookup m a))
      ≡ given_out t p a + given_in t p topics
unfolding insert lookup
given_out-insert t p m topics [] = omega arith
given_out-insert t p m topics ((k, old) ∷ a) = elim (Bool-cases (text_beq k m)) [
  | inl same ↦ rw same (omega arith)
  | inr other ↦ rw other (omega (arith, given_out-insert t p m topics a))
]

given_in-insert :
    (t : Text) (p : ℤ) (s : Text) (q : ℤ) (topics : Dict Text (List ℤ))
    → given_in t p (insert s (or_none (lookup s topics) ++ q ∷ []) topics)
      ≡ given_in t p topics + is_pair t p (s, q)
given_in-insert t p s q topics = elim (Bool-cases (text_beq s t)) [
  | inl same ↦
      let here : s ≡ t = (text_beq_iff s t).0 same in
      rw
        (
          lookup-insert s t (or_none (lookup s topics) ++ q ∷ []) topics,
          same,
          here,
          count-append p (or_none (lookup t topics)) (q ∷ []),
        )
        (omega arith)
  | inr other ↦
      rw (lookup-insert s t (or_none (lookup s topics) ++ q ∷ []) topics, other) (omega arith)
]

-- Appending a partition gives it out once more.
pub given_out-append_to :
    (t : Text) (p : ℤ) (m s : Text) (q : ℤ) (a : Assignment)
    → given_out t p (append_to m s q a) ≡ given_out t p a + is_pair t p (s, q)
given_out-append_to t p m s q a =
    let topics = or_none (lookup m a) in
    let one = given_out-insert t p m (insert s (or_none (lookup s topics) ++ q ∷ []) topics) a in
    let two = given_in-insert t p s q topics in omega (arith, one, two)

-- Every topic that an assignment has for a member is one that `P` holds of, with the member.
abbrev pub Only : (Text → Text → Type 0) → Assignment → Type 0
Only P a = All (λ (m : Text × Dict Text (List ℤ)). All (λ (t : Text × List ℤ). P t.0 m.0) m.1) a

All-insert {ℓ} :
    {A : Type ℓ} (P : Text → A → Type 0) (k : Text) (v : A) (d : Dict Text A)
    → P k v
    → All (λ (x : Text × A). P x.0 x.1) d
    → All (λ (x : Text × A). P x.0 x.1) (insert k v d)
unfolding insert
All-insert P k v [] new h = (new, tt)
All-insert P k v ((j, w) ∷ d) new h = elim (Bool-cases (text_beq j k)) [
  | inl same ↦ let here : j ≡ k = (text_beq_iff j k).0 same in rw (same, here) (new, h.1)
  | inr other ↦ rw other (h.0, All-insert P k v d new h.1)
]

All-lookup {ℓ} :
    {A : Type ℓ} (P : Text → List A → Type 0) (k : Text) (d : Dict Text (List A))
    → P k []
    → All (λ (x : Text × List A). P x.0 x.1) d
    → P k (or_none (lookup k d))
unfolding lookup
All-lookup P k [] empty h = empty
All-lookup P k ((j, w) ∷ d) empty h = elim (Bool-cases (text_beq j k)) [
  | inl same ↦ let here : j ≡ k = (text_beq_iff j k).0 same in rw same (rw here at h.0)
  | inr other ↦ rw other (All-lookup P k d empty h.1)
]

pub Only-append_to :
    (P : Text → Text → Type 0) (m s : Text) (q : ℤ) (a : Assignment)
    → P s m
    → Only P a
    → Only P (append_to m s q a)
Only-append_to P m s q a new h =
    let topics = or_none (lookup m a) in
    let InTopics : Text → Dict Text (List ℤ) → Type 0 =
      λ k d. All (λ (t : Text × List ℤ). P t.0 k) d in
    let known = All-lookup InTopics m a tt h in
    All-insert InTopics m (insert s (or_none (lookup s topics) ++ q ∷ []) topics) a
      (All-insert (λ t l. P t m) s (or_none (lookup s topics) ++ q ∷ []) topics new known) h
