-- ===== src/Assignment/Shares.antt =====
-- What `_ConsumerProtocol._round_robin_assignment` of afkak/_group.py gives the members.
use afkak.Prelude.{
  ◌+◌, ◌*◌, ◌≤◌, ◌<◌, ◌≡◌, refl, ap, ◌∙◌, inl, inr, true, some, List, [], ◌∷◌, ◌++◌, arith,
  if◌then◌else◌, Bool-cases, length, All,
}
use afkak.Prelude.Int.{ℤ}
use afkak.Result.{ok}
use afkak.Wire.Text.{Text}
use afkak.Protocol.Grouping.{Dict, text_eq, text_beq_iff, lookup}
use afkak.Protocol.Grouping.Distinct.{IsDict}
use afkak.Assignment.{
  contains, each_partition, Members, subscribed, text_ltb, pair_ltb, sort_into, topic_pairs,
  Assignment, or_none, append_to, two_rounds, assign_all, keys, of_pairs, of_topics,
  round_robin_assignment,
}
use afkak.Assignment.Sorting.{
  All-sort_into, sum_of, sum_of-sort_into, some_of, some_of-sort_into, one_if, subscribed-IsOnce,
  times,
}
use afkak.Assignment.Members.{
  IsMember, Wants, wanted_by, next_member-Finds, keys-IsMember, lookup-entries, subscribed-wanted,
}
use afkak.Assignment.Counting.{
  count, is_pair, sum_of-topic_pairs, topic_pairs-contains, given_out, given_out-append_to, Only,
  Only-append_to,
}

module _ (members : Members) (ids : List Text) (all : All (IsMember members) ids) where
  -- The loop gives out each pair once, and to a member that wants its topic.
  assign_all_lem :
      (pairs : List (Text × ℤ)) (rest : List Text) (a : Assignment)
      → All (λ (x : Text × ℤ). some_of (wanted_by members x.0) ids ≡ true) pairs
      → All (IsMember members) rest
      → length rest ≤ length ids
      → Only (Wants members) a
      → (result : Assignment) × (assign_all members ids pairs rest a ≡ ok result)
        × ((t : Text) (p : ℤ) → given_out t p result ≡ given_out t p a + sum_of (is_pair t p) pairs)
        × Only (Wants members) result
  unfolding assign_all
  assign_all_lem [] rest a asks known room only = (a, refl, (λ t p. omega arith), only)
  assign_all_lem ((topic, partition) ∷ pairs) rest a asks known room only =
      let (m, others, found, wants_it, known', room') =
        next_member-Finds members ids (two_rounds members ids) topic rest all asks.0 known room
          (omega arith) in
      let (result, run, shared, only') =
        assign_all_lem pairs others (append_to m topic partition a) asks.1 known' room'
          (Only-append_to (Wants members) m topic partition a wants_it only) in
      (
        result,
        rw found run,
        (λ t p. omega (arith, shared t p, given_out-append_to t p m topic partition a)),
        only',
      )

-- What an assignment has to be.
pub record IsShared (members : Members) (topic_partitions : Dict Text (List ℤ))
    (assignment : Assignment) : Type 0 where
  pub shared :
      (topic : Text) (partition : ℤ)
      → given_out topic partition assignment ≡ (
          if contains topic (subscribed [] members)
          then count partition (or_none (lookup topic topic_partitions))
          else 0)
  pub only_wanted : Only (Wants members) assignment

-- The topics of which the partitions are known.
abbrev pub AllKnown : Dict Text (List ℤ) → List Text → Type 0
AllKnown topic_partitions topics =
    All (λ t. (ps : List ℤ) × (lookup t topic_partitions ≡ some ps)) topics

topic_pairs_known :
    (known : Dict Text (List ℤ)) (topics : List Text)
    → AllKnown known topics
    → (pairs : List (Text × ℤ)) × (topic_pairs known topics ≡ some pairs)
topic_pairs_known known [] h = ([], refl)
topic_pairs_known known (t ∷ topics) ((ps, found), others) =
    let (rest, made) = topic_pairs_known known topics others in
    (each_partition t ps ++ rest, rw (found, made))

contains_each :
    (l all : List Text)
    → ((t : Text) → contains t l ≡ true → contains t all ≡ true)
    → All (λ t. contains t all ≡ true) l
contains_each [] all h = tt
contains_each (t ∷ l) all h =
    (h t (rw ((text_beq_iff t t).1 refl)), contains_each l all (λ s q. h s (ground (arith, q))))

All-map {ℓ κ} :
    {A : Type ℓ} (P Q : A → Type κ) (l : List A) → ((x : A) → P x → Q x) → All P l → All Q l
All-map P Q [] f h = tt
All-map P Q (x ∷ l) f h = (f x h.0, All-map P Q l f h.1)

module _ (members : Members) (topic_partitions : Dict Text (List ℤ))
    (distinct : IsDict members) where
  of_pairs_lem :
      (pairs : List (Text × ℤ))
      → topic_pairs topic_partitions (subscribed [] members) ≡ some pairs
      → (assignment : Assignment) × (of_pairs members (subscribed [] members) (some pairs)
          ≡ ok assignment)
        × IsShared members topic_partitions assignment
  of_pairs_lem pairs made =
      let topics = subscribed [] members in
      let ids = sort_into text_ltb [] (keys members) in
      let sorted = sort_into pair_ltb [] pairs in
      let all : All (IsMember members) ids =
        All-sort_into text_ltb (IsMember members) [] (keys members) tt
          (keys-IsMember members members (lookup-entries members distinct)) in
      let listed =
        topic_pairs-contains topic_partitions topics topics pairs
          (contains_each topics topics (λ t h. h)) made in
      let wanted =
        All-map (λ (x : Text × ℤ). contains x.0 topics ≡ true)
          (λ x. some_of (wanted_by members x.0) ids ≡ true) pairs
          (λ x h.
            some_of-sort_into text_ltb (wanted_by members x.0) [] (keys members)
            ∙ subscribed-wanted x.0 members distinct h)
          listed in
      let (assignment, run, shared, only) =
        assign_all_lem members ids all sorted ids []
          (All-sort_into pair_ltb (λ x. some_of (wanted_by members x.0) ids ≡ true) [] pairs tt
            wanted)
          all (omega arith) tt in
      (
        assignment,
        run,
        record {
          shared = λ t p.
              let given = shared t p in
              let same = sum_of-sort_into pair_ltb (is_pair t p) [] pairs in
              let counted = sum_of-topic_pairs topic_partitions t p topics pairs made in
              let once = subscribed-IsOnce [] members (λ s. refl) t in
              share t p assignment given same counted once;
          only_wanted = only;
        },
      )
    where
      share :
          (t : Text) (p : ℤ) (assignment : Assignment)
          → given_out t p assignment ≡ 0 + sum_of (is_pair t p) (sort_into pair_ltb [] pairs)
          → sum_of (is_pair t p) (sort_into pair_ltb [] pairs) ≡ 0 + sum_of (is_pair t p) pairs
          → sum_of (is_pair t p) pairs
            ≡ times t (subscribed [] members) * count p (or_none (lookup t topic_partitions))
          → times t (subscribed [] members) ≡ one_if (contains t (subscribed [] members))
          → given_out t p assignment ≡ (
              if contains t (subscribed [] members)
              then count p (or_none (lookup t topic_partitions))
              else 0)
      share t p assignment given same counted once =
          let total : given_out t p assignment
              ≡ times t (subscribed [] members) * count p (or_none (lookup t topic_partitions)) =
            omega (arith, given, same, counted) in
          elim (Bool-cases (contains t (subscribed [] members))) [
            | inl there ↦ rw there (total ∙ rw (once, there) (omega arith))
            | inr missing ↦ rw missing (total ∙ rw (once, missing) (omega arith))
          ]

  -- If some member has subscribed to some topic, and the partitions of all topics of the members
  -- are known, the search for members ends and there is an assignment; each partition of each
  -- subscribed topic is given out, to all members together, as often as it is listed, others are
  -- not given out, and no member has a topic that it has not subscribed to. No member id stands
  -- twice among the members.
  pub round_robin_assignment_lem :
      0 < length (subscribed [] members)
      → AllKnown topic_partitions (subscribed [] members)
      → (assignment : Assignment) × (round_robin_assignment members topic_partitions
          ≡ ok assignment)
        × IsShared members topic_partitions assignment
  unfolding round_robin_assignment
  round_robin_assignment_lem some_topic known =
      let (pairs, made) = topic_pairs_known topic_partitions (subscribed [] members) known in
      let (assignment, run, is_shared) = of_pairs_lem pairs made in
      (assignment, begin (subscribed [] members) some_topic pairs made ∙ run, is_shared)
    where
      begin :
          (topics : List Text)
          → 0 < length topics
          → (pairs : List (Text × ℤ)) → topic_pairs topic_partitions topics ≡ some pairs
          → of_topics members topic_partitions topics ≡ of_pairs members topics (some pairs)
      begin [] h pairs made = absurd (omega arith)
      begin (t ∷ ts) h pairs made = ap (of_pairs members (t ∷ ts)) made
