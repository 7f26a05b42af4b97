-- ===== src/Assignment.antt =====
-- afkak/_group.py: `_ConsumerProtocol`, the assignment of partitions that the leader of a group makes.
pub mod Sorting
pub mod Members
pub mod Counting
pub mod Shares
use afkak.Prelude.{
  ℕ, zero, suc, ◌*◌, Bool, true, false, ◌&&◌, ◌||◌, Option, none, some, List, [], ◌∷◌, ◌++◌, ltb,
  ◌==◌, if◌then◌else◌, length,
}
use afkak.Prelude.Int.{ℤ, pos, ltb_ℤ}
use afkak.Result.{
  Result, ok, err, assertion_error, key_error, need_topic_partitions, stop_iteration, type_error,
  out_of_fuel, ◌>>=◌,
}
use afkak.Wire.Struct.{Bytes}
use afkak.Wire.Text.{Text}
use afkak.Protocol.Data.{
  JoinGroupRequestProtocol, JoinGroupProtocolMetadata, JoinGroupResponseMember,
  SyncGroupRequestMember,
}
use afkak.Protocol.Grouping.{Dict, text_beq, text_eq, ℤ_eq, lookup, insert}
use afkak.Protocol.Group.{
  encode_join_group_protocol_metadata, decode_join_group_protocol_metadata,
  encode_sync_group_member_assignment, decode_sync_group_member_assignment,
}

-- `topic in topics`
abbrev pub contains : Text → List Text → Bool
contains topic [] = false
contains topic (t ∷ ts) = text_beq t topic || contains topic ts

-- A set of texts is a list without repetition; `update` adds what is not there.
abbrev pub update : List Text → List Text → List Text
update set [] = set
update set (t ∷ ts) = update (if contains t set then set else set ++ t ∷ []) ts

abbrev pub Members : Type 0
Members = Dict Text JoinGroupProtocolMetadata

abbrev pub subscribed : List Text → Members → List Text
subscribed set [] = set
subscribed set ((m, metadata) ∷ members) = subscribed (update set metadata.subscriptions) members

-- Comparison of texts and of pairs of a topic and a partition.
abbrev pub text_ltb : Text → Text → Bool
text_ltb [] [] = false
text_ltb [] (b ∷ t) = true
text_ltb (a ∷ s) [] = false
text_ltb (a ∷ s) (b ∷ t) = ltb a b || (a == b && text_ltb s t)

abbrev pub pair_ltb : Text × ℤ → Text × ℤ → Bool
pair_ltb (s, p) (t, q) = text_ltb s t || (text_beq s t && ltb_ℤ p q)

-- Stable sorting: what is put in goes in front of the first that is greater.
module _ {ℓ} {A : Type ℓ} (less : A → A → Bool) where
  abbrev pub put : A → List A → List A
  put x [] = x ∷ []
  put x (y ∷ ys) = if less x y then x ∷ y ∷ ys else y ∷ put x ys

  abbrev pub sort_into : List A → List A → List A
  sort_into done [] = done
  sort_into done (x ∷ xs) = sort_into (put x done) xs

-- The partitions of each topic of a list, where all are known.
abbrev pub each_partition : Text → List ℤ → List (Text × ℤ)
each_partition topic [] = []
each_partition topic (p ∷ ps) = (topic, p) ∷ each_partition topic ps

abbrev pub with_partitions :
    Text → Option (List ℤ) → Option (List (Text × ℤ)) → Option (List (Text × ℤ))
with_partitions topic (some ps) (some rest) = some (each_partition topic ps ++ rest)
with_partitions topic (some ps) none = none
with_partitions topic none rest = none

abbrev pub topic_pairs : Dict Text (List ℤ) → List Text → Option (List (Text × ℤ))
topic_pairs topic_partitions [] = some []
topic_pairs topic_partitions (topic ∷ topics) =
    with_partitions topic (lookup topic topic_partitions) (topic_pairs topic_partitions topics)

abbrev pub Assignment : Type 0
Assignment = Dict Text (Dict Text (List ℤ))

abbrev pub or_none {ℓ} : {A : Type ℓ} → Option (List A) → List A
or_none none = []
or_none (some l) = l

-- assignment[member_id][topic].append(partition), of nested defaultdicts.
abbrev pub append_to : Text → Text → ℤ → Assignment → Assignment
append_to member_id topic partition assignment =
    let topics = or_none (lookup member_id assignment) in
    insert member_id (insert topic (or_none (lookup topic topics) ++ partition ∷ []) topics)
      assignment

-- next() of a cycle over `ids`, of whose round `rest` is left.
abbrev pub advance {ℓ} : {A : Type ℓ} → List A → List A → Option (A × List A)
advance ids (m ∷ rest) = some (m, rest)
advance [] [] = none
advance (m ∷ rest) [] = some (m, rest)

-- `topic in member_metadata[member_id].subscriptions`
abbrev pub wants : Text → Option JoinGroupProtocolMetadata → Result Bool
wants topic none = err key_error
wants topic (some metadata) = ok (contains topic metadata.subscriptions)

module _ (members : Members) (ids : List Text) where
  abbrev pub unless_wanted :
      Text
      → (List Text → Result (Text × List Text))
      → Option (Text × List Text)
      → Result (Text × List Text)
  unless_wanted topic later none = err stop_iteration
  unless_wanted topic later (some (m, rest)) =
      wants topic (lookup m members) >>= λ found. if found then ok (m, rest) else later rest

  -- The `while` loop, with the call of next() before it.
  unfoldable pub next_member : ℕ → Text → List Text → Result (Text × List Text)
  next_member zero topic rest = err out_of_fuel
  next_member (suc fuel) topic rest =
      unless_wanted topic (next_member fuel topic) (advance ids rest)

  -- Two rounds are enough.
  abbrev pub two_rounds : ℕ
  two_rounds = suc (2 * length ids)

  -- The `for` loop.
  unfoldable pub assign_all : List (Text × ℤ) → List Text → Assignment → Result Assignment
  unfolding next_member
  assign_all [] rest assignment = ok assignment
  assign_all ((topic, partition) ∷ pairs) rest assignment =
      next_member two_rounds topic rest >>= λ r.
      assign_all pairs r.1 (append_to r.0 topic partition assignment)

abbrev pub keys : Members → List Text
keys [] = []
keys ((m, metadata) ∷ members) = m ∷ keys members

abbrev pub of_pairs : Members → List Text → Option (List (Text × ℤ)) → Result Assignment
of_pairs members topics none = err (need_topic_partitions topics)
of_pairs members topics (some pairs) =
    let ids = sort_into text_ltb [] (keys members) in
    assign_all members ids (sort_into pair_ltb [] pairs) ids []

abbrev pub of_topics : Members → Dict Text (List ℤ) → List Text → Result Assignment
of_topics members topic_partitions [] = err assertion_error
of_topics members topic_partitions (t ∷ ts) =
    of_pairs members (t ∷ ts) (topic_pairs topic_partitions (t ∷ ts))

-- _round_robin_assignment
unfoldable pub round_robin_assignment : Members → Dict Text (List ℤ) → Result Assignment
unfolding assign_all
round_robin_assignment members topic_partitions =
    of_topics members topic_partitions (subscribed [] members)

abbrev pub decode_optional : Option Bytes → Result JoinGroupProtocolMetadata
decode_optional none = err type_error
decode_optional (some metadata) = decode_join_group_protocol_metadata metadata

abbrev pub decode_members : Members → List JoinGroupResponseMember → Result Members
decode_members found [] = ok found
decode_members found (member ∷ members) = decode_optional member.member_metadata >>= λ metadata.
    decode_members (insert member.member_id metadata found) members

abbrev pub encode_members :
    Assignment → List JoinGroupResponseMember → Result (List SyncGroupRequestMember)
encode_members assignments [] = ok []
encode_members assignments (member ∷ members) =
    encode_sync_group_member_assignment (pos 0) (or_none (lookup member.member_id assignments))
      (some [])
    >>= λ encoded. encode_members assignments members >>= λ others.
        ok (record { member_id = member.member_id; member_metadata = some encoded } ∷ others)

unfoldable pub generate_assignments :
    List JoinGroupResponseMember → Dict Text (List ℤ) → Result (List SyncGroupRequestMember)
unfolding round_robin_assignment
generate_assignments members topic_partitions = decode_members [] members >>= λ metadata.
    round_robin_assignment metadata topic_partitions >>= λ assignments.
    encode_members assignments members

-- "consumer"
abbrev pub protocol_type : Text
protocol_type = 0x63 ∷ 0x6f ∷ 0x6e ∷ 0x73 ∷ 0x75 ∷ 0x6d ∷ 0x65 ∷ 0x72 ∷ []

abbrev pub join_group_protocols : List Text → Result (List JoinGroupRequestProtocol)
join_group_protocols topics =
    encode_join_group_protocol_metadata (pos 0) topics (some []) >>= λ metadata.
    ok (record { protocol_name = protocol_type; protocol_metadata = some metadata } ∷ [])

abbrev pub decode_assignment : Bytes → Result (Dict Text (List ℤ))
decode_assignment assignment =
    decode_sync_group_member_assignment assignment >>= λ decoded. ok decoded.assignments
