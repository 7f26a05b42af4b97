-- ===== src/Protocol/Responses/Group.antt =====
-- The responses of a group's coordinator, as afkak/kafkacodec.py decodes what a broker answers with.
use afkak.Prelude.{◌≡◌, some, List, [], ◌∷◌, ◌++◌, length}
use afkak.Prelude.Int.{ℤ}
use afkak.Result.{Result, ok}
use afkak.Wire.Struct.{Bytes, i16, i32, pack}
use afkak.Wire.Reader.{Reads, Reads-bind, Reads-relative_unpack, relative_unpack, repeat}
use afkak.Wire.Strings.{
  write_int_string, write_short_text, write_short_ascii, read_int_string, read_short_text,
  read_short_ascii,
}
use afkak.Wire.Strings.RoundTrip.{
  Reads-write_int_string, Reads-write_short_text, Reads-write_short_ascii,
}
use afkak.Protocol.Data.{ConsumerMetadataResponse, JoinGroupResponse, JoinGroupResponseMember}
use afkak.Protocol.Header.{◌⊕◌, ⊕-eq-ok, join_all}
use afkak.Protocol.Topics.{pack_length}
use afkak.Protocol.Arrays.{Reads-last, Reads-repeat, read_all-Reads}
use afkak.Protocol.Requests.{pack_i32}
use afkak.Protocol.Responses.{
  read_member, decode_join_group_response, decode_consumermetadata_response,
}

-- What a broker writes.
abbrev pub member_bytes : JoinGroupResponseMember → Result Bytes
member_bytes member =
    write_short_text (some member.member_id) ⊕ write_int_string member.member_metadata

abbrev pub join_group_bytes : ℤ → JoinGroupResponse → Result Bytes
join_group_bytes correlation_id r =
    pack (i32 ∷ i16 ∷ i32 ∷ []) (correlation_id, (r.error, (r.generation_id, tt)))
    ⊕ write_short_text (some r.group_protocol)
    ⊕ write_short_text (some r.leader_id)
    ⊕ write_short_text (some r.member_id)
    ⊕ pack_length r.members
    ⊕ join_all member_bytes r.members

abbrev pub coordinator_bytes : ℤ → ConsumerMetadataResponse → Result Bytes
coordinator_bytes correlation_id r =
    pack (i32 ∷ i16 ∷ i32 ∷ []) (correlation_id, (r.error, (r.node_id, tt)))
    ⊕ write_short_ascii (some r.host)
    ⊕ pack_i32 r.port

Reads-member :
    (member : JoinGroupResponseMember) (bs : Bytes)
    → member_bytes member ≡ ok bs
    → Reads read_member bs member
Reads-member member bs h =
    let (id, metadata, e1, e2, j) =
      ⊕-eq-ok (write_short_text (some member.member_id)) (write_int_string member.member_metadata)
        h in
    rw (← j) (
      Reads-bind read_short_text _ id metadata member.member_id _
        (Reads-write_short_text member.member_id id e1)
        (Reads-last read_int_string
          (λ m. record { member_id = member.member_id; member_metadata = m }) metadata
          member.member_metadata (Reads-write_int_string member.member_metadata metadata e2)))

-- The coordinator's answer to a request to join decodes to the error, the generation, the protocol,
-- the leader, the member and all members of the group with their metadata, as they were sent.
pub decode_join_group_response-join_group :
    (correlation_id : ℤ) (r : JoinGroupResponse) (bs : Bytes)
    → join_group_bytes correlation_id r ≡ ok bs
    → decode_join_group_response bs ≡ ok r
unfolding decode_join_group_response
decode_join_group_response-join_group correlation_id r bs h =
    let (head, r1, e1, h1, j1) =
      ⊕-eq-ok (pack (i32 ∷ i16 ∷ i32 ∷ []) (correlation_id, (r.error, (r.generation_id, tt)))) _
        h in
    let (protocol, r2, e2, h2, j2) = ⊕-eq-ok (write_short_text (some r.group_protocol)) _ h1 in
    let (leader, r3, e3, h3, j3) = ⊕-eq-ok (write_short_text (some r.leader_id)) _ h2 in
    let (member, r4, e4, h4, j4) = ⊕-eq-ok (write_short_text (some r.member_id)) _ h3 in
    let (count, body, e5, e6, j5) =
      ⊕-eq-ok (pack_length r.members) (join_all member_bytes r.members) h4 in
    let made : List JoinGroupResponseMember → JoinGroupResponse = λ l. record {
      error = r.error;
      generation_id = r.generation_id;
      group_protocol = r.group_protocol;
      leader_id = r.leader_id;
      member_id = r.member_id;
      members = l;
    } in
    let last =
      Reads-last (repeat (length r.members) read_member) made body r.members
        (Reads-repeat member_bytes read_member Reads-member r.members body e6) in
    rw (← j1, ← j2, ← j3, ← j4, ← j5)
      (read_all-Reads _ (head ++ (protocol ++ (leader ++ (member ++ (count ++ body))))) _ (
        Reads-bind (relative_unpack (i32 ∷ i16 ∷ i32 ∷ [])) _ head _ _ _
          (Reads-relative_unpack (i32 ∷ i16 ∷ i32 ∷ []) _ head e1)
          (Reads-bind read_short_text _ protocol _ r.group_protocol _
            (Reads-write_short_text r.group_protocol protocol e2)
            (Reads-bind read_short_text _ leader _ r.leader_id _
              (Reads-write_short_text r.leader_id leader e3)
              (Reads-bind read_short_text _ member _ r.member_id _
                (Reads-write_short_text r.member_id member e4)
                (Reads-bind (relative_unpack (i32 ∷ [])) _ count body _ _
                  (Reads-relative_unpack (i32 ∷ []) _ count e5) last))))))

-- A broker's answer to the question for a group's coordinator decodes to the error, the node, the
-- host and the port that were sent.
pub decode_consumermetadata_response-coordinator :
    (correlation_id : ℤ) (r : ConsumerMetadataResponse) (bs : Bytes)
    → coordinator_bytes correlation_id r ≡ ok bs
    → decode_consumermetadata_response bs ≡ ok r
unfolding decode_consumermetadata_response
decode_consumermetadata_response-coordinator correlation_id r bs h =
    let (head, r1, e1, h1, j1) =
      ⊕-eq-ok (pack (i32 ∷ i16 ∷ i32 ∷ []) (correlation_id, (r.error, (r.node_id, tt)))) _ h in
    let (name, at, e2, e3, j2) = ⊕-eq-ok (write_short_ascii (some r.host)) (pack_i32 r.port) h1 in
    let made : ℤ × Unit {0} → ConsumerMetadataResponse =
      λ p. record { error = r.error; node_id = r.node_id; host = r.host; port = p.0 } in
    let last =
      Reads-last (relative_unpack (i32 ∷ [])) made at _
        (Reads-relative_unpack (i32 ∷ []) _ at e3) in
    rw (← j1, ← j2)
      (read_all-Reads _ (head ++ (name ++ at)) _ (
        Reads-bind (relative_unpack (i32 ∷ i16 ∷ i32 ∷ [])) _ head _ _ _
          (Reads-relative_unpack (i32 ∷ i16 ∷ i32 ∷ []) _ head e1)
          (Reads-bind read_short_ascii _ name at r.host _ (Reads-write_short_ascii r.host name e2)
            last)))
