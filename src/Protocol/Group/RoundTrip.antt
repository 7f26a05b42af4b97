-- ===== src/Protocol/Group/RoundTrip.antt =====
-- What a member encodes for the group is what the leader, or the member, decodes.
use afkak.Prelude.{◌≡◌, ap, ◌∙◌, Option, some, List, [], ◌∷◌, ◌++◌, append_assoc, length}
use afkak.Prelude.Int.{ℤ, pos}
use afkak.Result.{ok}
use afkak.Wire.Struct.{Bytes, i16, i32, pack}
use afkak.Wire.Struct.RoundTrip.{pack-cons}
use afkak.Wire.Reader.{Reads, Reads-bind, Reads-relative_unpack, relative_unpack}
use afkak.Wire.Text.{Text}
use afkak.Wire.Strings.{
  write_int_string, write_short_ascii, write_short_text, read_int_string, read_short_ascii,
  read_short_text,
}
use afkak.Wire.Strings.RoundTrip.{
  Reads-write_int_string, Reads-write_short_ascii, Reads-write_short_text,
}
use afkak.Protocol.Data.{SyncGroupMemberAssignment}
use afkak.Protocol.Grouping.{Dict, text_eq}
use afkak.Protocol.Grouping.Distinct.{IsDict, dict_of_distinct}
use afkak.Protocol.Header.{⊕-eq-ok, join_all}
use afkak.Protocol.Topics.{pack_length}
use afkak.Protocol.Requests.{pack_i32}
use afkak.Protocol.Responses.{relative_unpack_ints, dict_of}
use afkak.Protocol.Arrays.{read_all-Reads, Reads-last, Reads-repeat, Reads-relative_unpack_ints}
use afkak.Protocol.Group.{
  supported_assignment, encode_join_group_protocol_metadata, read_protocol_metadata,
  decode_join_group_protocol_metadata, encode_assigned, read_assigned,
  encode_sync_group_member_assignment, supported_assignment, decode_sync_group_member_assignment,
}

-- The metadata that a member encodes for its request to join decodes to the same version,
-- subscriptions and user data.
pub decode-encode_join_group_protocol_metadata :
    (version : ℤ) (subscriptions : List Text) (user_data : Option Bytes) (bs : Bytes)
    → encode_join_group_protocol_metadata version subscriptions user_data ≡ ok bs
    → decode_join_group_protocol_metadata bs
      ≡ ok (record { version = version; subscriptions = subscriptions; user_data = user_data })
unfolding encode_join_group_protocol_metadata decode_join_group_protocol_metadata
decode-encode_join_group_protocol_metadata version subscriptions user_data bs h =
    let (head, tail, e1, h1, j1) =
      ⊕-eq-ok (pack (i16 ∷ i32 ∷ []) (version, (pos (length subscriptions), tt))) _ h in
    let (texts, user, e2, e3, j2) =
      ⊕-eq-ok (join_all (λ s. write_short_text (some s)) subscriptions) (write_int_string user_data)
        h1 in
    let last =
      Reads-last read_int_string
        (λ u. record { version = version; subscriptions = subscriptions; user_data = u }) user
        user_data (Reads-write_int_string user_data user e3) in
    let listed =
      Reads-repeat (λ s. write_short_text (some s)) read_short_text Reads-write_short_text
        subscriptions texts e2 in
    rw (← j1, ← j2)
      (read_all-Reads read_protocol_metadata (head ++ (texts ++ user)) _ (
        Reads-bind (relative_unpack (i16 ∷ i32 ∷ [])) _ head (texts ++ user) _ _
          (Reads-relative_unpack (i16 ∷ i32 ∷ []) _ head e1)
          (Reads-bind _ _ texts user subscriptions _ listed last)))

Reads-read_assigned :
    (a : Text × List ℤ) (bs : Bytes) → encode_assigned a ≡ ok bs → Reads read_assigned bs a
Reads-read_assigned (topic, partitions) bs h =
    let (name, rest, e1, h1, j1) = ⊕-eq-ok (write_short_ascii (some topic)) _ h in
    let (count, body, e2, e3, j2) =
      ⊕-eq-ok (pack_length partitions) (join_all pack_i32 partitions) h1 in
    let last =
      Reads-last (relative_unpack_ints (pos (length partitions))) (λ ps. (topic, ps)) body
        partitions (Reads-relative_unpack_ints partitions body e3) in
    rw (← j1, ← j2)
      (Reads-bind read_short_ascii _ name (count ++ body) topic _
        (Reads-write_short_ascii topic name e1)
        (Reads-bind (relative_unpack (i32 ∷ [])) _ count body _ _
          (Reads-relative_unpack (i32 ∷ []) _ count e2) last))

-- The assignment that the leader encodes for a member, of version 0 and with no topic twice, decodes
-- to the same topics, partitions and user data.
pub decode-encode_sync_group_member_assignment :
    (assignments : Dict Text (List ℤ)) (user_data : Option Bytes) (bs : Bytes)
    → IsDict assignments
    → encode_sync_group_member_assignment (pos 0) assignments user_data ≡ ok bs
    → decode_sync_group_member_assignment bs
      ≡ ok (record { version = pos 0; assignments = assignments; user_data = user_data })
unfolding encode_sync_group_member_assignment decode_sync_group_member_assignment
decode-encode_sync_group_member_assignment assignments user_data bs distinct h =
    let (version, r1, e1, h1, j1) = ⊕-eq-ok (pack (i16 ∷ []) (pos 0, tt)) _ h in
    let (count, r2, e2, h2, j2) = ⊕-eq-ok (pack_length assignments) _ h1 in
    let (body, user, e3, e4, j3) =
      ⊕-eq-ok (join_all encode_assigned assignments) (write_int_string user_data) h2 in
    let made : Dict Text (List ℤ) → SyncGroupMemberAssignment =
      λ a. record { version = pos 0; assignments = a; user_data = user_data } in
    let last =
      Reads-last read_int_string
        (λ u. record { version = pos 0; assignments = dict_of [] assignments; user_data = u }) user
        user_data (Reads-write_int_string user_data user e4) in
    let rest =
      Reads-bind _ _ body user assignments _
        (Reads-repeat encode_assigned read_assigned Reads-read_assigned assignments body e3) last in
    let head =
      pack-cons i16 (i32 ∷ []) (pos 0) (pos (length assignments), tt) version count e1 e2 in
    let whole =
      Reads-bind (relative_unpack (i16 ∷ i32 ∷ [])) supported_assignment (version ++ count)
        (body ++ user) _ _ (Reads-relative_unpack (i16 ∷ i32 ∷ []) _ (version ++ count) head)
        rest in
    rw (← j1, ← j2, ← j3, ← append_assoc version count (body ++ user))
      (read_all-Reads _ _ _ whole ∙ ap (λ a. ok (made a)) (dict_of_distinct assignments distinct))
