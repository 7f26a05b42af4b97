-- ===== src/Protocol/Requests/Envelope.antt =====
-- What a broker reads of every request before it looks at the request's own fields.
use mathlib.Core.Path.{subst}
use afkak.Prelude.{
  ℕ, ◌+◌, ◌≡◌, sym, ap, ◌∙◌, Option, none, some, List, [], ◌∷◌, ◌++◌, append_assoc, arith, length,
  length-append,
}
use afkak.Prelude.Int.{ℤ, pos, slice, slice_middle}
use afkak.Result.{Result, ok}
use afkak.Wire.Struct.{Bytes, i16, i32, pack, encode}
use afkak.Wire.Struct.RoundTrip.{pack_parts, pack_first, pack-cons, length-pack}
use afkak.Wire.Reader
use afkak.Wire.Reader.{Reader, Reads, Reads-bind, Reads-relative_unpack, relative_unpack, pure}
use afkak.Wire.Text.{Text}
use afkak.Wire.Strings.{read_short_bytes, with_length}
use afkak.Wire.Strings.RoundTrip.{Reads-with_length}
use afkak.Protocol.Data.{
  ProduceRequest, FetchRequest, OffsetRequest, OffsetCommitRequest, OffsetFetchRequest,
  JoinGroupRequest, SyncGroupRequest, HeartbeatRequest, LeaveGroupRequest,
}
use afkak.Protocol.Header.{◌⊕◌, ⊕-eq-ok, ApiKey, key_number, encode_message_header}
use afkak.Protocol.Requests.{
  encode_produce_request, encode_fetch_request, encode_offset_request, encode_metadata_request,
  encode_consumermetadata_request, encode_offset_commit_request, encode_offset_fetch_request,
  encode_join_group_request, encode_leave_group_request, encode_heartbeat_request,
  encode_sync_group_request,
}
use afkak.Protocol.Arrays.{Reads-last}

-- A call of one of the encoders, with its own arguments.
pub data Request : Type 0 where
  produce : List ProduceRequest → ℤ → ℤ → Request
  fetch : List FetchRequest → ℤ → ℤ → Request
  offset : List OffsetRequest → Request
  metadata : List Text → Request
  consumermetadata : Text → Request
  offset_commit : Text → ℤ → Option Text → List OffsetCommitRequest → Request
  offset_fetch : Text → List OffsetFetchRequest → Request
  join_group : JoinGroupRequest → Request
  leave_group : LeaveGroupRequest → Request
  heartbeat : HeartbeatRequest → Request
  sync_group : SyncGroupRequest → Request

abbrev pub encode_request : Bytes → ℤ → Request → Result Bytes
encode_request c n (produce payloads acks timeout) =
    encode_produce_request c n payloads acks timeout
encode_request c n (fetch payloads wait least) = encode_fetch_request c n payloads wait least
encode_request c n (offset payloads) = encode_offset_request c n payloads
encode_request c n (metadata topics) = encode_metadata_request c n topics
encode_request c n (consumermetadata group) = encode_consumermetadata_request c n group
encode_request c n (offset_commit group generation consumer payloads) =
    encode_offset_commit_request c n group generation consumer payloads
encode_request c n (offset_fetch group payloads) = encode_offset_fetch_request c n group payloads
encode_request c n (join_group payload) = encode_join_group_request c n payload
encode_request c n (leave_group payload) = encode_leave_group_request c n payload
encode_request c n (heartbeat payload) = encode_heartbeat_request c n payload
encode_request c n (sync_group payload) = encode_sync_group_request c n payload

-- The keys of https://kafka.apache.org/protocol.html#protocol_api_keys, and the versions in use.
abbrev pub api_key : Request → ℕ
api_key (produce _ _ _) = 0
api_key (fetch _ _ _) = 1
api_key (offset _) = 2
api_key (metadata _) = 3
api_key (offset_commit _ _ _ _) = 8
api_key (offset_fetch _ _) = 9
api_key (consumermetadata _) = 10
api_key (join_group _) = 11
api_key (heartbeat _) = 12
api_key (leave_group _) = 13
api_key (sync_group _) = 14

abbrev pub api_version : Request → ℕ
api_version (offset_commit _ _ _ _) = 1
api_version (offset_fetch _ _) = 1
api_version _ = 0

pub record Envelope : Type 0 where
  pub key : ℤ
  pub version : ℤ
  pub correlation_id : ℤ
  pub client_id : Option Bytes

abbrev after_numbers : ℤ × (ℤ × (ℤ × Unit {0})) → Reader Envelope
after_numbers v =
    Reader.◌>>=◌ read_short_bytes
      (λ c. pure (record { key = v.0; version = v.1.0; correlation_id = v.1.1.0; client_id = c }))

abbrev pub read_envelope : Reader Envelope
read_envelope = Reader.◌>>=◌ (relative_unpack (i16 ∷ i16 ∷ i32 ∷ [])) after_numbers

module _ (client_id : Bytes) (correlation_id : ℤ) where
  -- What is claimed of the bytes of a request.
  pub record HasEnvelope (key version : ℕ) (bs : Bytes) : Type 0 where
    pub read :
        read_envelope bs (pos 0)
        ≡ ok (
          record {
            key = pos key;
            version = pos version;
            correlation_id = correlation_id;
            client_id = some client_id;
          },
          pos (10 + length client_id),
        )
    -- where KafkaBootstrapProtocol.request looks for the correlation id
    pub correlation : pack (i32 ∷ []) (correlation_id, tt) ≡ ok (slice bs (pos 4) (pos 8))

  -- The parts of an encoded header, the last of them the client id with its length.
  parts_envelope :
      (key version : ℕ) (k v n named rest : Bytes)
      → pack (i16 ∷ []) (pos key, tt) ≡ ok k
      → pack (i16 ∷ []) (pos version, tt) ≡ ok v
      → pack (i32 ∷ []) (correlation_id, tt) ≡ ok n
      → with_length i16 client_id ≡ ok named
      → length named ≡ 2 + length client_id
      → HasEnvelope key version ((k ++ (v ++ n)) ++ named ++ rest)
  parts_envelope key version k v n named rest pk pv pn written sized =
      let head =
        pack-cons i16 (i16 ∷ i32 ∷ []) _ _ k (v ++ n) pk (pack-cons i16 (i32 ∷ []) _ _ v n pv pn) in
      let client : Reads read_short_bytes named (some client_id) =
        unfold read_short_bytes in Reads-with_length i16 client_id named written in
      let whole =
        Reads-bind (relative_unpack (i16 ∷ i16 ∷ i32 ∷ [])) after_numbers (k ++ (v ++ n)) named _ _
          (Reads-relative_unpack (i16 ∷ i16 ∷ i32 ∷ []) _ (k ++ (v ++ n)) head)
          (Reads-last read_short_bytes _ named (some client_id) client) in
      let two_k = length-pack (i16 ∷ []) _ k pk in
      let two_v = length-pack (i16 ∷ []) _ v pv in
      let four_n = length-pack (i32 ∷ []) _ n pn in
      let front : length (k ++ v) ≡ 4 = omega (arith, length-append k v) in
      let total : 0 + length ((k ++ (v ++ n)) ++ named) ≡ 10 + length client_id =
        omega (
          arith,
          length-append (k ++ (v ++ n)) named,
          length-append k (v ++ n),
          length-append v n,
        ) in
      let middle = slice_middle (k ++ v) n (named ++ rest) in
      let found : slice ((k ++ (v ++ n)) ++ named ++ rest) (pos 4) (pos 8) ≡ n =
        simp append_assoc (simp append_assoc at (rw (front, four_n) at middle)) in
      record { read = rw (← total) (whole.at [] rest); correlation = pn ∙ ap ok (sym found) }

  header_envelope :
      (key : ApiKey) (version : ℕ) (header rest : Bytes)
      → encode_message_header client_id correlation_id key version ≡ ok header
      → HasEnvelope (key_number key) version (header ++ rest)
  unfolding encode_message_header
  header_envelope key version header rest h =
      let (packed, c, e, e', joined) =
        ⊕-eq-ok (pack (i16 ∷ i16 ∷ i32 ∷ i16 ∷ []) _) (ok client_id) h in
      let (k_fits, (r1, p1, j1)) = pack_parts i16 (i16 ∷ i32 ∷ i16 ∷ []) _ _ packed e in
      let (v_fits, (r2, p2, j2)) = pack_parts i16 (i32 ∷ i16 ∷ []) _ _ r1 p1 in
      let (n_fits, (r3, p3, j3)) = pack_parts i32 (i16 ∷ []) _ _ r2 p2 in
      let written : with_length i16 client_id ≡ ok (r3 ++ client_id) = rw p3 in
      let sized : length (r3 ++ client_id) ≡ 2 + length client_id =
        omega (arith, length-append r3 client_id, length-pack (i16 ∷ []) _ r3 p3) in
      let same_id : c ≡ client_id = cc in
      let k = encode i16 (pos (key_number key)) in
      let v = encode i16 (pos version) in
      let n = encode i32 correlation_id in
      let same : (k ++ (v ++ n)) ++ (r3 ++ client_id) ++ rest ≡ header ++ rest =
        rw (← joined, j1, j2, j3, same_id) (simp append_assoc) in
      subst (HasEnvelope (key_number key) version) same (
        parts_envelope (key_number key) version k v n (r3 ++ client_id) rest
          (pack_first i16 _ k_fits) (pack_first i16 _ v_fits) (pack_first i32 _ n_fits) written
          sized)

  -- A message that starts with a header.
  with_header :
      (key : ApiKey) (version : ℕ) (body : Result Bytes) (bs : Bytes)
      → (encode_message_header client_id correlation_id key version ⊕ body) ≡ ok bs
      → HasEnvelope (key_number key) version bs
  with_header key version body bs h =
      let (header, rest, e, e', joined) = ⊕-eq-ok _ body h in
      subst (HasEnvelope (key_number key) version) joined
        (header_envelope key version header rest e)

  -- Every request that is encoded starts with its API key, its version, the correlation id and the
  -- client id, in the layout that brokers read; and bytes 4 to 7 are the packed correlation id.
  pub encode_request_envelope :
      (r : Request) (bs : Bytes)
      → encode_request client_id correlation_id r ≡ ok bs
      → HasEnvelope (api_key r) (api_version r) bs
  unfolding encode_produce_request encode_fetch_request encode_offset_request
      encode_metadata_request encode_consumermetadata_request encode_offset_commit_request
      encode_offset_fetch_request encode_join_group_request encode_leave_group_request
      encode_heartbeat_request encode_sync_group_request
  encode_request_envelope (produce _ _ _) bs h = with_header ApiKey.produce 0 _ bs h
  encode_request_envelope (fetch _ _ _) bs h = with_header ApiKey.fetch 0 _ bs h
  encode_request_envelope (offset _) bs h = with_header ApiKey.offset 0 _ bs h
  encode_request_envelope (metadata _) bs h = with_header ApiKey.metadata 0 _ bs h
  encode_request_envelope (consumermetadata _) bs h = with_header ApiKey.find_coordinator 0 _ bs h
  encode_request_envelope (offset_commit _ _ none _) bs h = cc
  encode_request_envelope (offset_commit _ _ (some _) _) bs h =
      with_header ApiKey.offset_commit 1 _ bs h
  encode_request_envelope (offset_fetch _ _) bs h = with_header ApiKey.offset_fetch 1 _ bs h
  encode_request_envelope (join_group _) bs h = with_header ApiKey.join_group 0 _ bs h
  encode_request_envelope (leave_group _) bs h = with_header ApiKey.leave_group 0 _ bs h
  encode_request_envelope (heartbeat _) bs h = with_header ApiKey.heartbeat 0 _ bs h
  encode_request_envelope (sync_group _) bs h = with_header ApiKey.sync_group 0 _ bs h
