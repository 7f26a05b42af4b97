-- ===== src/Protocol/Responses/Metadata.antt =====
-- `KafkaCodec.decode_metadata_response`, on what a broker answers with.
use afkak.Prelude.{◌≡◌, inl, inr, some, List, [], ◌∷◌, ◌++◌, ltb, if◌then◌else◌, Bool-cases, length}
use afkak.Prelude.Int.{ℤ, pos}
use afkak.Result.{Result, ok, err, invalid_message}
use afkak.Wire.Struct.{Bytes, i16, i32, pack}
use afkak.Wire.Reader.{
  Reader, Reads, Reads-bind, Reads-pure, Reads-relative_unpack, relative_unpack, repeat, pure,
  ◌>>=◌,
}
use afkak.Wire.Text.{Text}
use afkak.Wire.Strings.{write_short_ascii, read_short_ascii}
use afkak.Wire.Strings.RoundTrip.{Reads-write_short_ascii}
use afkak.Protocol.Data.{BrokerMetadata, PartitionMetadata, TopicMetadata}
use afkak.Protocol.Grouping.{Dict, text_eq, ℤ_eq}
use afkak.Protocol.Header.{⊕-eq-ok, join_all}
use afkak.Protocol.Topics.{pack_length}
use afkak.Protocol.Arrays.{Reads-last, Reads-relative_unpack_ints, read_all-Reads}
use afkak.Protocol.Requests.{pack_i32}
use afkak.Protocol.Responses.Broker.{
  BrokerFields, PartitionFields, TopicFields, broker_bytes, partition_bytes, topic_bytes,
  metadata_bytes, made_all, made_broker, made_partition, made_topic,
}
use afkak.Protocol.Responses.{
  dict_of, max_brokers, read_broker, read_partition, read_topic_metadata, read_metadata,
  relative_unpack_ints, decode_metadata_response,
}

Reads-repeat_made {ℓ κ} :
    {A : Type ℓ} {B : Type κ} (part : A → Result Bytes) (m : Reader B) (make : A → B)
    → ((x : A) (b : Bytes) → part x ≡ ok b → Reads m b (make x))
    → (xs : List A) (bs : Bytes) → join_all part xs ≡ ok bs
    → Reads (repeat (length xs) m) bs (made_all make xs)
unfolding repeat
Reads-repeat_made part m make each [] bs h =
    let nothing : [] ≡ bs = cc in rw (← nothing) (Reads-pure [])
Reads-repeat_made part m make each (x ∷ xs) bs h =
    let (b, tail, first, others, joined) = ⊕-eq-ok (part x) (join_all part xs) h in
    rw (← joined) (
      Reads-bind m (λ a. repeat (length xs) m >>= λ l. pure (a ∷ l)) b tail (make x) _
        (each x b first)
        (Reads-last (repeat (length xs) m) (λ l. make x ∷ l) tail (made_all make xs)
          (Reads-repeat_made part m make each xs tail others)))

Reads-broker :
    (x : BrokerFields) (bs : Bytes) → broker_bytes x ≡ ok bs → Reads read_broker bs (made_broker x)
Reads-broker (node_id, (host, port)) bs h =
    let (id, r, e1, h1, j1) = ⊕-eq-ok (pack_i32 node_id) _ h in
    let (name, at, e2, e3, j2) = ⊕-eq-ok (write_short_ascii (some host)) (pack_i32 port) h1 in
    let last =
      Reads-last (relative_unpack (i32 ∷ [])) (λ p. made_broker (node_id, (host, p.0))) at _
        (Reads-relative_unpack (i32 ∷ []) _ at e3) in
    rw (← j1, ← j2)
      (Reads-bind (relative_unpack (i32 ∷ [])) _ id (name ++ at) _ _
        (Reads-relative_unpack (i32 ∷ []) _ id e1)
        (Reads-bind read_short_ascii _ name at host _ (Reads-write_short_ascii host name e2) last))

Reads-partition :
    (topic : Text) (x : PartitionFields) (bs : Bytes)
    → partition_bytes x ≡ ok bs
    → Reads (read_partition topic) bs (made_partition topic x)
Reads-partition topic (error, (partition, (leader, (replicas, isr)))) bs h =
    let (head, r1, e1, h1, j1) =
      ⊕-eq-ok
        (pack (i16 ∷ i32 ∷ i32 ∷ i32 ∷ [])
          (error, (partition, (leader, (pos (length replicas), tt)))))
        _ h in
    let (copies, r2, e2, h2, j2) = ⊕-eq-ok (join_all pack_i32 replicas) _ h1 in
    let (count, synced, e3, e4, j3) = ⊕-eq-ok (pack_length isr) (join_all pack_i32 isr) h2 in
    let last =
      Reads-last (relative_unpack_ints (pos (length isr)))
        (λ l. made_partition topic (error, (partition, (leader, (replicas, l))))) synced isr
        (Reads-relative_unpack_ints isr synced e4) in
    rw (← j1, ← j2, ← j3)
      (Reads-bind (relative_unpack (i16 ∷ i32 ∷ i32 ∷ i32 ∷ [])) _ head
        (copies ++ (count ++ synced)) _ _
        (Reads-relative_unpack (i16 ∷ i32 ∷ i32 ∷ i32 ∷ []) _ head e1)
        (Reads-bind (relative_unpack_ints (pos (length replicas))) _ copies (count ++ synced)
          replicas _ (Reads-relative_unpack_ints replicas copies e2)
          (Reads-bind (relative_unpack (i32 ∷ [])) _ count synced _ _
            (Reads-relative_unpack (i32 ∷ []) _ count e3) last)))

Reads-topic :
    (x : TopicFields) (bs : Bytes)
    → topic_bytes x ≡ ok bs
    → Reads read_topic_metadata bs (made_topic x)
Reads-topic (error, (topic, partitions)) bs h =
    let (code, r1, e1, h1, j1) = ⊕-eq-ok (pack (i16 ∷ []) (error, tt)) _ h in
    let (name, r2, e2, h2, j2) = ⊕-eq-ok (write_short_ascii (some topic)) _ h1 in
    let (count, body, e3, e4, j3) =
      ⊕-eq-ok (pack_length partitions) (join_all partition_bytes partitions) h2 in
    let made : List (ℤ × PartitionMetadata) → Text × TopicMetadata = λ l. (
      topic,
      record { topic = topic; topic_error_code = error; partition_metadata = dict_of [] l },
    ) in
    let last = Reads-last (repeat (length partitions) (read_partition topic)) made body _ (
      Reads-repeat_made partition_bytes (read_partition topic) (made_partition topic)
        (Reads-partition topic) partitions body e4) in
    rw (← j1, ← j2, ← j3)
      (Reads-bind (relative_unpack (i16 ∷ [])) _ code (name ++ (count ++ body)) _ _
        (Reads-relative_unpack (i16 ∷ []) _ code e1)
        (Reads-bind read_short_ascii _ name (count ++ body) topic _
          (Reads-write_short_ascii topic name e2)
          (Reads-bind (relative_unpack (i32 ∷ [])) _ count body _ _
            (Reads-relative_unpack (i32 ∷ []) _ count e3) last)))

Reads-metadata :
    (brokers : List BrokerFields) (topics : List TopicFields) (bs : Bytes)
    → metadata_bytes brokers topics ≡ ok bs
    → Reads
        (read_metadata (pos (length brokers)))
        bs
        (dict_of [] (made_all made_broker brokers), dict_of [] (made_all made_topic topics))
Reads-metadata brokers topics bs h =
    let (first, r, e1, h1, j1) = ⊕-eq-ok (join_all broker_bytes brokers) _ h in
    let (count, second, e2, e3, j2) =
      ⊕-eq-ok (pack_length topics) (join_all topic_bytes topics) h1 in
    let made : List (Text × TopicMetadata) → Dict ℤ BrokerMetadata × Dict Text TopicMetadata =
      λ l. (dict_of [] (made_all made_broker brokers), dict_of [] l) in
    let last =
      Reads-last (repeat (length topics) read_topic_metadata) made second _ (
        Reads-repeat_made topic_bytes read_topic_metadata made_topic Reads-topic topics second
          e3) in
    rw (← j1, ← j2)
      (Reads-bind (repeat (length brokers) read_broker) _ first (count ++ second) _ _
        (Reads-repeat_made broker_bytes read_broker made_broker Reads-broker brokers first e1)
        (Reads-bind (relative_unpack (i32 ∷ [])) _ count second _ _
          (Reads-relative_unpack (i32 ∷ []) _ count e2) last))

-- What comes of a response.
abbrev pub decoded_metadata :
    List BrokerFields → List TopicFields → Result (Dict ℤ BrokerMetadata × Dict Text TopicMetadata)
decoded_metadata brokers topics =
    if ltb max_brokers (length brokers)
    then err invalid_message
    else ok (dict_of [] (made_all made_broker brokers), dict_of [] (made_all made_topic topics))

-- A broker's metadata response decodes to the dictionary of its brokers and the dictionary of its
-- topics, each with the dictionary of its partitions, if it has at most 1024 brokers, and raises
-- InvalidMessageError if it has more.
pub decode_metadata_response-metadata :
    (correlation_id : ℤ) (brokers : List BrokerFields) (topics : List TopicFields)
    (head body : Bytes)
    → pack (i32 ∷ i32 ∷ []) (correlation_id, (pos (length brokers), tt)) ≡ ok head
    → metadata_bytes brokers topics ≡ ok body
    → decode_metadata_response (head ++ body) ≡ decoded_metadata brokers topics
unfolding decode_metadata_response
decode_metadata_response-metadata correlation_id brokers topics head body h1 h2 =
    elim (Bool-cases (ltb max_brokers (length brokers))) [
      | inl many ↦
          rw many (rw ((Reads-relative_unpack (i32 ∷ i32 ∷ []) _ head h1).at [] body, many))
      | inr few ↦ rw few (
          read_all-Reads _ (head ++ body) _ (
            Reads-bind (relative_unpack (i32 ∷ i32 ∷ [])) _ head body _ _
              (Reads-relative_unpack (i32 ∷ i32 ∷ []) _ head h1)
              (rw few (Reads-metadata brokers topics body h2))))
    ]
