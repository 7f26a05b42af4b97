-- ===== src/Protocol/Responses/RoundTrip.antt =====
-- The generators of afkak/kafkacodec.py that decode responses, on what a broker answers with.
use native.Mathlib.Nat.{zero-add}
use afkak.Prelude.{ℕ, ◌≡◌, Option, none, List, [], ◌∷◌, ◌++◌, append-nil, append_assoc, length}
use afkak.Prelude.Int.{ℤ, pos}
use afkak.Result.{Result, ok}
use afkak.Wire.Struct.{Bytes, i16, i32, i64, pack}
use afkak.Wire.Struct.RoundTrip.{pack-cons}
use afkak.Wire.Reader.{Reader, Reads, Reads-bind, Reads-relative_unpack, relative_unpack}
use afkak.Wire.Text.{Text}
use afkak.Wire.Strings.{write_int_string, write_short_bytes, read_int_string, read_short_bytes}
use afkak.Wire.Strings.RoundTrip.{Reads-write_int_string, Reads-write_short_bytes}
use afkak.MessageSet.{Decompressors}
use afkak.Protocol.Data.{FetchResponse}
use afkak.Protocol.Grouping.{Dict}
use afkak.Protocol.Header.{⊕-eq-ok, join_all}
use afkak.Protocol.Topics.{Run, pack_length, encode_topics, use_read, read_topics, to_gen}
use afkak.Protocol.Topics.RoundTrip.{Yields, Yields-use_read, Yields-read_topics, all_items}
use afkak.Protocol.Arrays.{Reads-last, Reads-repeat}
use afkak.Protocol.Responses.Broker.{
  response, produced, fetched, listed, committed, stored, made_produce, made_commit, made_offset,
  made_stored,
}
use afkak.Protocol.Responses.{
  produce_item, decode_produce_response, set_messages, fetch_item, decode_fetch_response,
  offset_item, decode_offset_response, commit_item, decode_offset_commit_response,
  offset_fetch_item, decode_offset_fetch_response,
}

-- A run over a whole buffer ends without an exception.
to_gen-Yields {ℓ} :
    {Y : Type ℓ} (run : Bytes → ℤ → Run Y) (bs : Bytes) (ys : List Y)
    → Yields run bs ys
    → to_gen (run bs (pos 0)) ≡ record { yielded = ys; raised = none }
to_gen-Yields run bs ys h = rw (simp (append-nil, zero-add) at (h.at [] []))

module _ {ℓ κ} {Y : Type ℓ} {P : Type κ} (part : ℤ × P → Result Bytes) (item : Text → Reader Y)
    (make : Text → ℤ × P → Y)
    (each : (topic : Text) (p : ℤ × P) (b : Bytes)
      → part p ≡ ok b
      → Reads (item topic) b (make topic p)) where
  topics_gen-response :
      (correlation_id : ℤ) (out : Dict Text (Dict ℤ P)) (bs : Bytes)
      → response part correlation_id out ≡ ok bs
      → to_gen
          (use_read (relative_unpack (i32 ∷ i32 ∷ []) bs (pos 0)) (λ v. read_topics item bs v.1.0))
        ≡ record { yielded = all_items make out; raised = none }
  topics_gen-response correlation_id out bs h =
      let (id, r, e1, h1, j1) = ⊕-eq-ok (pack (i32 ∷ []) (correlation_id, tt)) _ h in
      let (count, body, e2, e3, j2) = ⊕-eq-ok (pack_length out) (encode_topics part out) h1 in
      let head = pack-cons i32 (i32 ∷ []) correlation_id (pos (length out), tt) id count e1 e2 in
      let read =
        Yields-use_read (relative_unpack (i32 ∷ i32 ∷ [])) (λ v buf. read_topics item buf v.1.0)
          (id ++ count) body _ _ (Reads-relative_unpack (i32 ∷ i32 ∷ []) _ (id ++ count) head)
          (Yields-read_topics part item make each out body e3) in
      rw (← j1, ← j2, ← append_assoc id count body) (to_gen-Yields _ _ _ read)

  topics_gen_two-response :
      (correlation_id : ℤ) (out : Dict Text (Dict ℤ P)) (bs : Bytes)
      → response part correlation_id out ≡ ok bs
      → to_gen (
          use_read (relative_unpack (i32 ∷ []) bs (pos 0)) λ correlation cur.
            use_read (relative_unpack (i32 ∷ []) bs cur) λ v. read_topics item bs v.0)
        ≡ record { yielded = all_items make out; raised = none }
  topics_gen_two-response correlation_id out bs h =
      let (id, r, e1, h1, j1) = ⊕-eq-ok (pack (i32 ∷ []) (correlation_id, tt)) _ h in
      let (count, body, e2, e3, j2) = ⊕-eq-ok (pack_length out) (encode_topics part out) h1 in
      let counted =
        Yields-use_read (relative_unpack (i32 ∷ [])) (λ v buf. read_topics item buf v.0) count body
          _ _ (Reads-relative_unpack (i32 ∷ []) _ count e2)
          (Yields-read_topics part item make each out body e3) in
      let read =
        Yields-use_read (relative_unpack (i32 ∷ []))
          (λ c buf cur.
            use_read (relative_unpack (i32 ∷ []) buf cur) (λ v. read_topics item buf v.0))
          id (count ++ body) _ _ (Reads-relative_unpack (i32 ∷ []) _ id e1) counted in
      rw (← j1, ← j2) (to_gen-Yields _ _ _ read)

-- Of a broker's answer to a produce request, the generator yields one `ProduceResponse` for each
-- partition of each topic, in order and with the broker's error and offset, and then ends without
-- an exception.
pub decode_produce_response-response :
    (correlation_id : ℤ) (out : Dict Text (Dict ℤ (ℤ × ℤ))) (bs : Bytes)
    → response produced correlation_id out ≡ ok bs
    → decode_produce_response bs ≡ record { yielded = all_items made_produce out; raised = none }
unfolding decode_produce_response
decode_produce_response-response =
    topics_gen-response produced produce_item made_produce λ topic p b h.
      Reads-last (relative_unpack (i32 ∷ i16 ∷ i64 ∷ []))
        (λ v. made_produce topic (v.0, (v.1.0, v.1.1.0))) b _
        (Reads-relative_unpack (i32 ∷ i16 ∷ i64 ∷ []) _ b h)

-- Of a broker's answer to an offset commit request, the generator yields one `OffsetCommitResponse`
-- for each partition of each topic, in order and with the broker's error, and then ends without an
-- exception.
decode_offset_commit_response-response :
    (correlation_id : ℤ) (out : Dict Text (Dict ℤ ℤ)) (bs : Bytes)
    → response committed correlation_id out ≡ ok bs
    → decode_offset_commit_response bs
      ≡ record { yielded = all_items made_commit out; raised = none }
unfolding decode_offset_commit_response
decode_offset_commit_response-response =
    topics_gen_two-response committed commit_item made_commit λ topic p b h.
      Reads-last (relative_unpack (i32 ∷ i16 ∷ [])) (λ v. made_commit topic (v.0, v.1.0)) b _
        (Reads-relative_unpack (i32 ∷ i16 ∷ []) _ b h)

Reads-listed :
    (topic : Text) (p : ℤ × (ℤ × List ℤ)) (b : Bytes)
    → listed p ≡ ok b
    → Reads (offset_item topic) b (made_offset topic p)
Reads-listed topic (partition, (error, offsets)) b h =
    let (head, body, e1, e2, j) =
      ⊕-eq-ok (pack (i32 ∷ i16 ∷ i32 ∷ []) (partition, (error, (pos (length offsets), tt))))
        (join_all (λ o. pack (i64 ∷ []) (o, tt)) offsets) h in
    let one : (o : ℤ) (b' : Bytes) → pack (i64 ∷ []) (o, tt) ≡ ok b' → Reads _ b' o =
      λ o b' written.
        Reads-last (relative_unpack (i64 ∷ [])) (λ v. v.0) b' _
          (Reads-relative_unpack (i64 ∷ []) _ b' written) in
    rw (← j) (
      Reads-bind (relative_unpack (i32 ∷ i16 ∷ i32 ∷ [])) _ head body _ _
        (Reads-relative_unpack (i32 ∷ i16 ∷ i32 ∷ []) _ head e1)
        (Reads-last _ (λ os. made_offset topic (partition, (error, os))) body offsets
          (Reads-repeat (λ o. pack (i64 ∷ []) (o, tt)) _ one offsets body e2)))

-- Of a broker's answer to an offset request, the generator yields one `OffsetResponse` for each
-- partition of each topic, in order and with all of the broker's offsets, and then ends without an
-- exception.
decode_offset_response-response :
    (correlation_id : ℤ) (out : Dict Text (Dict ℤ (ℤ × List ℤ))) (bs : Bytes)
    → response listed correlation_id out ≡ ok bs
    → decode_offset_response bs ≡ record { yielded = all_items made_offset out; raised = none }
unfolding decode_offset_response
decode_offset_response-response = topics_gen-response listed offset_item made_offset Reads-listed

Reads-stored :
    (topic : Text) (p : ℤ × (ℤ × (Option Bytes × ℤ))) (b : Bytes)
    → stored p ≡ ok b
    → Reads (offset_fetch_item topic) b (made_stored topic p)
Reads-stored topic (partition, (offset, (metadata, error))) b h =
    let (head, r, e1, h1, j1) = ⊕-eq-ok (pack (i32 ∷ i64 ∷ []) (partition, (offset, tt))) _ h in
    let (meta, code, e2, e3, j2) =
      ⊕-eq-ok (write_short_bytes metadata) (pack (i16 ∷ []) (error, tt)) h1 in
    let last =
      Reads-last (relative_unpack (i16 ∷ []))
        (λ e. made_stored topic (partition, (offset, (metadata, e.0)))) code _
        (Reads-relative_unpack (i16 ∷ []) _ code e3) in
    rw (← j1, ← j2)
      (Reads-bind (relative_unpack (i32 ∷ i64 ∷ [])) _ head (meta ++ code) _ _
        (Reads-relative_unpack (i32 ∷ i64 ∷ []) _ head e1)
        (Reads-bind read_short_bytes _ meta code metadata _
          (Reads-write_short_bytes metadata meta e2) last))

-- Of a broker's answer to an offset fetch request, the generator yields one `OffsetFetchResponse`
-- for each partition of each topic, in order and with the broker's offset, metadata and error, and
-- then ends without an exception.
pub decode_offset_fetch_response-response :
    (correlation_id : ℤ) (out : Dict Text (Dict ℤ (ℤ × (Option Bytes × ℤ)))) (bs : Bytes)
    → response stored correlation_id out ≡ ok bs
    → decode_offset_fetch_response bs
      ≡ record { yielded = all_items made_stored out; raised = none }
unfolding decode_offset_fetch_response
decode_offset_fetch_response-response =
    topics_gen_two-response stored offset_fetch_item made_stored Reads-stored

module _ (d : Decompressors) (depth : ℕ) where
  abbrev pub made_fetch : Text → ℤ × (ℤ × (ℤ × Option Bytes)) → FetchResponse
  made_fetch topic (partition, (error, (highwater_mark, message_set))) = record {
    topic = topic;
    partition = partition;
    error = error;
    highwater_mark = highwater_mark;
    messages = set_messages d depth message_set;
  }

  Reads-fetched :
      (topic : Text) (p : ℤ × (ℤ × (ℤ × Option Bytes))) (b : Bytes)
      → fetched p ≡ ok b
      → Reads (fetch_item d depth topic) b (made_fetch topic p)
  Reads-fetched topic (partition, (error, (highwater_mark, message_set))) b h =
      let (head, set, e1, e2, j) =
        ⊕-eq-ok (pack (i32 ∷ i16 ∷ i64 ∷ []) (partition, (error, (highwater_mark, tt))))
          (write_int_string message_set) h in
      rw (← j) (
        Reads-bind (relative_unpack (i32 ∷ i16 ∷ i64 ∷ [])) _ head set _ _
          (Reads-relative_unpack (i32 ∷ i16 ∷ i64 ∷ []) _ head e1)
          (Reads-last read_int_string
            (λ s. made_fetch topic (partition, (error, (highwater_mark, s)))) set message_set
            (Reads-write_int_string message_set set e2)))

  -- Of a broker's answer to a fetch request, the generator yields one `FetchResponse` for each
  -- partition of each topic, in order and with the broker's error and high water mark, whose
  -- messages are the decoder of the message set that the broker sent, and then ends without an
  -- exception.
  pub decode_fetch_response-response :
      (correlation_id : ℤ) (out : Dict Text (Dict ℤ (ℤ × (ℤ × Option Bytes)))) (bs : Bytes)
      → response fetched correlation_id out ≡ ok bs
      → decode_fetch_response d depth bs
        ≡ record { yielded = all_items made_fetch out; raised = none }
  unfolding decode_fetch_response
  decode_fetch_response-response =
      topics_gen-response fetched (fetch_item d depth) made_fetch Reads-fetched
