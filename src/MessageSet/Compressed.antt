-- ===== src/MessageSet/Compressed.antt =====
-- What a consumer decodes of the message sets that a producer creates, with each codec.
use mathlib.Core.Path.{subst}
use native.Mathlib.Nat.{zero-add}
use afkak.Prelude.{
  ℕ, suc, ◌-◌, ◌<◌, ◌≡◌, refl, sym, ap, ◌∙◌, inl, inr, Bool, true, false, Option, none, some, List,
  [], ◌∷◌, append-nil, arith, ltb, lt→ltb, Bool-cases, length, All, All-append,
}
use afkak.Prelude.Int.{ℤ, pos, eqb_ℤ}
use afkak.Result.{ok, >>=-eq-ok}
use afkak.Wire.Struct.{Bytes}
use afkak.Generator.{Gen, then_from}
use afkak.MessageSet.{
  Message, OffsetAndMessage, Decompressors, encode_message, encode_from, encode_message_set,
  decode_message, set_loop, read_entry, some_yielded, after_message, decode_message_set_iter,
}
use afkak.MessageSet.Create.{
  Compressors, SendRequest, compressed, create_gzip_message, create_snappy_message, singleton,
  keyed, message_list, create_message_set,
}
use afkak.MessageSet.Entry.{
  IsPlain, Entry, Reads-read_entry, encode_from-cons, length-Entry, read_fields-encode_message,
}
use afkak.MessageSet.RoundTrip.{numbered, set_loop_end, decode_message_set_iter-encode_message_set}

-- Decompressing gives back what was compressed.
pub record IsLossless (c : Compressors) (d : Decompressors) : Type 0 where
  pub gzip : (b : Bytes) → d.gzip_decode (some (c.gzip_encode b)) ≡ ok b
  pub snappy : (b z : Bytes) → c.snappy_encode b ≡ ok z → d.snappy_decode (some z) ≡ ok b

module _ (d : Decompressors) (nested : Bytes → Gen OffsetAndMessage) where
  -- A set of one message, whose decoder yields `ys`.
  set_loop_single :
      {offset : ℤ} {m : Message} {entry : Bytes} (e : Entry offset m entry)
      → (fuel : ℕ) (ys : List OffsetAndMessage)
      → decode_message d nested (some e.encoded) offset ≡ record { yielded = ys; raised = none }
      → set_loop d nested (suc (suc fuel)) entry (pos 0) false
        ≡ record { yielded = ys; raised = none }
  unfolding set_loop
  set_loop_single {offset} {m} {entry} e fuel ys h =
      let inside : 0 < length entry = omega (arith, length-Entry e) in
      let read = simp (append-nil, zero-add) at ((Reads-read_entry e).at [] []) in
      let go : Bool → Gen OffsetAndMessage =
        set_loop d nested (suc fuel) entry (pos (length entry)) in
      let over =
        set_loop_end d nested (suc fuel) entry (some_yielded d nested false ys) (omega arith) in
      begin (lt→ltb _ _ inside) read
      ∙ ap (λ g. after_message d nested g false go) h
      ∙ ap (λ (g : Gen OffsetAndMessage). then_from ys g) over
      ∙ ap (λ l. record { yielded = l; raised = none }) (append-nil ys)
    where
      begin :
          ltb 0 (length entry) ≡ true
          → read_entry entry (pos 0) ≡ ok ((offset, some e.encoded), pos (length entry))
          → set_loop d nested (suc (suc fuel)) entry (pos 0) false
            ≡ after_message d nested
                (decode_message d nested (some e.encoded) offset)
                false
                (set_loop d nested (suc fuel) entry (pos (length entry)))
      begin more read = rw (more, read)

-- The set of one compressed message decodes to the set inside it.
module _ (d : Decompressors) (depth : ℕ) where
  decode_wrapped :
      (m : Message) (bs set : Bytes) (ys : List OffsetAndMessage)
      → ((nested : Bytes → Gen OffsetAndMessage) (encoded : Bytes)
          → encode_message m ≡ ok encoded
          → decode_message d nested (some encoded) (pos 0) ≡ nested set)
      → decode_message_set_iter d depth set ≡ record { yielded = ys; raised = none }
      → encode_message_set (m ∷ []) none ≡ ok bs
      → decode_message_set_iter d (suc depth) bs ≡ record { yielded = ys; raised = none }
  unfolding decode_message_set_iter encode_message_set
  decode_wrapped m bs set ys opens inside h =
      let nested = decode_message_set_iter d depth in
      let (entry, tail, e, encoded, joined) = encode_from-cons (pos 0) 0 m [] bs h in
      let nothing : [] ≡ tail = unfold encode_from in cc encoded in
      let whole : entry ≡ bs = sym (append-nil entry) ∙ rw nothing joined in
      let count : length entry ≡ suc (length entry - 1) = omega (arith, length-Entry e) in
      subst (λ b. decode_message_set_iter d (suc depth) b ≡ record { yielded = ys; raised = none })
        whole
        (ap (λ n. set_loop d nested (suc n) entry (pos 0) false) count
          ∙ set_loop_single d nested e (length entry - 1) ys
              (opens nested e.encoded e.message_encoded ∙ inside))

All-keyed : (key : Option Bytes) (ms : List (Option Bytes)) → All IsPlain (keyed key ms)
All-keyed key [] = tt
All-keyed key (m ∷ ms) = (refl, All-keyed key ms)

All-message_list : (rs : List SendRequest) → All IsPlain (message_list rs)
All-message_list [] = tt
All-message_list (r ∷ rs) =
    All-append IsPlain (keyed r.key r.messages) (message_list rs) (All-keyed r.key r.messages)
      (All-message_list rs)

module _ (c : Compressors) (d : Decompressors) (lossless : IsLossless c d) where
  -- A compressed message opens as the set that was compressed.
  opens_gzip :
      (set : Bytes) (nested : Bytes → Gen OffsetAndMessage) (encoded : Bytes)
      → encode_message (compressed 1 (c.gzip_encode set)) ≡ ok encoded
      → decode_message d nested (some encoded) (pos 0) ≡ nested set
  unfolding decode_message
  opens_gzip set nested encoded h = rw (read_fields-encode_message _ encoded h, lossless.gzip set)

  opens_snappy :
      (set snapped : Bytes)
      → c.snappy_encode set ≡ ok snapped
      → (nested : Bytes → Gen OffsetAndMessage) (encoded : Bytes)
      → encode_message (compressed 2 snapped) ≡ ok encoded
      → decode_message d nested (some encoded) (pos 0) ≡ nested set
  unfolding decode_message
  opens_snappy set snapped z nested encoded h =
      rw (read_fields-encode_message _ encoded h, lossless.snappy set snapped z)

  module _ (depth : ℕ) (requests : List SendRequest) where
    -- What is to be yielded.
    abbrev requested : Gen OffsetAndMessage
    requested = record { yielded = numbered (pos 0) 0 (message_list requests); raised = none }

    requested_set :
        (k : ℕ) (set : Bytes)
        → encode_message_set (message_list requests) none ≡ ok set
        → decode_message_set_iter d (suc k) set ≡ requested
    requested_set k set h =
        decode_message_set_iter-encode_message_set d k (message_list requests) none set
          (All-message_list requests) h

    module _ (set : List Message) (bs : Bytes) (h : encode_message_set set none ≡ ok bs) where
      decode_plain :
          ok (message_list requests) ≡ ok set
          → decode_message_set_iter d (suc (suc depth)) bs ≡ requested
      decode_plain made =
          let same : set ≡ message_list requests = cc in requested_set (suc depth) bs (rw same at h)

      decode_gzip :
          singleton (create_gzip_message c (message_list requests)) ≡ ok set
          → decode_message_set_iter d (suc (suc depth)) bs ≡ requested
      unfolding create_gzip_message
      decode_gzip made =
          let (m, e, e') = >>=-eq-ok (create_gzip_message c (message_list requests)) _ made in
          let (inner, f, f') = >>=-eq-ok (encode_message_set (message_list requests) none) _ e in
          let same : set ≡ compressed 1 (c.gzip_encode inner) ∷ [] = cc in
          decode_wrapped d (suc depth) (compressed 1 (c.gzip_encode inner)) bs inner
            requested.yielded (opens_gzip inner) (requested_set depth inner f) (rw same at h)

      decode_snappy :
          singleton (create_snappy_message c (message_list requests)) ≡ ok set
          → decode_message_set_iter d (suc (suc depth)) bs ≡ requested
      unfolding create_snappy_message
      decode_snappy made =
          let (m, e, e') = >>=-eq-ok (create_snappy_message c (message_list requests)) _ made in
          let (inner, f, f') = >>=-eq-ok (encode_message_set (message_list requests) none) _ e in
          let (snapped, g, g') = >>=-eq-ok (c.snappy_encode inner) _ f' in
          let same : set ≡ compressed 2 snapped ∷ [] = cc in
          decode_wrapped d (suc depth) (compressed 2 snapped) bs inner requested.yielded
            (opens_snappy inner snapped g) (requested_set depth inner f) (rw same at h)

  -- Whatever the codec, the set that `create_message_set` makes of some requests decodes to their
  -- messages in order, each with its request's key and offset 0, and without an exception, if the
  -- decompressors undo the compressors and two sets may be nested.
  pub decode-create_message_set :
      (depth : ℕ) (requests : List SendRequest) (codec : ℤ) (set : List Message) (bs : Bytes)
      → create_message_set c requests codec ≡ ok set
      → encode_message_set set none ≡ ok bs
      → decode_message_set_iter d (suc (suc depth)) bs
        ≡ record { yielded = numbered (pos 0) 0 (message_list requests); raised = none }
  unfolding create_message_set
  decode-create_message_set depth requests codec set bs made h =
      elim (Bool-cases (eqb_ℤ codec (pos 0))) [
        | inl plain ↦ decode_plain depth requests set bs h (rw plain at made)
        | inr e0 ↦ elim (Bool-cases (eqb_ℤ codec (pos 1))) [
          | inl zipped ↦ decode_gzip depth requests set bs h (rw (e0, zipped) at made)
          | inr e1 ↦ elim (Bool-cases (eqb_ℤ codec (pos 2))) [
            | inl snapped ↦ decode_snappy depth requests set bs h (rw (e0, e1, snapped) at made)
            | inr e2 ↦ (let no : ⊥ = cc (rw (e0, e1, e2) at made) in absurd no)
          ]
        ]
      ]
