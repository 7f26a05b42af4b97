-- ===== src/MessageSet/Truncated.antt =====
-- Decoding a message set that the broker cut off, as it may at the end of a fetch response.
use afkak.Prelude.{
  split_longer, ℕ, zero, suc, ◌+◌, ◌<◌, ◌≡◌, sym, ap, ◌∙◌, inl, inr, false, List, [], ◌∷◌, ◌++◌,
  append-nil, append_assoc, arith, ltb, ltb→lt, lt→ltb, ltb_false→le, Bool-cases, length, drop, All,
  length-append,
}
use afkak.Prelude.Int.{ℤ, pos}
use afkak.Result.{ok, err, buffer_underflow, fetch_size_too_small}
use afkak.Wire.Struct.{Bytes, i32, i64}
use afkak.Wire.Struct.RoundTrip.{length-pack}
use afkak.Wire.Reader.{Reads-relative_unpack, relative_unpack_short}
use afkak.Wire.Strings.{read_int_string}
use afkak.Generator.{Gen, raises, finished, then_from}
use afkak.MessageSet.{
  Message, OffsetAndMessage, Decompressors, encode_from, read_entry, set_loop,
  decode_message_set_iter,
}
use afkak.MessageSet.Entry.{IsPlain, Entry, encode_from-cons}
use afkak.MessageSet.RoundTrip.{numbered, seen_after, decode-encode_from}

-- A string whose bytes are not all there, behind its whole prefix or a part of that.
read_int_string_short :
    {offset : ℤ} {m : Message} {entry : Bytes} (e : Entry offset m entry)
    → (front part more : Bytes) → e.prefix ++ e.encoded ≡ part ++ more
    → 0 < length more
    → read_int_string (front ++ part) (pos (length front)) ≡ err buffer_underflow
unfolding read_int_string
read_int_string_short e front part more cut left =
    let sized = length-pack (i32 ∷ []) _ e.prefix e.prefix_packed in
    let whole = ap length cut in
    elim (Bool-cases (ltb (length part) 4)) [
      | inl early ↦ rw (
          relative_unpack_short (i32 ∷ []) (front ++ part) (length front)
            (omega (arith, length-append front part, ltb→lt _ _ early)))
      | inr late ↦
          let (start, back) =
            split_longer e.prefix e.encoded part more cut (omega (arith, ltb_false→le _ _ late)) in
          late_cut (drop (length e.prefix) part) start back
    ]
  where
    late_cut :
        (body : Bytes)
        → part ≡ e.prefix ++ body
        → e.encoded ≡ body ++ more
        → read_int_string (front ++ part) (pos (length front)) ≡ err buffer_underflow
    late_cut body start back =
        let short : length (front ++ (e.prefix ++ body))
            < length front + length e.prefix + length e.encoded =
          omega (
            arith,
            length-append front (e.prefix ++ body),
            length-append e.prefix body,
            ap length back,
            length-append body more,
          ) in
        rw (start, (Reads-relative_unpack (i32 ∷ []) _ e.prefix e.prefix_packed).at front body)
          (rw (lt→ltb _ _ short))

-- An entry whose bytes are not all there.
pub read_entry_short :
    {offset : ℤ} {m : Message} {entry : Bytes} (e : Entry offset m entry)
    → (front part more : Bytes) → entry ≡ part ++ more
    → 0 < length more
    → read_entry (front ++ part) (pos (length front)) ≡ err buffer_underflow
unfolding read_entry
read_entry_short e front part more cut left =
    let sized = length-pack (i64 ∷ []) _ e.at_offset e.offset_packed in
    elim (Bool-cases (ltb (length part) 8)) [
      | inl early ↦ rw (
          relative_unpack_short (i64 ∷ []) (front ++ part) (length front)
            (omega (arith, length-append front part, ltb→lt _ _ early)))
      | inr late ↦
          let (start, back) =
            split_longer e.at_offset (e.prefix ++ e.encoded) part more (e.whole ∙ cut)
              (omega (arith, ltb_false→le _ _ late)) in
          late_cut (drop (length e.at_offset) part) start back
    ]
  where
    late_cut :
        (body : Bytes)
        → part ≡ e.at_offset ++ body
        → e.prefix ++ e.encoded ≡ body ++ more
        → read_entry (front ++ part) (pos (length front)) ≡ err buffer_underflow
    late_cut body start back =
        let next = read_int_string_short e (front ++ e.at_offset) body more back left in
        rw (start, (Reads-relative_unpack (i64 ∷ []) _ e.at_offset e.offset_packed).at front body)
          (rw (simp (append_assoc, length-append) at next))

-- What the loop ends with, at a message that is cut off.
abbrev pub cut_off : List Message → Gen OffsetAndMessage
cut_off [] = raises fetch_size_too_small
cut_off (m ∷ ms) = finished

module _ (d : Decompressors) (nested : Bytes → Gen OffsetAndMessage) where
  set_loop_cut :
      (ms : List Message) (k : ℕ) (bs part : Bytes)
      → 0 < length part
      → 0 < k
      → read_entry (bs ++ part) (pos (length bs)) ≡ err buffer_underflow
      → set_loop d nested k (bs ++ part) (pos (length bs)) (seen_after false ms) ≡ cut_off ms
  unfolding set_loop
  set_loop_cut ms zero bs part some_part h short = absurd (omega arith)
  set_loop_cut [] (suc k) bs part some_part h short =
      let inside : length bs < length (bs ++ part) = omega (arith, length-append bs part) in
      rw (lt→ltb _ _ inside, short)
  set_loop_cut (m ∷ ms) (suc k) bs part some_part h short =
      let inside : length bs < length (bs ++ part) = omega (arith, length-append bs part) in
      rw (lt→ltb _ _ inside, short)

module _ (d : Decompressors) (depth : ℕ) where
  -- A set of whole messages, followed by a part of another one that is neither empty nor whole, decodes to the whole
  -- messages: silently, if there is one at least, and with ConsumerFetchSizeTooSmall if there is none.
  pub decode_message_set_iter_truncated :
      (ms : List Message) (m : Message) (offset next : ℤ) (incr step : ℕ) (bs part more : Bytes)
      → All IsPlain ms
      → encode_from offset incr ms ≡ ok bs
      → encode_from next step (m ∷ []) ≡ ok (part ++ more)
      → 0 < length part
      → 0 < length more
      → decode_message_set_iter d (suc depth) (bs ++ part)
        ≡ then_from (numbered offset incr ms) (cut_off ms)
  unfolding set_loop
  decode_message_set_iter_truncated ms m offset next incr step bs part more plain h cut some_part
        left =
      let (k, enough, run) = decode-encode_from d depth ms offset incr bs part plain h in
      let (entry, tail, parts, encoded, joined) =
        encode_from-cons next step m [] (part ++ more) cut in
      let nothing : [] ≡ tail = unfold encode_from in cc encoded in
      let whole : entry ≡ part ++ more = sym (append-nil entry) ∙ rw nothing joined in
      run
      ∙ ap (λ (g : Gen OffsetAndMessage). then_from (numbered offset incr ms) g)
          (set_loop_cut d (decode_message_set_iter d depth) ms k bs part some_part (omega arith)
            (read_entry_short parts bs part more whole left))
