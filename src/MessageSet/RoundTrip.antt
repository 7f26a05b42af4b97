-- ===== src/MessageSet/RoundTrip.antt =====
-- Decoding a whole message set that `_encode_message_set` wrote.
use native.Mathlib.Nat.{add_assoc, zero-add}
use afkak.Prelude.{
  ℕ, zero, suc, ◌+◌, ◌-◌, ◌≤◌, ◌<◌, ◌≡◌, refl, ap, ◌∙◌, Bool, true, false, Option, none, some, List,
  [], ◌∷◌, ◌++◌, append-nil, append_assoc, arith, lt→ltb, le→ltb_false, length, All, length-append,
}
use afkak.Prelude.Int.{ℤ, pos, ◌+ℤ◌}
use afkak.Result.{ok}
use afkak.Wire.Struct.{Bytes}
use afkak.Wire.Reader.{whole_length}
use afkak.Generator.{Gen, finished, then_from}
use afkak.MessageSet.{
  Message, OffsetAndMessage, Decompressors, encode_from, encode_message_set, after_message,
  set_loop, decode_message_set_iter,
}
use afkak.MessageSet.Entry.{
  IsPlain, Entry, Reads-read_entry, encode_from-cons, length-Entry, decode_message-encode_message,
}

-- The messages with the offsets that the encoder gives them.
abbrev pub numbered : ℤ → ℕ → List Message → List OffsetAndMessage
numbered offset incr [] = []
numbered offset incr (m ∷ ms) =
    record { offset = offset; message = m } ∷ numbered (offset +ℤ pos incr) incr ms

abbrev pub numbered_from : Option ℤ → List Message → List OffsetAndMessage
numbered_from none ms = numbered (pos 0) 0 ms
numbered_from (some offset) ms = numbered offset 1 ms

abbrev pub seen_after : Bool → List Message → Bool
seen_after seen [] = seen
seen_after seen (m ∷ ms) = true

seen_after-true : (ms : List Message) → seen_after true ms ≡ true
seen_after-true [] = refl
seen_after-true (m ∷ ms) = refl

module _ (d : Decompressors) (nested : Bytes → Gen OffsetAndMessage) where
  -- One round takes one entry.
  set_loop-Entry :
      {offset : ℤ} {m : Message} {entry : Bytes} (e : Entry offset m entry)
      → IsPlain m
      → (fuel : ℕ) (front rest : Bytes) (seen : Bool)
      → set_loop d nested (suc fuel) (front ++ (entry ++ rest)) (pos (length front)) seen
        ≡ then_from (record { offset = offset; message = m } ∷ []) (
            set_loop d nested fuel
              (front ++ (entry ++ rest))
              (pos (length front + length entry))
              true)
  unfolding set_loop
  set_loop-Entry {offset} {m} {entry} e plain fuel front rest seen =
      let inside : length front < length (front ++ (entry ++ rest)) =
        omega (arith, whole_length front entry rest, length-Entry e) in
      let next : ℤ = pos (length front + length entry) in
      rw (lt→ltb _ _ inside, (Reads-read_entry e).at front rest)
        (ap
          (λ g.
            after_message d nested g seen (set_loop d nested fuel (front ++ (entry ++ rest)) next))
          (decode_message-encode_message d nested m offset e.encoded plain e.message_encoded))

  -- The loop takes an encoded set, wherever that stands, and goes on behind it.
  pub set_loop-encode_from :
      (ms : List Message) (offset : ℤ) (incr fuel k : ℕ) (front bs rest : Bytes) (seen : Bool)
      → fuel ≡ length ms + k
      → All IsPlain ms
      → encode_from offset incr ms ≡ ok bs
      → set_loop d nested fuel (front ++ (bs ++ rest)) (pos (length front)) seen
        ≡ then_from (numbered offset incr ms) (
            set_loop d nested k
              (front ++ (bs ++ rest))
              (pos (length front + length bs))
              (seen_after seen ms))
  set_loop-encode_from [] offset incr fuel k front bs rest seen e plain h =
      let nothing : [] ≡ bs = unfold encode_from in cc h in
      let same : fuel ≡ k = omega arith in
      rw (← nothing, same)
        (ap (λ n. set_loop d nested k (front ++ rest) (pos n) seen) (omega arith))
  set_loop-encode_from (m ∷ ms) offset incr zero k front bs rest seen e plain h =
      absurd (omega arith)
  set_loop-encode_from (m ∷ ms) offset incr (suc fuel) k front bs rest seen e plain h =
      let (entry, tail, parts, encoded, joined) = encode_from-cons offset incr m ms bs h in
      let one : List OffsetAndMessage = record { offset = offset; message = m } ∷ [] in
      let first = set_loop-Entry parts plain.0 fuel front (tail ++ rest) seen in
      let others =
        set_loop-encode_from ms (offset +ℤ pos incr) incr fuel k (front ++ entry) tail rest true
          (omega arith) plain.1 encoded in
      let onward = simp (append_assoc, length-append, seen_after-true) at others in
      rw
        (
          ← joined,
          append_assoc entry tail rest,
          length-append entry tail,
          ← add_assoc (length front) (length entry) (length tail),
        )
        (first ∙ ap (λ (g : Gen OffsetAndMessage). then_from one g) onward)

module _ (d : Decompressors) (nested : Bytes → Gen OffsetAndMessage) where
  -- At the end of the buffer the loop is over.
  pub set_loop_end :
      (k : ℕ) (buf : Bytes) (seen : Bool)
      → 0 < k
      → set_loop d nested k buf (pos (length buf)) seen ≡ finished
  unfolding set_loop
  set_loop_end zero buf seen h = absurd (omega arith)
  set_loop_end (suc k) buf seen h = rw (le→ltb_false (length buf) (length buf) (omega arith))

length-le-encode_from :
    (ms : List Message) (offset : ℤ) (incr : ℕ) (bs : Bytes)
    → encode_from offset incr ms ≡ ok bs
    → length ms ≤ length bs
length-le-encode_from [] offset incr bs h = omega arith
length-le-encode_from (m ∷ ms) offset incr bs h =
    let (entry, tail, parts, encoded, joined) = encode_from-cons offset incr m ms bs h in
    omega (
      arith,
      ap length joined,
      length-append entry tail,
      length-Entry parts,
      length-le-encode_from ms (offset +ℤ pos incr) incr tail encoded,
    )

module _ (d : Decompressors) (depth : ℕ) where
  -- What is left for the loop, with fuel, behind an encoded set that something may follow.
  pub decode-encode_from :
      (ms : List Message) (offset : ℤ) (incr : ℕ) (bs rest : Bytes)
      → All IsPlain ms
      → encode_from offset incr ms ≡ ok bs
      → (k : ℕ) × (length rest < k)
        × (decode_message_set_iter d (suc depth) (bs ++ rest)
            ≡ then_from (numbered offset incr ms) (
                set_loop d
                  (decode_message_set_iter d depth)
                  k
                  (bs ++ rest)
                  (pos (length bs))
                  (seen_after false ms)))
  unfolding decode_message_set_iter
  decode-encode_from ms offset incr bs rest plain h =
      let k : ℕ = suc (length (bs ++ rest)) - length ms in
      let short = length-le-encode_from ms offset incr bs h in
      let whole = length-append bs rest in
      (
        k,
        omega arith,
        simp zero-add at (
            set_loop-encode_from d (decode_message_set_iter d depth) ms offset incr
              (suc (length (bs ++ rest))) k [] bs rest false (omega arith) plain h),
      )

  -- A set of uncompressed messages decodes to these messages, each under the offset that it was
  -- encoded with, and the generator ends without an exception.
  pub decode_message_set_iter-encode_message_set :
      (ms : List Message) (start : Option ℤ) (bs : Bytes)
      → All IsPlain ms
      → encode_message_set ms start ≡ ok bs
      → decode_message_set_iter d (suc depth) bs
        ≡ record { yielded = numbered_from start ms; raised = none }
  unfolding encode_message_set
  decode_message_set_iter-encode_message_set ms start bs plain h = by_start start h
    where
      whole :
          (offset : ℤ) (incr : ℕ)
          → encode_from offset incr ms ≡ ok bs
          → decode_message_set_iter d (suc depth) bs
            ≡ record { yielded = numbered offset incr ms; raised = none }
      whole offset incr e =
          let (k, enough, run) = decode-encode_from ms offset incr bs [] plain e in
          simp append-nil at run
          ∙ rw (
            set_loop_end d (decode_message_set_iter d depth) k bs (seen_after false ms)
                (omega arith),
            append-nil,
          )

      by_start :
          (start : Option ℤ)
          → encode_message_set ms start ≡ ok bs
          → decode_message_set_iter d (suc depth) bs
            ≡ record { yielded = numbered_from start ms; raised = none }
      by_start none e = whole (pos 0) 0 e
      by_start (some offset) e = whole offset 1 e
