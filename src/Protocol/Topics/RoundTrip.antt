-- ===== src/Protocol/Topics/RoundTrip.antt =====
-- The generators read the nested arrays that were written.
use native.Mathlib.Nat.{add_assoc}
use afkak.Prelude.{
  ◌+◌, ◌≡◌, ap, some, List, [], ◌∷◌, ◌++◌, append_assoc, arith, length, length-append,
}
use afkak.Prelude.Int.{ℤ, pos}
use afkak.Result.{Result, ok}
use afkak.Wire.Struct.{Bytes, i32}
use afkak.Wire.Reader.{Reader, Reads, Reads-relative_unpack, relative_unpack}
use afkak.Wire.Text.{Text}
use afkak.Wire.Strings.{write_short_ascii, read_short_ascii}
use afkak.Wire.Strings.RoundTrip.{Reads-write_short_ascii}
use afkak.Protocol.Header.{⊕-eq-ok, join_all}
use afkak.Protocol.Grouping.{Dict}
use afkak.Protocol.Topics.{
  pack_length, encode_topic, encode_topics, Run, and_then, yield_read, use_read, loop, read_topic,
  read_topics, rounds,
}

-- The run takes `bs`, whatever stands before and behind, and yields `ys` on the way.
pub record Yields {ℓ} {Y : Type ℓ} (run : Bytes → ℤ → Run Y) (bs : Bytes) (ys : List Y)
    : Type ℓ where
  pub at :
      (front rest : Bytes)
      → run (front ++ (bs ++ rest)) (pos (length front))
        ≡ record { yielded = ys; next = ok (pos (length front + length bs)) }

module _ {ℓ} {Y : Type ℓ} where
  pub Yields-read :
      (m : Reader Y) (bs : Bytes) (y : Y)
      → Reads m bs y
      → Yields (λ buf cur. yield_read (m buf cur)) bs (y ∷ [])
  Yields-read m bs y h = record { at = λ front rest. ap yield_read (h.at front rest) }

  -- A read, and a run behind it.
  pub Yields-use_read {κ} :
      {A : Type κ} (m : Reader A) (run : A → Bytes → ℤ → Run Y) (xs bs : Bytes) (a : A)
      (ys : List Y)
      → Reads m xs a
      → Yields (run a) bs ys
      → Yields (λ buf cur. use_read (m buf cur) (λ a c. run a buf c)) (xs ++ bs) ys
  Yields-use_read m run xs bs a ys hm hr = record {
    at = λ front rest.
        rw (append_assoc xs bs rest, hm.at front (bs ++ rest), length-append xs bs)
          (rw (← add_assoc (length front) (length xs) (length bs))
            (simp (append_assoc, length-append) at (hr.at (front ++ xs) rest)));
  }

  -- One run and then another.
  Yields-and_then :
      (first second : Bytes → ℤ → Run Y) (xs bs : Bytes) (ys zs : List Y)
      → Yields first xs ys
      → Yields second bs zs
      → Yields (λ buf cur. and_then (first buf cur) (second buf)) (xs ++ bs) (ys ++ zs)
  Yields-and_then first second xs bs ys zs hf hs = record {
    at = λ front rest.
        rw
          (
            append_assoc xs bs rest,
            hf.at front (bs ++ rest),
            length-append xs bs,
            ← add_assoc (length front) (length xs) (length bs),
          )
          (let tail = simp (append_assoc, length-append) at (hs.at (front ++ xs) rest) in
            ap (λ (r : Run Y). record { yielded = ys ++ r.yielded; next = r.next }) tail);
  }

  abbrev pub collect {κ} : {A : Type κ} → (A → List Y) → List A → List Y
  collect out [] = []
  collect out (x ∷ xs) = out x ++ collect out xs

  -- A loop over the parts that were written one after the other.
  pub Yields-loop {κ} :
      {A : Type κ} (part : A → Result Bytes) (body : Bytes → ℤ → Run Y) (out : A → List Y)
      → ((x : A) (b : Bytes) → part x ≡ ok b → Yields body b (out x))
      → (xs : List A) (bs : Bytes) → join_all part xs ≡ ok bs
      → Yields (λ buf. loop (length xs) (body buf)) bs (collect out xs)
  unfolding loop
  Yields-loop part body out each [] bs h =
      let nothing : [] ≡ bs = cc in
      rw (← nothing) (record {
        at = λ front rest. ap (λ n. record { yielded = []; next = ok (pos n) }) (omega arith);
      })
  Yields-loop part body out each (x ∷ xs) bs h =
      let (b, tail, first, others, joined) = ⊕-eq-ok (part x) (join_all part xs) h in
      rw (← joined) (
        Yields-and_then body (λ buf. loop (length xs) (body buf)) b tail (out x) (collect out xs)
          (each x b first) (Yields-loop part body out each xs tail others))

module _ {ℓ κ} {Y : Type ℓ} {P : Type κ} (make : Text → ℤ × P → Y) where
  -- What the arrays are read as: an item for each partition of each topic, in order.
  abbrev pub one_item : Text → ℤ × P → List Y
  one_item topic p = make topic p ∷ []

  abbrev pub topic_items : Text × Dict ℤ P → List Y
  topic_items (topic, partitions) = collect (one_item topic) partitions

  abbrev pub all_items : Dict Text (Dict ℤ P) → List Y
  all_items out = collect topic_items out

module _ {ℓ κ} {Y : Type ℓ} {P : Type κ} (part : ℤ × P → Result Bytes) (item : Text → Reader Y)
    (make : Text → ℤ × P → Y)
    (each : (topic : Text) (p : ℤ × P) (b : Bytes)
      → part p ≡ ok b
      → Reads (item topic) b (make topic p)) where
  Yields-read_topic :
      (t : Text × Dict ℤ P) (bs : Bytes)
      → encode_topic part t ≡ ok bs
      → Yields (λ buf. read_topic item buf) bs (topic_items make t)
  Yields-read_topic (topic, partitions) bs h =
      let (name, x, e1, h1, j1) = ⊕-eq-ok (write_short_ascii (some topic)) _ h in
      let (count, body, e2, e3, j2) =
        ⊕-eq-ok (pack_length partitions) (join_all part partitions) h1 in
      let items =
        Yields-loop part (λ buf c. yield_read (item topic buf c)) (one_item make topic)
          (λ p b written. Yields-read (item topic) b (make topic p) (each topic p b written))
          partitions body e3 in
      let counted =
        Yields-use_read (relative_unpack (i32 ∷ []))
          (λ v buf. loop (rounds v.0) (λ c. yield_read (item topic buf c))) count body
          (pos (length partitions), tt) _ (Reads-relative_unpack (i32 ∷ []) _ count e2) items in
      rw (← j1, ← j2)
        (Yields-use_read read_short_ascii
          (λ topic buf cur.
            use_read (relative_unpack (i32 ∷ []) buf cur)
              (λ v c. loop (rounds v.0) (λ c'. yield_read (item topic buf c')) c))
          name (count ++ body) topic _ (Reads-write_short_ascii topic name e1) counted)

  pub Yields-read_topics :
      (out : Dict Text (Dict ℤ P)) (bs : Bytes)
      → encode_topics part out ≡ ok bs
      → Yields (λ buf cur. read_topics item buf (pos (length out)) cur) bs (all_items make out)
  unfolding read_topics
  Yields-read_topics out bs h =
      Yields-loop (encode_topic part) (λ buf. read_topic item buf) (topic_items make)
        Yields-read_topic out bs h
