-- ===== src/MessageSet/Termination.antt =====
-- The decoding loop ends on every input, hostile lengths included.
use afkak.Prelude.{
  ℕ, zero, suc, ◌+◌, ◌<◌, ◌≡◌, refl, ap, ◌∙◌, ◌≢◌, inl, inr, Bool, false, Option, none, some, [],
  ◌∷◌, arith, Bool-cases, Option-cases, length,
}
use afkak.Prelude.Int.{ℤ, pos, ◌+ℤ◌, ltb_ℤ, slice_index}
use afkak.Result.{Error, Result, ok, err, out_of_fuel}
use afkak.Wire.Struct.{Bytes, i32, i64, u8, u32}
use afkak.Wire.Reader.{relative_unpack, relative_unpack_short}
use afkak.Wire.Reader.Progress.{
  length-slice, slice_index_le, relative_unpack_moves, continue-eq-ok, Fueled, Fueled-bind,
  Fueled-relative_unpack,
}
use afkak.Wire.Strings.{sliced, read_int_string}
use afkak.Generator.{Gen}
use afkak.MessageSet.{
  codec_of, after_entry, inner_set, by_codec, decoded_message, fields_of, Message, OffsetAndMessage,
  Decompressors, after_crc, read_fields, read_entry, set_loop, on_error, after_message,
  some_yielded, decode_message, decode_message_set_iter,
}

Fueled-sliced : (n : ℤ) → Fueled (sliced n)
Fueled-sliced n = record { at = λ buf cur. ground arith }

Fueled-read_int_string : Fueled read_int_string
unfolding read_int_string
Fueled-read_int_string =
    Fueled-bind (relative_unpack (i32 ∷ [])) (λ v. sliced v.0) (Fueled-relative_unpack (i32 ∷ []))
      (λ v. Fueled-sliced v.0)

sliced_moves :
    (n : ℤ) (buf : Bytes) (cur next : ℤ) (b : ℕ) (bs : Bytes)
    → sliced n buf cur ≡ ok (some (b ∷ bs), next)
    → slice_index (length buf) cur < slice_index (length buf) next
sliced_moves n buf cur next b bs h = ground (arith, length-slice buf cur (cur +ℤ n))

-- A read entry whose message is not empty lies behind the place where the cursor was.
read_entry_moves :
    (buf : Bytes) (cur next offset : ℤ) (b : ℕ) (bs : Bytes)
    → read_entry buf cur ≡ ok ((offset, some (b ∷ bs)), next)
    → slice_index (length buf) cur < slice_index (length buf) next
unfolding read_entry read_int_string
read_entry_moves buf cur next offset b bs h =
    let (v, c1, e1, h1) = continue-eq-ok (relative_unpack (i64 ∷ []) buf cur) _ buf h in
    let (msg, c3, e2, h2) = continue-eq-ok (read_int_string buf c1) _ buf h1 in
    let (w, c2, e3, h3) =
      continue-eq-ok (relative_unpack (i32 ∷ []) buf c1) (λ w. sliced w.0) buf e2 in
    let got : sliced w.0 buf c2 ≡ ok (some (b ∷ bs), next) = cc in
    omega (
      arith,
      relative_unpack_moves (i64 ∷ []) buf cur e1,
      relative_unpack_moves (i32 ∷ []) buf c1 e3,
      sliced_moves w.0 buf c2 next b bs got,
    )

Fueled-read_entry : Fueled read_entry
unfolding read_entry
Fueled-read_entry =
    Fueled-bind (relative_unpack (i64 ∷ [])) _ (Fueled-relative_unpack (i64 ∷ [])) (λ v.
      Fueled-bind read_int_string _ Fueled-read_int_string
        (λ msg. record { at = λ buf cur. ground arith }))

-- The generator is not stopped for want of fuel.
abbrev pub IsFueled {ℓ} : {Y : Type ℓ} → Gen Y → Type 0
IsFueled g = g.raised ≢ some out_of_fuel

-- The decompressors raise Python exceptions only.
pub record IsPython (d : Decompressors) : Type 0 where
  pub gzip : (value : Option Bytes) → d.gzip_decode value ≢ err out_of_fuel
  pub snappy : (value : Option Bytes) → d.snappy_decode value ≢ err out_of_fuel

Fueled-read_fields : Fueled read_fields
unfolding read_fields
Fueled-read_fields =
    Fueled-bind (relative_unpack (u32 ∷ u8 ∷ u8 ∷ [])) after_crc
      (Fueled-relative_unpack (u32 ∷ u8 ∷ u8 ∷ []))
      (λ v. record { at = λ buf cur. ground (arith, (rest v).at buf cur) })
  where
    rest : (v : ℤ × (ℤ × (ℤ × Unit {0}))) → Fueled (fields_of v)
    rest v = Fueled-bind read_int_string _ Fueled-read_int_string (λ key.
        Fueled-bind read_int_string _ Fueled-read_int_string
          (λ value. record { at = λ buf cur. ground arith }))

module _ (d : Decompressors) (p : IsPython d) (nested : Bytes → Gen OffsetAndMessage)
    (inner : (set : Bytes) → IsFueled (nested set)) where
  inner_set-IsFueled : (r : Result Bytes) → r ≢ err out_of_fuel → IsFueled (inner_set d nested r)
  inner_set-IsFueled (ok set) h = inner set
  inner_set-IsFueled (err e) h = λ q. h (cc)

  by_codec-IsFueled :
      (codec : ℕ) (offset : ℤ) (m : Message) → IsFueled (by_codec d nested codec offset m)
  by_codec-IsFueled codec offset m = ground (
    arith,
    inner_set-IsFueled (d.gzip_decode m.value) (p.gzip m.value),
    inner_set-IsFueled (d.snappy_decode m.value) (p.snappy m.value),
  )

  decoded_message-IsFueled :
      (offset : ℤ) (r : Result (Message × ℤ))
      → r ≢ err out_of_fuel
      → IsFueled (decoded_message d nested offset r)
  decoded_message-IsFueled offset (ok (m, cur)) h =
      by_codec-IsFueled (codec_of m.attributes) offset m
  decoded_message-IsFueled offset (err e) h = λ q. h (cc)

  decode_message-IsFueled :
      (msg : Option Bytes) (offset : ℤ) → IsFueled (decode_message d nested msg offset)
  unfolding decode_message
  decode_message-IsFueled none offset = λ q. cc
  decode_message-IsFueled (some buf) offset =
      decoded_message-IsFueled offset (read_fields buf (pos 0)) (Fueled-read_fields.at buf (pos 0))

  -- A message of no bytes ends the set.
  decode_message-empty :
      (msg : Option Bytes) (offset : ℤ)
      → (decode_message d nested msg offset).raised ≡ none
      → (b : ℕ) × (bs : Bytes) × (msg ≡ some (b ∷ bs))
  unfolding decode_message read_fields
  decode_message-empty none offset h = cc
  decode_message-empty (some []) offset h =
      let short = relative_unpack_short (u32 ∷ u8 ∷ u8 ∷ []) [] 0 (omega arith) in
      absurd (unfold relative_unpack in cc h)
  decode_message-empty (some (b ∷ bs)) offset h = (b, bs, refl)

  on_error-IsFueled :
      (seen : Bool) (e : Error) → e ≢ out_of_fuel → IsFueled (on_error d nested seen e)
  on_error-IsFueled seen e h = ground arith

  after_message-IsFueled :
      (g : Gen OffsetAndMessage) (seen : Bool) (go : Bool → Gen OffsetAndMessage)
      → IsFueled g
      → (g.raised ≡ none → (seen' : Bool) → IsFueled (go seen'))
      → IsFueled (after_message d nested g seen go)
  after_message-IsFueled g seen go h next = elim (Option-cases g.raised) [
    | inl e ↦ rw e (next e (some_yielded d nested seen g.yielded))
    | inr (x, e) ↦
        rw e (on_error-IsFueled (some_yielded d nested seen g.yielded) x (λ q. h (e ∙ ap some q)))
  ]

  after_entry-IsFueled :
      (buf : Bytes) (cur : ℤ) (seen : Bool) (go : ℤ → Bool → Gen OffsetAndMessage)
      → ((next : ℤ) (seen' : Bool)
          → slice_index (length buf) cur < slice_index (length buf) next
          → IsFueled (go next seen'))
      → (r : Result ((ℤ × Option Bytes) × ℤ)) → read_entry buf cur ≡ r
      → IsFueled (after_entry d nested seen go r)
  after_entry-IsFueled buf cur seen go h (err e) read =
      on_error-IsFueled seen e (λ q. Fueled-read_entry.at buf cur (read ∙ ap err q))
  after_entry-IsFueled buf cur seen go h (ok ((offset, msg), next)) read =
      after_message-IsFueled (decode_message d nested msg offset) seen (go next)
        (decode_message-IsFueled msg offset)
        (λ ended seen'.
          let (b, bs, filled) = decode_message-empty msg offset ended in
          h next seen' (read_entry_moves buf cur next offset b bs (rw filled at read)))

  -- With a round for each byte ahead the loop ends by itself.
  set_loop-IsFueled :
      (fuel : ℕ) (buf : Bytes) (cur : ℤ) (seen : Bool)
      → length buf < fuel + slice_index (length buf) cur
      → IsFueled (set_loop d nested fuel buf cur seen)
  unfolding set_loop
  set_loop-IsFueled zero buf cur seen h = absurd (omega (arith, slice_index_le (length buf) cur))
  set_loop-IsFueled (suc fuel) buf cur seen h = elim (Bool-cases (ltb_ℤ cur (pos (length buf)))) [
    | inl more ↦ rw more (
        after_entry-IsFueled buf cur seen (set_loop d nested fuel buf)
          (λ next seen' ahead. set_loop-IsFueled fuel buf next seen' (omega arith))
          (read_entry buf cur) refl)
    | inr done ↦ rw done (λ q. cc)
  ]

-- Decoding ends on every buffer, whatever its lengths and however its sets are nested: no loop goes
-- round more often than its buffer has bytes. The decompressors raise Python exceptions only.
pub decode_message_set_iter_ends :
    (d : Decompressors) (depth : ℕ) (buf : Bytes)
    → IsPython d
    → IsFueled (decode_message_set_iter d depth buf)
unfolding decode_message_set_iter
decode_message_set_iter_ends d zero buf p = λ q. cc
decode_message_set_iter_ends d (suc depth) buf p =
    set_loop-IsFueled d p (decode_message_set_iter d depth)
      (λ set. decode_message_set_iter_ends d depth set p) (suc (length buf)) buf (pos 0) false
      (omega arith)
