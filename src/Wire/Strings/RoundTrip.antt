-- ===== src/Wire/Strings/RoundTrip.antt =====
-- Each reader of afkak/_util.py takes back what its writer wrote.
use afkak.Prelude.{
  ◌+◌, ◌≤◌, ◌≡◌, ap, Option, none, some, [], ◌∷◌, ◌++◌, append-nil, arith, le→ltb_false, length,
}
use afkak.Prelude.Int.{pos, slice_middle}
use afkak.Result.{Result, ok, >>=-eq-ok}
use afkak.Wire.Struct.{Bytes, Code, i16, i32, pack}
use mathlib.Core.Path.{subst}
use afkak.Wire.Reader
use afkak.Wire.Reader.{
  Reader, Reads, Reads-bind, Reads-relative_unpack, relative_unpack, whole_length,
}
use afkak.Wire.Text.{
  Text, encode_ascii, decode_ascii, encode_utf8, decode_utf8, decode_ascii-encode_ascii,
}
use afkak.Wire.Text.Utf8.{decode_utf8-encode_utf8}
use afkak.Wire.Strings.{
  minus_one, with_length, write_int_string, write_short_bytes, write_short_ascii, write_short_text,
  sliced, read_prefixed, read_short_bytes, read_int_string, decoded, read_short_ascii,
  read_short_text,
}

Reads-sliced : (s : Bytes) → Reads (sliced (pos (length s))) s (some s)
Reads-sliced s = record {
  at = λ front rest.
      let room : length front + length s ≤ length (front ++ (s ++ rest)) =
        omega (arith, whole_length front s rest) in
      rw (le→ltb_false _ _ room, slice_middle front s rest);
}

Reads-null_slice : Reads (sliced minus_one) [] none
Reads-null_slice = record { at = λ front rest. ap (λ n. ok (none, pos n)) (omega arith) }

-- A reader of a prefix of code `c` takes back what was written behind such a prefix.
pub Reads-with_length :
    (c : Code) (s bs : Bytes) → with_length c s ≡ ok bs → Reads (read_prefixed c) bs (some s)
Reads-with_length c s bs h =
    let (prefix, packed, same) =
      >>=-eq-ok (pack (c ∷ []) (pos (length s), tt)) (λ prefix. ok (prefix ++ s)) h in
    let joined : prefix ++ s ≡ bs = cc in
    subst (λ b. Reads (read_prefixed c) b (some s)) joined
      (Reads-bind (relative_unpack (c ∷ [])) (λ v. sliced v.0) prefix s (pos (length s), tt)
        (some s) (Reads-relative_unpack (c ∷ []) _ prefix packed) (Reads-sliced s))

Reads-null :
    (c : Code) (bs : Bytes)
    → pack (c ∷ []) (minus_one, tt) ≡ ok bs
    → Reads (read_prefixed c) bs none
Reads-null c bs h =
    subst (λ b. Reads (read_prefixed c) b none) (append-nil bs)
      (Reads-bind (relative_unpack (c ∷ [])) (λ v. sliced v.0) bs [] (minus_one, tt) none
        (Reads-relative_unpack (c ∷ []) _ bs h) Reads-null_slice)

-- `read_int_string` takes back the bytes, or the null, that `write_int_string` wrote.
pub Reads-write_int_string :
    (s : Option Bytes) (bs : Bytes) → write_int_string s ≡ ok bs → Reads read_int_string bs s
unfolding write_int_string read_int_string
Reads-write_int_string none bs h = Reads-null i32 bs h
Reads-write_int_string (some s) bs h = Reads-with_length i32 s bs h

-- `read_short_bytes` takes back the bytes, or the null, that `write_short_bytes` wrote.
pub Reads-write_short_bytes :
    (s : Option Bytes) (bs : Bytes) → write_short_bytes s ≡ ok bs → Reads read_short_bytes bs s
unfolding write_short_bytes read_short_bytes
Reads-write_short_bytes none bs h = Reads-null i16 bs h
Reads-write_short_bytes (some s) bs h = Reads-with_length i16 s bs (ground arith)

-- A text that was encoded and written is read and decoded again.
Reads-decoded :
    (decode : Bytes → Result Text) (s : Text) (b bs : Bytes)
    → decode b ≡ ok s
    → write_short_bytes (some b) ≡ ok bs
    → Reads (Reader.◌>>=◌ read_short_bytes (decoded decode)) bs s
Reads-decoded decode s b bs back written =
    subst (λ x. Reads (Reader.◌>>=◌ read_short_bytes (decoded decode)) x s) (append-nil bs)
      (Reads-bind read_short_bytes (decoded decode) bs [] (some b) s
        (Reads-write_short_bytes (some b) bs written)
        (record { at = λ front rest. rw back (ap (λ n. ok (s, pos n)) (omega arith)) }))

-- `read_short_ascii` takes back the text that `write_short_ascii` wrote.
pub Reads-write_short_ascii :
    (s : Text) (bs : Bytes) → write_short_ascii (some s) ≡ ok bs → Reads read_short_ascii bs s
unfolding write_short_ascii read_short_ascii
Reads-write_short_ascii s bs h =
    let (b, encoded, written) = >>=-eq-ok (encode_ascii s) (λ b. write_short_bytes (some b)) h in
    Reads-decoded decode_ascii s b bs (decode_ascii-encode_ascii s b encoded) written

-- `read_short_text` takes back the text that `write_short_text` wrote.
pub Reads-write_short_text :
    (s : Text) (bs : Bytes) → write_short_text (some s) ≡ ok bs → Reads read_short_text bs s
unfolding write_short_text read_short_text
Reads-write_short_text s bs h =
    let (b, encoded, written) = >>=-eq-ok (encode_utf8 s) (λ b. write_short_bytes (some b)) h in
    Reads-decoded decode_utf8 s b bs (decode_utf8-encode_utf8 s b encoded) written
