-- ===== src/Wire/Strings.antt =====
-- afkak/_util.py: the length-prefixed strings, bytes and texts of the protocol.
pub mod RoundTrip
pub mod Negative
use afkak.Prelude.{Option, none, some, [], ◌∷◌, ◌++◌, ltb, if◌then◌else◌, length}
use afkak.Prelude.Int.{ℤ, pos, negsuc, ◌+ℤ◌, ltb_ℤ, eqb_ℤ, slice}
use afkak.Result
use afkak.Result.{Result, ok, err, buffer_underflow, struct_error, attribute_error}
use afkak.Wire.Struct.{Bytes, Code, i16, i32, pack}
use afkak.Wire.Reader
use afkak.Wire.Reader.{Reader, lift, relative_unpack}
use afkak.Wire.Text.{Text, encode_ascii, decode_ascii, encode_utf8, decode_utf8}

-- The `-1` that stands for a null string.
abbrev pub minus_one : ℤ
minus_one = negsuc 0

abbrev pub with_length : Code → Bytes → Result Bytes
with_length c s = Result.◌>>=◌ (pack (c ∷ []) (pos (length s), tt)) (λ prefix. ok (prefix ++ s))

-- `None` is the null string.
unfoldable pub write_int_string : Option Bytes → Result Bytes
write_int_string none = pack (i32 ∷ []) (minus_one, tt)
write_int_string (some s) = with_length i32 s

unfoldable pub write_short_bytes : Option Bytes → Result Bytes
write_short_bytes none = pack (i16 ∷ []) (minus_one, tt)
write_short_bytes (some b) = if ltb 32767 (length b) then err struct_error else with_length i16 b

unfoldable pub write_short_ascii : Option Text → Result Bytes
write_short_ascii none = pack (i16 ∷ []) (minus_one, tt)
write_short_ascii (some s) = Result.◌>>=◌ (encode_ascii s) (λ b. write_short_bytes (some b))

unfoldable pub write_short_text : Option Text → Result Bytes
write_short_text none = pack (i16 ∷ []) (minus_one, tt)
write_short_text (some s) = Result.◌>>=◌ (encode_utf8 s) (λ b. write_short_bytes (some b))

-- What follows a length that was read: `None`, or the slice of that length.
abbrev pub sliced : ℤ → Reader (Option Bytes)
sliced strlen buf cur =
    if eqb_ℤ strlen minus_one
    then ok (none, cur)
    else if ltb_ℤ (pos (length buf)) (cur +ℤ strlen)
    then err buffer_underflow
    else ok (some (slice buf cur (cur +ℤ strlen)), cur +ℤ strlen)

-- Both readers check for the prefix, unpack it and move past it, as `relative_unpack` does.
abbrev pub read_prefixed : Code → Reader (Option Bytes)
read_prefixed c = Reader.◌>>=◌ (relative_unpack (c ∷ [])) (λ v. sliced v.0)

unfoldable pub read_short_bytes : Reader (Option Bytes)
read_short_bytes = read_prefixed i16

unfoldable pub read_int_string : Reader (Option Bytes)
read_int_string = read_prefixed i32

-- `b.decode(…)`: the null string has no such method.
abbrev decoded : (Bytes → Result Text) → Option Bytes → Reader Text
decoded decode none buf cur = err attribute_error
decoded decode (some b) buf cur = lift (decode b) buf cur

unfoldable pub read_short_ascii : Reader Text
unfolding read_short_bytes
read_short_ascii = Reader.◌>>=◌ read_short_bytes (decoded decode_ascii)

unfoldable pub read_short_text : Reader Text
unfolding read_short_bytes
read_short_text = Reader.◌>>=◌ read_short_bytes (decoded decode_utf8)
