-- ===== src/Tests/Strings.antt =====
-- The theorems on packed numbers and on strings at concrete ones.
use afkak.Prelude.{◌≡◌, refl, some, [], ◌∷◌, arith}
use afkak.Prelude.Int.{pos, negsuc}
use afkak.Result.{ok}
use afkak.Wire.Struct.{i32, pack, be_bytes}
use afkak.Wire.Text.{encode_utf8, encode_char}
use afkak.Wire.Reader.{Reads}
use afkak.Wire.Strings.{write_int_string, write_short_bytes, write_short_text, read_int_string}
use afkak.Wire.Strings.RoundTrip.{Reads-write_int_string}
use afkak.Wire.Strings.Negative.{read_int_string_negative}
use afkak.Tests.{hi}

long_written : write_int_string (some hi) ≡ ok (0 ∷ 0 ∷ 0 ∷ 2 ∷ hi)
unfolding write_int_string pack be_bytes
long_written = refl

Reads-write_int_string_example : Reads read_int_string (0 ∷ 0 ∷ 0 ∷ 2 ∷ hi) (some hi)
Reads-write_int_string_example = Reads-write_int_string (some hi) (0 ∷ 0 ∷ 0 ∷ 2 ∷ hi) long_written

-- "é"
text_written : write_short_text (some (0xe9 ∷ [])) ≡ ok (0 ∷ 2 ∷ 195 ∷ 169 ∷ [])
unfolding write_short_text write_short_bytes encode_utf8 encode_char pack be_bytes
text_written = refl

minus_two : pack (i32 ∷ []) (negsuc 1, tt) ≡ ok (255 ∷ 255 ∷ 255 ∷ 254 ∷ [])
unfolding pack be_bytes
minus_two = refl

read_int_string_negative_example :
    read_int_string (7 ∷ 255 ∷ 255 ∷ 255 ∷ 254 ∷ 8 ∷ []) (pos 1) ≡ ok (some [], pos 3)
read_int_string_negative_example =
    read_int_string_negative 0 (255 ∷ 255 ∷ 255 ∷ 254 ∷ []) (7 ∷ []) (8 ∷ []) minus_two
      (omega arith)
