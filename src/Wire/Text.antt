-- ===== src/Wire/Text.antt =====
-- Python's text codecs `ascii` and `utf-8` in strict mode. A text is its list of code points.
pub mod Utf8
use afkak.Prelude.{
  ℕ, zero, suc, ◌+◌, ◌-◌, ◌*◌, ◌/◌, ◌%◌, ◌≡◌, Bool, true, ◌&&◌, ◌||◌, List, [], ◌∷◌, ◌++◌, arith,
  ltb, leb, if◌then◌else◌,
}
use afkak.Result.{◌>>=◌, Result, ok, err, unicode_error}
use afkak.Wire.Struct.{Bytes}

abbrev pub Text : Type 0
Text = List ℕ

abbrev pub all_ascii : List ℕ → Bool
all_ascii [] = true
all_ascii (c ∷ cs) = ltb c 128 && all_ascii cs

-- s.encode('ascii')
unfoldable pub encode_ascii : Text → Result Bytes
encode_ascii s = if all_ascii s then ok s else err unicode_error

-- b.decode('ascii')
unfoldable pub decode_ascii : Bytes → Result Text
decode_ascii b = if all_ascii b then ok b else err unicode_error

pub decode_ascii-encode_ascii :
    (s : Text) (b : Bytes) → encode_ascii s ≡ ok b → decode_ascii b ≡ ok s
unfolding encode_ascii decode_ascii
decode_ascii-encode_ascii s b h = ground arith

-- The bytes of one code point. A surrogate has none.
unfoldable pub encode_char : ℕ → Result Bytes
encode_char c =
    if ltb c 0x80
    then ok (c ∷ [])
    else if ltb c 0x800
    then ok ((0xc0 + c / 64) ∷ (0x80 + c % 64) ∷ [])
    else if leb 0xd800 c && ltb c 0xe000
    then err unicode_error
    else if ltb c 0x10000
    then ok ((0xe0 + c / 4096) ∷ (0x80 + c / 64 % 64) ∷ (0x80 + c % 64) ∷ [])
    else if ltb c 0x110000
    then ok
        ((0xf0 + c / 262144) ∷ (0x80 + c / 4096 % 64) ∷ (0x80 + c / 64 % 64) ∷ (0x80 + c % 64) ∷ [])
    else err unicode_error

-- s.encode('utf-8')
unfoldable pub encode_utf8 : Text → Result Bytes
unfolding encode_char
encode_utf8 [] = ok []
encode_utf8 (c ∷ cs) = do b ← encode_char c; bs ← encode_utf8 cs; ok (b ++ bs)

-- The code point is whole: it is not overlong, no surrogate, and in range.
abbrev whole_char : ℕ → ℕ → Bool
whole_char least c = leb least c && (ltb c 0xd800 || leb 0xe000 c) && ltb c 0x110000

-- What the first byte `b` of a code point calls for: the rest after one byte, or after a sequence
-- of two, three or four.
pub by_lead : ℕ → Result Text → Result Text → Result Text → Result Text → Result Text
by_lead b one two three four =
    if ltb b 0x80
    then (do cs ← one; ok (b ∷ cs))
    else if ltb b 0xc2
    then err unicode_error
    else if ltb b 0xe0
    then two
    else if ltb b 0xf0
    then three
    else if ltb b 0xf5
    then four
    else err unicode_error

-- `need` continuation bytes are still to come for the code point whose bits so far are `acc`.
unfoldable pub utf8_loop : ℕ → ℕ → ℕ → Bytes → Result Text
utf8_loop zero acc least [] = ok []
utf8_loop (suc need) acc least [] = err unicode_error
utf8_loop zero acc least (b ∷ bs) =
    let one = utf8_loop zero 0 0 bs in
    let two = utf8_loop 1 (b - 0xc0) 0x80 bs in
    let three = utf8_loop 2 (b - 0xe0) 0x800 bs in
    let four = utf8_loop 3 (b - 0xf0) 0x10000 bs in by_lead b one two three four
utf8_loop (suc zero) acc least (b ∷ bs) =
    let c = acc * 64 + (b - 0x80) in
    let rest = utf8_loop zero 0 0 bs in
    if leb 0x80 b && ltb b 0xc0 && whole_char least c
    then (do cs ← rest; ok (c ∷ cs))
    else err unicode_error
utf8_loop (suc (suc need)) acc least (b ∷ bs) =
    let rest = utf8_loop (suc need) (acc * 64 + (b - 0x80)) least bs in
    if leb 0x80 b && ltb b 0xc0 then rest else err unicode_error

-- b.decode('utf-8')
unfoldable pub decode_utf8 : Bytes → Result Text
unfolding utf8_loop
decode_utf8 b = utf8_loop zero 0 0 b
