-- ===== src/Wire/Text/Utf8.antt =====
-- Decoding UTF-8 undoes encoding it.
use afkak.Prelude.{
  ℕ, zero, suc, ◌+◌, ◌-◌, ◌*◌, ◌/◌, ◌%◌, ◌≤◌, ◌<◌, ◌≡◌, ap, ◌∙◌, ◌⊎◌, [], ◌∷◌, ◌++◌, arith,
}
use afkak.Result.{Result, ok, ◌>>=◌, >>=-eq-ok}
use afkak.Wire.Struct.{Bytes}
use afkak.Wire.Text.{Text, encode_char, encode_utf8, utf8_loop, by_lead, decode_utf8}

-- One continuation byte that holds the six bits `r`: the last of its code point, or one before.
last_byte :
    (acc least r c : ℕ) (bs : Bytes) (cs : Text)
    → acc * 64 + r ≡ c
    → r < 64
    → least ≤ c
    → (c < 0xd800) ⊎ (0xe000 ≤ c)
    → c < 0x110000
    → utf8_loop zero 0 0 bs ≡ ok cs
    → utf8_loop (suc zero) acc least ((0x80 + r) ∷ bs) ≡ ok (c ∷ cs)
unfolding utf8_loop
last_byte acc least r c bs cs e hr low gap high rest = ground arith

inner_byte :
    (need acc least r : ℕ) (bs : Bytes)
    → r < 64
    → utf8_loop (suc (suc need)) acc least ((0x80 + r) ∷ bs)
      ≡ utf8_loop (suc need) (acc * 64 + r) least bs
unfolding utf8_loop
inner_byte need acc least r bs hr = ground arith

-- The first byte of a code point of two, three or four bytes.
module _ (x : ℕ) (one two three four : Result Text) where
  by_lead_two : 2 ≤ x → x < 32 → by_lead (0xc0 + x) one two three four ≡ two
  unfolding by_lead
  by_lead_two lo hi = ground arith

  by_lead_three : x < 16 → by_lead (0xe0 + x) one two three four ≡ three
  unfolding by_lead
  by_lead_three hi = ground arith

  by_lead_four : x < 5 → by_lead (0xf0 + x) one two three four ≡ four
  unfolding by_lead
  by_lead_four hi = ground arith

minus_lead : (a x : ℕ) → a + x - a ≡ x
minus_lead a x = omega arith

lead_two :
    (x : ℕ) (bs : Bytes)
    → 2 ≤ x
    → x < 32
    → utf8_loop zero 0 0 ((0xc0 + x) ∷ bs) ≡ utf8_loop 1 x 0x80 bs
unfolding utf8_loop
lead_two x bs lo hi =
    by_lead_two x _ _ _ _ lo hi ∙ ap (λ y. utf8_loop 1 y 0x80 bs) (minus_lead 0xc0 x)

lead_three :
    (x : ℕ) (bs : Bytes) → x < 16 → utf8_loop zero 0 0 ((0xe0 + x) ∷ bs) ≡ utf8_loop 2 x 0x800 bs
unfolding utf8_loop
lead_three x bs hi =
    by_lead_three x _ _ _ _ hi ∙ ap (λ y. utf8_loop 2 y 0x800 bs) (minus_lead 0xe0 x)

lead_four :
    (x : ℕ) (bs : Bytes) → x < 5 → utf8_loop zero 0 0 ((0xf0 + x) ∷ bs) ≡ utf8_loop 3 x 0x10000 bs
unfolding utf8_loop
lead_four x bs hi =
    by_lead_four x _ _ _ _ hi ∙ ap (λ y. utf8_loop 3 y 0x10000 bs) (minus_lead 0xf0 x)

module _ (c : ℕ) (bs : Bytes) (cs : Text) (rest : utf8_loop zero 0 0 bs ≡ ok cs) where
  one_byte : c < 0x80 → utf8_loop zero 0 0 (c ∷ bs) ≡ ok (c ∷ cs)
  unfolding utf8_loop by_lead
  one_byte h = ground arith

  two_bytes :
      0x80 ≤ c
      → c < 0x800
      → utf8_loop zero 0 0 ((0xc0 + c / 64) ∷ (0x80 + c % 64) ∷ bs) ≡ ok (c ∷ cs)
  two_bytes lo hi =
      lead_two (c / 64) _ (omega arith) (omega arith)
      ∙ last_byte (c / 64) 0x80 (c % 64) c bs cs (omega arith) (omega arith) lo (omega arith)
          (omega arith) rest

  three_bytes :
      0x800 ≤ c
      → c < 0x10000
      → (c < 0xd800) ⊎ (0xe000 ≤ c)
      → utf8_loop zero 0 0 ((0xe0 + c / 4096) ∷ (0x80 + c / 64 % 64) ∷ (0x80 + c % 64) ∷ bs)
        ≡ ok (c ∷ cs)
  three_bytes lo hi gap =
      lead_three (c / 4096) _ (omega arith)
      ∙ inner_byte 0 (c / 4096) 0x800 (c / 64 % 64) _ (omega arith)
      ∙ last_byte (c / 4096 * 64 + c / 64 % 64) 0x800 (c % 64) c bs cs (omega arith) (omega arith)
          lo gap (omega arith) rest

  four_bytes :
      0x10000 ≤ c
      → c < 0x110000
      → utf8_loop zero 0 0 (
          (0xf0 + c / 262144)
          ∷ (0x80 + c / 4096 % 64)
          ∷ (0x80 + c / 64 % 64)
          ∷ (0x80 + c % 64)
          ∷ bs)
        ≡ ok (c ∷ cs)
  four_bytes lo hi =
      lead_four (c / 262144) _ (omega arith)
      ∙ inner_byte 1 (c / 262144) 0x10000 (c / 4096 % 64) _ (omega arith)
      ∙ inner_byte 0 (c / 262144 * 64 + c / 4096 % 64) 0x10000 (c / 64 % 64) _ (omega arith)
      ∙ last_byte ((c / 262144 * 64 + c / 4096 % 64) * 64 + c / 64 % 64) 0x10000 (c % 64) c bs cs
          (omega arith) (omega arith) lo (omega arith) hi rest

-- The decoder, at a boundary between code points, takes the bytes of one and goes on.
utf8_loop-encode_char :
    (c : ℕ) (b bs : Bytes) (cs : Text)
    → encode_char c ≡ ok b
    → utf8_loop zero 0 0 bs ≡ ok cs
    → utf8_loop zero 0 0 (b ++ bs) ≡ ok (c ∷ cs)
unfolding encode_char
utf8_loop-encode_char c b bs cs h rest = ground (
  arith,
  one_byte c bs cs rest,
  two_bytes c bs cs rest,
  three_bytes c bs cs rest,
  four_bytes c bs cs rest,
)

pub utf8_loop-encode_utf8 :
    (s : Text) (b : Bytes) → encode_utf8 s ≡ ok b → utf8_loop zero 0 0 b ≡ ok s
unfolding encode_utf8
utf8_loop-encode_utf8 [] b h = unfold utf8_loop in ground arith
utf8_loop-encode_utf8 (c ∷ cs) b h =
    let (x, hx, tail) = >>=-eq-ok (encode_char c) (λ x. encode_utf8 cs >>= λ y. ok (x ++ y)) h in
    let (y, hy, same) = >>=-eq-ok (encode_utf8 cs) (λ y. ok (x ++ y)) tail in
    let whole = utf8_loop-encode_char c x y cs hx (utf8_loop-encode_utf8 cs y hy) in cc

-- Decoding the UTF-8 bytes of a text gives the text.
pub decode_utf8-encode_utf8 : (s : Text) (b : Bytes) → encode_utf8 s ≡ ok b → decode_utf8 b ≡ ok s
unfolding decode_utf8
decode_utf8-encode_utf8 s b h = utf8_loop-encode_utf8 s b h
