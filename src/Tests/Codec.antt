-- ===== src/Tests/Codec.antt =====
-- The theorems on the framing of Snappy at blocks of two bytes.
use afkak.Prelude.{◌≡◌, refl, true, some, [], ◌∷◌, ◌++◌}
use afkak.Result.{Result, ok, err, codec_failure}
use afkak.Prelude.Int.{pos}
use afkak.Wire.Struct.{Bytes, pack, be_bytes}
use afkak.Codec.{xerial_header, Snappy, snappy_encode, snappy_decode}
use afkak.Codec.RoundTrip.{IsSnappy, snappy_decode-snappy_encode}
use afkak.Tests.{hi}

-- A package that puts one byte in front.
abbrev opened : Bytes → Result Bytes
opened (b ∷ bs) = ok bs
opened [] = err codec_failure

abbrev installed : Snappy
installed = record { compress = λ b. 0xff ∷ b; decompress = opened }

good_installed : IsSnappy installed
good_installed = record { lossless = λ b. refl; unframed = λ b. refl }

abbrev payload : Bytes
payload = hi ++ 0x21 ∷ []

abbrev framed : Bytes
framed = xerial_header ++ (0 ∷ 0 ∷ 0 ∷ 3 ∷ 0xff ∷ 0x68 ∷ 0x69 ∷ 0 ∷ 0 ∷ 0 ∷ 2 ∷ 0xff ∷ 0x21 ∷ [])

payload-framed : snappy_encode (some installed) true (pos 2) payload ≡ ok framed
unfolding snappy_encode pack be_bytes
payload-framed = refl

snappy_decode-snappy_encode_example : snappy_decode (some installed) framed ≡ ok payload
snappy_decode-snappy_encode_example =
    snappy_decode-snappy_encode installed good_installed true 2 payload framed payload-framed
