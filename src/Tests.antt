-- ===== src/Tests.antt =====
-- Concrete data that the examples share: messages, and a pair of codecs.
pub mod Messages
pub mod Strings
pub mod Protocol
pub mod Responses
pub mod Bootstrap
pub mod Assignment
pub mod Partitioner
pub mod Codec
pub mod Coordinator
pub mod BrokerErrors
pub mod BrokerClient
pub mod Producer
pub mod Client
use afkak.Prelude.{◌≡◌, refl, ◌≢◌, Option, none, some, [], ◌∷◌}
use afkak.Result.{Result, ok, err, codec_failure, out_of_fuel}
use afkak.Wire.Struct.{Bytes}
use afkak.Wire.Text.{Text}
use afkak.MessageSet.{Message, Decompressors}
use afkak.MessageSet.Create.{Compressors, create_message}
use afkak.MessageSet.Compressed.{IsLossless}
use afkak.MessageSet.Termination.{IsPython}

-- "hi"
abbrev pub hi : Text
hi = 0x68 ∷ 0x69 ∷ []

abbrev pub hi_message : Message
hi_message = create_message (some hi) none

-- Codecs that put one byte in front.
abbrev pub strip : Option Bytes → Result Bytes
strip (some (b ∷ bs)) = ok bs
strip _ = err codec_failure

abbrev pub compressors : Compressors
compressors = record { gzip_encode = λ b. 0x1f ∷ b; snappy_encode = λ b. ok (0xff ∷ b) }

abbrev pub decompressors : Decompressors
decompressors = record { gzip_decode = strip; snappy_decode = strip }

pub lossless : IsLossless compressors decompressors
lossless = record { gzip = λ b. refl; snappy = opened }
  where
    opened : (b z : Bytes) → ok (0xff ∷ b) ≡ ok z → strip (some z) ≡ ok b
    opened b z h = let same : 0xff ∷ b ≡ z = cc in rw (← same)

pub python : IsPython decompressors
python = record { gzip = raises_python; snappy = raises_python }
  where
    raises_python : (value : Option Bytes) → strip value ≢ err out_of_fuel
    raises_python none = λ q. cc
    raises_python (some []) = λ q. cc
    raises_python (some (b ∷ bs)) = λ q. cc
