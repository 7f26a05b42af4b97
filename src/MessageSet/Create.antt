-- ===== src/MessageSet/Create.antt =====
-- afkak/kafkacodec.py: `create_message`, `create_gzip_message`, `create_snappy_message` and
-- `create_message_set`.
use afkak.Prelude.{ℕ, Option, none, some, List, [], ◌∷◌, ◌++◌, if◌then◌else◌}
use afkak.Prelude.Int.{ℤ, pos, eqb_ℤ}
use afkak.Result.{Result, ok, err, unsupported_codec, ◌>>=◌}
use afkak.Wire.Struct.{Bytes}
use afkak.MessageSet.{Message, encode_message_set}

-- The compressors, from `gzip` and from the package `snappy` by way of afkak/codec.py.
pub record Compressors : Type 0 where
  pub gzip_encode : Bytes → Bytes
  pub snappy_encode : Bytes → Result Bytes

-- The fields of afkak/common.py's `SendRequest` that matter here.
pub record SendRequest : Type 0 where
  pub key : Option Bytes
  pub messages : List (Option Bytes)

abbrev pub create_message : Option Bytes → Option Bytes → Message
create_message payload key = record {
  magic = pos 0;
  attributes = pos 0;
  key = key;
  value = payload;
}

abbrev pub compressed : ℕ → Bytes → Message
compressed codec set = record {
  magic = pos 0;
  attributes = pos codec;
  key = none;
  value = some set;
}

module _ (c : Compressors) where
  unfoldable pub create_gzip_message : List Message → Result Message
  create_gzip_message ms = do
    encoded ← encode_message_set ms none
    ok (compressed 1 (c.gzip_encode encoded))

  unfoldable pub create_snappy_message : List Message → Result Message
  create_snappy_message ms = do
    encoded ← encode_message_set ms none
    snapped ← c.snappy_encode encoded
    ok (compressed 2 snapped)

-- `[create_message(m, key=req.key) for m in req.messages]`
abbrev pub keyed : Option Bytes → List (Option Bytes) → List Message
keyed key [] = []
keyed key (m ∷ ms) = create_message m key ∷ keyed key ms

abbrev pub message_list : List SendRequest → List Message
message_list [] = []
message_list (r ∷ rs) = keyed r.key r.messages ++ message_list rs

abbrev pub singleton : Result Message → Result (List Message)
singleton r = r >>= λ m. ok (m ∷ [])

unfoldable pub create_message_set : Compressors → List SendRequest → ℤ → Result (List Message)
create_message_set c requests codec =
    let msglist = message_list requests in
    if eqb_ℤ codec (pos 0)
    then ok msglist
    else if eqb_ℤ codec (pos 1)
    then singleton (create_gzip_message c msglist)
    else if eqb_ℤ codec (pos 2)
    then singleton (create_snappy_message c msglist)
    else err unsupported_codec
