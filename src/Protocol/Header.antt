-- ===== src/Protocol/Header.antt =====
-- afkak/kafkacodec.py: the envelope of every request, `_encode_message_header`.
use afkak.Prelude.{ℕ, ◌≡◌, refl, List, [], ◌∷◌, ◌++◌, length}
use afkak.Prelude.Int.{ℤ, pos}
use afkak.Result.{Result, ok, err, ◌>>=◌}
use afkak.Wire.Struct.{Bytes, i16, i32, pack}

-- One part of a message and then another: `message += …`.
infixr 20 ◌⊕◌
abbrev pub ◌⊕◌ : Result Bytes → Result Bytes → Result Bytes
a ⊕ b = a >>= λ x. b >>= λ y. ok (x ++ y)

pub ⊕-eq-ok :
    (a b : Result Bytes) {bs : Bytes}
    → (a ⊕ b) ≡ ok bs
    → (x : Bytes) × (y : Bytes) × (a ≡ ok x) × (b ≡ ok y) × (x ++ y ≡ bs)
⊕-eq-ok (ok x) (ok y) h = (x, y, refl, refl, cc)
⊕-eq-ok (ok x) (err e) h = cc
⊕-eq-ok (err e) b h = cc

-- Several parts, one after the other.
abbrev pub join_all {ℓ} : {A : Type ℓ} → (A → Result Bytes) → List A → Result Bytes
join_all part [] = ok []
join_all part (x ∷ xs) = part x ⊕ join_all part xs

-- The API keys of KafkaCodec.
pub data ApiKey : Type 0 where
  produce fetch offset metadata offset_commit offset_fetch find_coordinator : ApiKey
  join_group heartbeat leave_group sync_group : ApiKey

abbrev pub key_number : ApiKey → ℕ
key_number produce = 0
key_number fetch = 1
key_number offset = 2
key_number metadata = 3
key_number offset_commit = 8
key_number offset_fetch = 9
key_number find_coordinator = 10
key_number join_group = 11
key_number heartbeat = 12
key_number leave_group = 13
key_number sync_group = 14

-- KafkaCodec._encode_message_header
unfoldable pub encode_message_header : Bytes → ℤ → ApiKey → ℕ → Result Bytes
encode_message_header client_id correlation_id request_key api_version =
    pack (i16 ∷ i16 ∷ i32 ∷ i16 ∷ []) (
      pos (key_number request_key),
      (pos api_version, (correlation_id, (pos (length client_id), tt))),
    )
    ⊕ ok client_id
