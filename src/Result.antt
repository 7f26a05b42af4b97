-- ===== src/Result.antt =====
-- What a call of the Python code comes to: a value, or an exception that it raises.
use afkak.Prelude.{ℕ, List, ◌≡◌, refl}

-- One constructor for each exception class that the modelled code raises or lets through.
-- `out_of_fuel` is no Python exception: it marks a loop of the model that was given too few rounds.
pub data Error : Type 0 where
  buffer_underflow checksum_error protocol_error fetch_size_too_small : Error
  invalid_message unsupported_codec : Error
  struct_error unicode_error type_error attribute_error value_error : Error
  assertion_error key_error recursion_error not_implemented codec_failure : Error
  stop_iteration index_error zero_division_error : Error
  duplicate_request already_called : Error
  need_topic_partitions : List (List ℕ) → Error
  out_of_fuel : Error

-- What a call returns, or what it raises.
pub data Result {ℓ} (Value : Type ℓ) : Type ℓ where
  ok : Value → Result Value
  err : Error → Result Value

-- A statement and what follows it: an exception skips the rest.
infixl 5 ◌>>=◌
abbrev pub ◌>>=◌ {ℓ κ} :
    {Value : Type ℓ} {Next : Type κ} → Result Value → (Value → Result Next) → Result Next
err raised >>= rest = err raised
ok value >>= rest = rest value

-- Code that returns went through its first statement.
pub >>=-eq-ok {ℓ κ} :
    {Value : Type ℓ} {Next : Type κ} (call : Result Value) (rest : Value → Result Next) {out : Next}
    → (call >>= rest) ≡ ok out
    → (value : Value) × (call ≡ ok value) × (rest value ≡ ok out)
>>=-eq-ok (err raised) rest h = cc
>>=-eq-ok (ok value) rest h = (value, refl, h)
