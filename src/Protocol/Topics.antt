-- ===== src/Protocol/Topics.antt =====
-- The two nested arrays, of topics and of partitions in a topic, that most messages of the protocol
-- have: how afkak/kafkacodec.py writes them, and how its generators read them.
pub mod RoundTrip
use afkak.Prelude.{ℕ, zero, suc, Option, none, some, List, [], ◌∷◌, ◌++◌, length}
use afkak.Prelude.Int.{ℤ, pos, negsuc}
use afkak.Result.{Error, Result, ok, err}
use afkak.Wire.Struct.{Bytes, i32, pack}
use afkak.Wire.Reader
use afkak.Wire.Reader.{Reader, relative_unpack}
use afkak.Wire.Text.{Text}
use afkak.Wire.Strings.{write_short_ascii, read_short_ascii}
use afkak.Generator.{Gen}
use afkak.Protocol.Header.{◌⊕◌, join_all}
use afkak.Protocol.Grouping.{Dict}

-- The length of an array, in front of it.
abbrev pub pack_length {ℓ} : {A : Type ℓ} → List A → Result Bytes
pack_length xs = pack (i32 ∷ []) (pos (length xs), tt)

-- One topic with its partitions, each written by `body` as its number and what follows.
abbrev pub encode_topic {ℓ} : {P : Type ℓ} → (ℤ × P → Result Bytes) → Text × Dict ℤ P → Result Bytes
encode_topic body (topic, partitions) =
    write_short_ascii (some topic) ⊕ pack_length partitions ⊕ join_all body partitions

abbrev pub encode_topics {ℓ} :
    {P : Type ℓ} → (ℤ × P → Result Bytes) → Dict Text (Dict ℤ P) → Result Bytes
encode_topics body out = join_all (encode_topic body) out

-- A part of a generator's run: what it yields, and the cursor behind it or the exception.
pub record Run {ℓ} (Y : Type ℓ) : Type ℓ where
  pub yielded : List Y
  pub next : Result ℤ

-- How often the body of `for _i in range(n)` runs.
abbrev pub rounds : ℤ → ℕ
rounds (pos n) = n
rounds (negsuc n) = 0

abbrev ended : Result ℤ → Option Error
ended (ok cur) = none
ended (err e) = some e

module _ {ℓ} {Y : Type ℓ} where
  abbrev pub stopped : Error → Run Y
  stopped e = record { yielded = []; next = err e }

  -- One part, and then the rest from the cursor that it leaves.
  abbrev pub and_then : Run Y → (ℤ → Run Y) → Run Y
  and_then r rest = elim r.next [
    | err e ↦ r
    | ok cur ↦ record { yielded = r.yielded ++ (rest cur).yielded; next = (rest cur).next }
  ]

  -- A read that yields what it reads.
  abbrev pub yield_read : Result (Y × ℤ) → Run Y
  yield_read (ok (y, cur)) = record { yielded = y ∷ []; next = ok cur }
  yield_read (err e) = stopped e

  -- A read that the rest of the run uses.
  abbrev pub use_read {κ} : {A : Type κ} → Result (A × ℤ) → (A → ℤ → Run Y) → Run Y
  use_read (ok (a, cur)) rest = rest a cur
  use_read (err e) rest = stopped e

  unfoldable pub loop : ℕ → (ℤ → Run Y) → ℤ → Run Y
  loop zero body cur = record { yielded = []; next = ok cur }
  loop (suc n) body cur = and_then (body cur) (loop n body)

  module _ (item : Text → Reader Y) (buf : Bytes) where
    -- The body of the loop over the topics: the name, the number of partitions, and their loop.
    abbrev pub read_topic : ℤ → Run Y
    read_topic cur = use_read (read_short_ascii buf cur) λ topic cur'.
        use_read (relative_unpack (i32 ∷ []) buf cur')
          λ v cur''. loop (rounds v.0) (λ c. yield_read (item topic buf c)) cur''

    unfoldable pub read_topics : ℤ → ℤ → Run Y
    unfolding loop
    read_topics num_topics cur = loop (rounds num_topics) read_topic cur

  -- What a generator's whole run comes to, for whoever iterates over it.
  abbrev pub to_gen : Run Y → Gen Y
  to_gen r = record { yielded = r.yielded; raised = ended r.next }
