-- ===== src/Wire/Reader/Progress.antt =====
-- How far a successful read moves on, wherever the cursor stands, and what a read does not raise.
use afkak.Prelude.{ℕ, ◌-◌, ◌≤◌, ◌≡◌, refl, ◌≢◌, List, arith, length, drop, length-take}
use afkak.Prelude.Int.{ℤ, pos, negsuc, ◌+ℤ◌, slice_index, slice}
use afkak.Result.{Result, ok, err, out_of_fuel}
use afkak.Wire.Struct.{Bytes, Code, Values, calcsize, unpack}
use afkak.Wire.Reader.{Reader, continue, ◌>>=◌, relative_unpack}

-- A slice has no more items than lie between its ends.
pub length-slice :
    (buf : Bytes) (a b : ℤ)
    → length (slice buf a b) ≤ slice_index (length buf) b - slice_index (length buf) a
unfolding slice
length-slice buf a b =
    let from = slice_index (length buf) a in
    omega (arith, length-take (slice_index (length buf) b - from) (drop from buf))

pub slice_index_le : (len : ℕ) (a : ℤ) → slice_index len a ≤ len
slice_index_le len (pos n) = omega arith
slice_index_le len (negsuc n) = omega arith

-- A read of a format moves the place of the cursor in the buffer by the size of the format.
pub relative_unpack_moves :
    (format : List Code) (buf : Bytes) (cur : ℤ) {vs : Values format} {next : ℤ}
    → relative_unpack format buf cur ≡ ok (vs, next)
    → calcsize format ≤ slice_index (length buf) next - slice_index (length buf) cur
unfolding relative_unpack unpack
relative_unpack_moves format buf cur h =
    ground (arith, length-slice buf cur (cur +ℤ pos (calcsize format)))

module _ {ℓ κ} {A : Type ℓ} {B : Type κ} where
  -- The two parts of a read that succeeds.
  pub continue-eq-ok :
      (r : Result (A × ℤ)) (f : A → Reader B) (buf : Bytes) {b : B} {next : ℤ}
      → continue r f buf ≡ ok (b, next)
      → (a : A) × (cur : ℤ) × (r ≡ ok (a, cur)) × (f a buf cur ≡ ok (b, next))
  continue-eq-ok (ok (a, cur)) f buf h = (a, cur, refl, h)
  continue-eq-ok (err e) f buf h = cc

-- Whatever the input, the reader does not run out of fuel.
pub record Fueled {ℓ} {A : Type ℓ} (m : Reader A) : Type ℓ where
  pub at : (buf : Bytes) (cur : ℤ) → m buf cur ≢ err out_of_fuel

module _ {ℓ κ} {A : Type ℓ} {B : Type κ} where
  continue-Fueled :
      (r : Result (A × ℤ)) (f : A → Reader B) (buf : Bytes)
      → r ≢ err out_of_fuel
      → ((a : A) → Fueled (f a))
      → continue r f buf ≢ err out_of_fuel
  continue-Fueled (ok (a, cur)) f buf h k = (k a).at buf cur
  continue-Fueled (err e) f buf h k = λ p. h (cc)

  pub Fueled-bind :
      (m : Reader A) (f : A → Reader B) → Fueled m → ((a : A) → Fueled (f a)) → Fueled (m >>= f)
  Fueled-bind m f hm hf = record {
    at = λ buf cur. continue-Fueled (m buf cur) f buf (hm.at buf cur) hf;
  }

pub Fueled-relative_unpack : (format : List Code) → Fueled (relative_unpack format)
unfolding relative_unpack unpack
Fueled-relative_unpack format = record { at = λ buf cur. ground arith }
