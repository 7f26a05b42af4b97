-- ===== src/Wire/Reader.antt =====
-- Functions `read(data, cur)` that return a value and the next cursor, and `relative_unpack`.
pub mod Progress
use native.Mathlib.Nat.{add_assoc}
use afkak.Prelude.{
  ℕ, zero, suc, ◌+◌, ◌≤◌, ◌<◌, ◌≡◌, ap, ◌∙◌, List, [], ◌∷◌, ◌++◌, append_assoc, arith,
  if◌then◌else◌, lt→ltb, le→ltb_false, length, length-append,
}
use afkak.Prelude.Int.{ℤ, pos, ◌+ℤ◌, ltb_ℤ, slice, slice_middle}
use afkak.Result.{Error, Result, ok, err, buffer_underflow}
use afkak.Wire.Struct.{Bytes, Code, Values, calcsize, pack, unpack}
use afkak.Wire.Struct.RoundTrip.{unpack-pack}

-- The cursor is an integer: a negative length prefix moves it back, below zero even.
abbrev pub Reader {ℓ} : Type ℓ → Type ℓ
Reader A = Bytes → ℤ → Result (A × ℤ)

abbrev pub continue {ℓ κ} :
    {A : Type ℓ} {B : Type κ} → Result (A × ℤ) → (A → Reader B) → Bytes → Result (B × ℤ)
continue (ok (a, cur)) f buf = f a buf cur
continue (err e) f buf = err e

-- `(a, cur) = m(data, cur)`, and the rest.
infixl 5 ◌>>=◌
abbrev pub ◌>>=◌ {ℓ κ} : {A : Type ℓ} {B : Type κ} → Reader A → (A → Reader B) → Reader B
◌>>=◌ m f buf cur = continue (m buf cur) f buf

abbrev pub pure {ℓ} : {A : Type ℓ} → A → Reader A
pure a buf cur = ok (a, cur)

abbrev pub raise {ℓ} : {A : Type ℓ} → Error → Reader A
raise e buf cur = err e

-- A value computed from what was read, which may raise.
abbrev pub lift {ℓ} : {A : Type ℓ} → Result A → Reader A
lift (ok a) buf cur = ok (a, cur)
lift (err e) buf cur = err e

-- `for _i in range(n)`, collecting one value a round.
unfoldable pub repeat {ℓ} : {A : Type ℓ} → ℕ → Reader A → Reader (List A)
repeat zero m buf cur = ok ([], cur)
repeat (suc n) m buf cur =
    continue (m buf cur) (λ a b c. continue (repeat n m b c) (λ l. pure (a ∷ l)) b) buf

unfoldable pub relative_unpack : (format : List Code) → Reader (Values format)
relative_unpack format buf cur =
    let size = calcsize format in
    if ltb_ℤ (pos (length buf)) (cur +ℤ pos size)
    then err buffer_underflow
    else lift (unpack format (slice buf cur (cur +ℤ pos size))) buf (cur +ℤ pos size)

-- `m` reads `bs` as `a`, whatever stands before and behind, and moves the cursor past `bs`.
pub record Reads {ℓ} {A : Type ℓ} (m : Reader A) (bs : Bytes) (a : A) : Type ℓ where
  pub at :
      (front rest : Bytes)
      → m (front ++ (bs ++ rest)) (pos (length front)) ≡ ok (a, pos (length front + length bs))

pub whole_length :
    (front bs rest : Bytes)
    → length (front ++ (bs ++ rest)) ≡ length front + (length bs + length rest)
whole_length front bs rest =
    length-append front (bs ++ rest) ∙ ap (λ n. length front + n) (length-append bs rest)

module _ {ℓ κ} {A : Type ℓ} {B : Type κ} where
  pub Reads-bind :
      (m : Reader A) (f : A → Reader B) (xs ys : Bytes) (a : A) (b : B)
      → Reads m xs a
      → Reads (f a) ys b
      → Reads (m >>= f) (xs ++ ys) b
  Reads-bind m f xs ys a b hm hf = record {
    at = λ front rest.
        rw (append_assoc xs ys rest, hm.at front (ys ++ rest), length-append xs ys)
          (rw (← add_assoc (length front) (length xs) (length ys))
            (simp (append_assoc, length-append) at (hf.at (front ++ xs) rest)));
  }

module _ {ℓ} {A : Type ℓ} where
  pub Reads-pure : (a : A) → Reads (pure a) [] a
  Reads-pure a = record { at = λ front rest. ap (λ n. ok (a, pos n)) (omega arith) }

pub Reads-relative_unpack :
    (format : List Code) (vs : Values format) (bs : Bytes)
    → pack format vs ≡ ok bs
    → Reads (relative_unpack format) bs vs
unfolding relative_unpack
Reads-relative_unpack format vs bs h =
    let (back, sized) = unpack-pack format vs bs h in
    record {
      at = λ front rest.
          let room : length front + calcsize format ≤ length (front ++ (bs ++ rest)) =
            omega (arith, whole_length front bs rest) in
          rw (le→ltb_false _ _ room, ← sized, slice_middle front bs rest, back);
    }

-- Too few bytes are left.
pub relative_unpack_short :
    (format : List Code) (buf : Bytes) (here : ℕ)
    → length buf < here + calcsize format
    → relative_unpack format buf (pos here) ≡ err buffer_underflow
unfolding relative_unpack
relative_unpack_short format buf here h = rw (lt→ltb _ _ h)
