-- ===== src/Protocol/Arrays.antt =====
-- Arrays that are read item by item, or as one format of 32-bit numbers, and rules for whole readers.
use native.Mathlib.Nat.{zero-add}
use afkak.Prelude.{
  ◌+◌, ◌*◌, ◌≤◌, ◌≡◌, refl, ap, List, [], ◌∷◌, ◌++◌, append-nil, arith, le→ltb_false, ==_refl,
  length, length-append, take_front, drop_front, take_all,
}
use afkak.Prelude.Int.{ℤ, pos, slice_middle}
use afkak.Result.{Result, ok}
use afkak.Wire.Struct.{Bytes, i32}
use afkak.Wire.Struct.RoundTrip.{length-pack, unpack_values-pack}
use afkak.Wire.Reader.{Reader, Reads, Reads-bind, Reads-pure, pure, repeat, whole_length, ◌>>=◌}
use afkak.Protocol.Header.{⊕-eq-ok, join_all}
use afkak.Protocol.Requests.{pack_i32}
use afkak.Protocol.Responses.{read_all, ints_values, relative_unpack_ints}

-- A last read whose bytes end the message.
pub Reads-last {ℓ κ} :
    {A : Type ℓ} {B : Type κ} (m : Reader A) (f : A → B) (bs : Bytes) (a : A)
    → Reads m bs a
    → Reads (m >>= λ x. pure (f x)) bs (f a)
Reads-last m f bs a h = record { at = λ front rest. rw (h.at front rest) }

-- A reader that takes the whole buffer.
pub read_all-Reads {ℓ} :
    {A : Type ℓ} (m : Reader A) (bs : Bytes) (a : A) → Reads m bs a → read_all m bs ≡ ok a
read_all-Reads m bs a h = rw (simp (append-nil, zero-add) at (h.at [] []))

-- Items that were written one after the other.
pub Reads-repeat {ℓ} :
    {A : Type ℓ} (part : A → Result Bytes) (m : Reader A)
    → ((x : A) (b : Bytes) → part x ≡ ok b → Reads m b x)
    → (xs : List A) (bs : Bytes) → join_all part xs ≡ ok bs
    → Reads (repeat (length xs) m) bs xs
unfolding repeat
Reads-repeat part m each [] bs h = let nothing : [] ≡ bs = cc in rw (← nothing) (Reads-pure [])
Reads-repeat part m each (x ∷ xs) bs h =
    let (b, tail, first, others, joined) = ⊕-eq-ok (part x) (join_all part xs) h in
    rw (← joined) (
      Reads-bind m (λ a. repeat (length xs) m >>= λ l. pure (a ∷ l)) b tail x (x ∷ xs)
        (each x b first)
        (Reads-last (repeat (length xs) m) (λ l. x ∷ l) tail xs
          (Reads-repeat part m each xs tail others)))

length-pack_i32s :
    (ns : List ℤ) (bs : Bytes) → join_all pack_i32 ns ≡ ok bs → length bs ≡ 4 * length ns
length-pack_i32s [] bs h = let nothing : [] ≡ bs = cc in rw (← nothing) (omega arith)
length-pack_i32s (n ∷ ns) bs h =
    let (b, tail, first, others, joined) = ⊕-eq-ok (pack_i32 n) (join_all pack_i32 ns) h in
    omega (
      arith,
      ap length joined,
      length-append b tail,
      length-pack (i32 ∷ []) _ b first,
      length-pack_i32s ns tail others,
    )

ints_values-pack :
    (ns : List ℤ) (bs : Bytes) → join_all pack_i32 ns ≡ ok bs → ints_values (length ns) bs ≡ ns
ints_values-pack [] bs h = refl
ints_values-pack (n ∷ ns) bs h =
    let (b, tail, first, others, joined) = ⊕-eq-ok (pack_i32 n) (join_all pack_i32 ns) h in
    let four = length-pack (i32 ∷ []) (n, tt) b first in
    let value = ap (λ v. v.0) (unpack_values-pack (i32 ∷ []) (n, tt) b first) in
    let whole = rw (take_all 4 b (omega (arith, four))) at value in
    rw (← joined, take_front 4 b tail four, drop_front 4 b tail four)
      (λ i. whole i ∷ ints_values-pack ns tail others i)

-- The numbers that were written one after the other, read as one format.
pub Reads-relative_unpack_ints :
    (ns : List ℤ) (bs : Bytes)
    → join_all pack_i32 ns ≡ ok bs
    → Reads (relative_unpack_ints (pos (length ns))) bs ns
unfolding relative_unpack_ints
Reads-relative_unpack_ints ns bs h =
    let sized = length-pack_i32s ns bs h in
    record {
      at = λ front rest.
          let room : length front + 4 * length ns ≤ length (front ++ (bs ++ rest)) =
            omega (arith, whole_length front bs rest) in
          rw (
            le→ltb_false _ _ room,
            ← sized,
            slice_middle front bs rest,
            ==_refl (length bs),
            ints_values-pack ns bs h,
          );
    }
