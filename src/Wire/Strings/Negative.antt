-- ===== src/Wire/Strings/Negative.antt =====
-- What the readers of afkak/_util.py do with a negative length other than the null's -1.
use afkak.Prelude.{
  ℕ, suc, ◌+◌, ◌-◌, ◌≤◌, min, ◌≡◌, false, some, [], ◌∷◌, ◌++◌, arith, ◌==◌, le→ltb_false, length,
}
use afkak.Prelude.Int.{pos, negsuc, slice, sub_ℕ}
use afkak.Result.{ok}
use afkak.Wire.Struct.{Bytes, i32, pack}
use afkak.Wire.Struct.RoundTrip.{length-pack}
use afkak.Wire.Reader.{Reads-relative_unpack, whole_length}
use afkak.Wire.Strings.{sliced, read_int_string}

-- A slice whose end stands before its start is empty.
slice_back : (buf : Bytes) (a b : ℕ) → b ≤ a → slice buf (pos a) (pos b) ≡ []
unfolding slice
slice_back buf a b h =
    let empty : min b (length buf) - min a (length buf) ≡ 0 = omega arith in rw empty

sliced_back :
    (k here : ℕ) (buf : Bytes)
    → suc (suc k) ≤ here
    → here ≤ length buf
    → sliced (negsuc (suc k)) buf (pos here) ≡ ok (some [], pos (here - suc (suc k)))
sliced_back k here buf h room =
    let moved : sub_ℕ here (suc (suc k)) ≡ pos (here - suc (suc k)) = ground arith in
    let not_null : (suc k == 0) ≡ false = ground arith in
    rw (
      not_null,
      moved,
      le→ltb_false (length buf) (here - suc (suc k)) (omega arith),
      slice_back buf here (here - suc (suc k)) (omega arith),
    )

-- A length of -2 or less that the bytes before it can absorb is accepted: the reader returns an
-- empty string, raises nothing, and leaves the cursor before the end of the prefix, by that length.
pub read_int_string_negative :
    (k : ℕ) (prefix front rest : Bytes)
    → pack (i32 ∷ []) (negsuc (suc k), tt) ≡ ok prefix
    → suc (suc k) ≤ length front + 4
    → read_int_string (front ++ (prefix ++ rest)) (pos (length front))
      ≡ ok (some [], pos (length front + 4 - suc (suc k)))
unfolding read_int_string
read_int_string_negative k prefix front rest h room =
    let sized = length-pack (i32 ∷ []) _ prefix h in
    let whole : length front + 4 ≤ length (front ++ (prefix ++ rest)) =
      omega (arith, whole_length front prefix rest) in
    rw ((Reads-relative_unpack (i32 ∷ []) _ prefix h).at front rest, sized)
      (sliced_back k (length front + 4) _ room whole)
