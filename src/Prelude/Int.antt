-- ===== src/Prelude/Int.antt =====
-- Python's integers over the native numbers, under the library's names, and Python's slices.
use Prim.Native.Nat.{ℕ, suc, ◌+◌, ◌-◌, min}
use mathlib.Core.Path.{◌≡◌, ap, ◌∙◌}
use mathlib.Core.Bool.{Bool, true, false}
use mathlib.Core.List.{List, ◌++◌}
use native.Mathlib.Omega.{arith}
use afkak.Prelude.Tests.{ltb, leb, ◌==◌, if◌then◌else◌}
use afkak.Prelude.Lists.{length, take, drop, take-append, drop-append, length-append}

-- `negsuc n` is -(n + 1).
pub data ℤ : Type 0 where
  pos : ℕ → ℤ
  negsuc : ℕ → ℤ

-- a - b, as an integer.
abbrev pub sub_ℕ : ℕ → ℕ → ℤ
sub_ℕ a b = if leb b a then pos (a - b) else negsuc (b - a - 1)

infixl 65 ◌+ℤ◌
abbrev pub ◌+ℤ◌ : ℤ → ℤ → ℤ
pos a +ℤ pos b = pos (a + b)
pos a +ℤ negsuc b = sub_ℕ a (suc b)
negsuc a +ℤ pos b = sub_ℕ b (suc a)
negsuc a +ℤ negsuc b = negsuc (suc (a + b))

abbrev pub ltb_ℤ : ℤ → ℤ → Bool
ltb_ℤ (pos a) (pos b) = ltb a b
ltb_ℤ (pos a) (negsuc b) = false
ltb_ℤ (negsuc a) (pos b) = true
ltb_ℤ (negsuc a) (negsuc b) = ltb b a

abbrev pub eqb_ℤ : ℤ → ℤ → Bool
eqb_ℤ (pos a) (pos b) = a == b
eqb_ℤ (negsuc a) (negsuc b) = a == b
eqb_ℤ _ _ = false

pub eqb_ℤ→eq : (a b : ℤ) → eqb_ℤ a b ≡ true → a ≡ b
eqb_ℤ→eq (pos a) (pos b) h = ground arith
eqb_ℤ→eq (pos a) (negsuc b) h = ground arith
eqb_ℤ→eq (negsuc a) (pos b) h = ground arith
eqb_ℤ→eq (negsuc a) (negsuc b) h = ground arith

pub eqb_ℤ_refl : (a : ℤ) → eqb_ℤ a a ≡ true
eqb_ℤ_refl (pos a) = ground arith
eqb_ℤ_refl (negsuc a) = ground arith

-- Where an index of a slice falls in a sequence of `len` items: a negative one counts from the end.
abbrev pub slice_index : ℕ → ℤ → ℕ
slice_index len (pos n) = min n len
slice_index len (negsuc n) = len - suc n

module _ {ℓ} {A : Type ℓ} where
  -- data[a:b]
  unfoldable pub slice : List A → ℤ → ℤ → List A
  slice data' a b =
      let from = slice_index (length data') a in
      take (slice_index (length data') b - from) (drop from data')

  pub slice_middle :
      (front xs rest : List A)
      → slice (front ++ (xs ++ rest)) (pos (length front)) (pos (length front + length xs)) ≡ xs
  unfolding slice
  slice_middle front xs rest =
      let whole : ℕ = length (front ++ (xs ++ rest)) in
      let total : whole ≡ length front + (length xs + length rest) =
        (length-append front (xs ++ rest)) ∙ ap (λ n. length front + n) (length-append xs rest) in
      let start : min (length front) whole ≡ length front = omega arith in
      let stop : min (length front + length xs) whole - length front ≡ length xs = omega arith in
      rw (start, stop, drop-append front (xs ++ rest)) (take-append xs rest)
