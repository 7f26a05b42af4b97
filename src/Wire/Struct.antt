-- ===== src/Wire/Struct.antt =====
-- Python's `struct` module in big-endian order, for the format codes that the protocol uses.
pub mod RoundTrip
use afkak.Prelude.{
  ℕ, zero, suc, ◌+◌, ◌-◌, ◌*◌, ◌/◌, ◌%◌, ◌^◌, Bool, true, false, List, [], ◌∷◌, ◌++◌, ltb, ◌==◌,
  if◌then◌else◌, length, take, drop,
}
use afkak.Prelude.Int.{ℤ, pos, negsuc}
use afkak.Result.{◌>>=◌, Result, ok, err, struct_error}

abbrev pub Bytes : Type 0
Bytes = List ℕ

-- The codes B, I, h, i and q.
pub data Code : Type 0 where
  u8 u32 i16 i32 i64 : Code

abbrev pub size : Code → ℕ
size u8 = 1
size u32 = 4
size i16 = 2
size i32 = 4
size i64 = 8

abbrev pub is_signed : Code → Bool
is_signed u8 = false
is_signed u32 = false
is_signed _ = true

-- The number of values that a code has.
abbrev pub modulus : Code → ℕ
modulus u8 = 2 ^ 8
modulus u32 = 2 ^ 32
modulus i16 = 2 ^ 16
modulus i32 = 2 ^ 32
modulus i64 = 2 ^ 64

-- The values from `bound` on, and those below -`bound`, do not fit.
abbrev pub fits : Code → ℤ → Bool
fits c (pos n) = ltb n (if is_signed c then modulus c / 2 else modulus c)
fits c (negsuc n) = if is_signed c then ltb n (modulus c / 2) else false

-- Two's complement.
abbrev pub to_word : Code → ℤ → ℕ
to_word c (pos n) = n
to_word c (negsuc n) = modulus c - suc n

abbrev pub from_word : Code → ℕ → ℤ
from_word c n =
    if is_signed c
    then (if ltb n (modulus c / 2) then pos n else negsuc (modulus c - n - 1))
    else pos n

unfoldable pub be_bytes : ℕ → ℕ → Bytes
be_bytes zero n = []
be_bytes (suc k) n = be_bytes k (n / 256) ++ (n % 256) ∷ []

unfoldable pub from_be : ℕ → Bytes → ℕ
from_be acc [] = acc
from_be acc (b ∷ bs) = from_be (acc * 256 + b) bs

abbrev pub encode : Code → ℤ → Bytes
encode c z = be_bytes (size c) (to_word c z)

abbrev pub decode : Code → Bytes → ℤ
decode c bs = from_word c (from_be 0 bs)

-- The tuple of values that a format describes.
abbrev pub Values : List Code → Type 0
Values [] = Unit {0}
Values (c ∷ cs) = ℤ × Values cs

-- struct.calcsize
abbrev pub calcsize : List Code → ℕ
calcsize [] = 0
calcsize (c ∷ cs) = size c + calcsize cs

-- struct.pack
unfoldable pub pack : (format : List Code) → Values format → Result Bytes
pack [] vs = ok []
pack (c ∷ cs) (v, vs) =
    let rest = pack cs vs in
    if fits c v then (do bs ← rest; ok (encode c v ++ bs)) else err struct_error

abbrev pub unpack_values : (format : List Code) → Bytes → Values format
unpack_values [] bs = tt
unpack_values (c ∷ cs) bs = (decode c (take (size c) bs), unpack_values cs (drop (size c) bs))

-- struct.unpack: the buffer has exactly the size of the format.
unfoldable pub unpack : (format : List Code) → Bytes → Result (Values format)
unpack format bs =
    if length bs == calcsize format then ok (unpack_values format bs) else err struct_error
