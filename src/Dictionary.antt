-- ===== src/Dictionary.antt =====
-- Python's dictionaries beyond the setting of a key: the deletion of one, and sums over the entries.
use afkak.Prelude.{
  ℕ, ◌+◌, ◌≤◌, ◌≡◌, refl, ap, inl, inr, Bool, true, false, none, some, List, [], ◌∷◌, ◌++◌, arith,
  if◌then◌else◌, Bool-cases, All,
}
use afkak.Protocol.Grouping.{Eq, Dict, lookup, insert}
use afkak.Protocol.Grouping.Distinct.{IsDict}

-- One or nothing, for counting.
abbrev pub one_if : Bool → ℕ
one_if true = 1
one_if false = 0

abbrev pub sum_of {ℓ} : {A : Type ℓ} → (A → ℕ) → List A → ℕ
sum_of f [] = 0
sum_of f (x ∷ xs) = f x + sum_of f xs

pub sum_of-append {ℓ} :
    {A : Type ℓ} (f : A → ℕ) (xs ys : List A) → sum_of f (xs ++ ys) ≡ sum_of f xs + sum_of f ys
sum_of-append f [] ys = omega arith
sum_of-append f (x ∷ xs) ys = omega (arith, sum_of-append f xs ys)

pub All-mono {ℓ κ} :
    {A : Type ℓ} (P Q : A → Type κ) (l : List A) → ((x : A) → P x → Q x) → All P l → All Q l
All-mono P Q [] f h = tt
All-mono P Q (x ∷ l) f h = (f x h.0, All-mono P Q l f h.1)

-- A bound on each item is a bound on the sums.
pub sum_of_le {ℓ} :
    {A : Type ℓ} (f g : A → ℕ) (l : List A) → All (λ x. f x ≤ g x) l → sum_of f l ≤ sum_of g l
sum_of_le f g [] h = omega arith
sum_of_le f g (x ∷ l) h = let rest = sum_of_le f g l h.1 in omega (arith, rest, h.0)

module _ {ℓ κ} {K : Type ℓ} {V : Type κ} ⦃e : Eq K⦄ where
  -- del d[k], of a key that is there; nothing otherwise.
  unfoldable pub delete : K → Dict K V → Dict K V
  delete k [] = []
  delete k ((j, v) ∷ d) = if e.beq j k then d else (j, v) ∷ delete k d

  pub sum_of-insert_new :
      (f : K × V → ℕ) (k : K) (v : V) (d : Dict K V)
      → lookup k d ≡ none
      → sum_of f (insert k v d) ≡ f (k, v) + sum_of f d
  unfolding lookup insert
  sum_of-insert_new f k v [] h = refl
  sum_of-insert_new f k v ((j, w) ∷ d) h = elim (Bool-cases (e.beq j k)) [
    | inl same ↦ cc (rw same at h)
    | inr other ↦ rw other (omega (arith, sum_of-insert_new f k v d (rw other at h)))
  ]

  -- An entry gives way to another under its key.
  pub sum_of-insert_known :
      (f : K × V → ℕ) (k : K) (v w : V) (d : Dict K V)
      → lookup k d ≡ some w
      → sum_of f (insert k v d) + f (k, w) ≡ sum_of f d + f (k, v)
  unfolding lookup insert
  sum_of-insert_known f k v w [] h = cc
  sum_of-insert_known f k v w ((j, u) ∷ d) h = elim (Bool-cases (e.beq j k)) [
    | inl same ↦
        let here : j ≡ k = (e.beq_iff j k).0 same in
        let found : u ≡ w = cc (rw same at h) in rw same (rw (here, found) (omega arith))
    | inr other ↦ rw other (omega (arith, sum_of-insert_known f k v w d (rw other at h)))
  ]

  pub sum_of-delete :
      (f : K × V → ℕ) (k : K) (w : V) (d : Dict K V)
      → lookup k d ≡ some w
      → sum_of f d ≡ f (k, w) + sum_of f (delete k d)
  unfolding lookup delete
  sum_of-delete f k w [] h = cc
  sum_of-delete f k w ((j, u) ∷ d) h = elim (Bool-cases (e.beq j k)) [
    | inl same ↦
        let here : j ≡ k = (e.beq_iff j k).0 same in
        let found : u ≡ w = cc (rw same at h) in rw same (rw (here, found))
    | inr other ↦ rw other (omega (arith, sum_of-delete f k w d (rw other at h)))
  ]

  -- What holds of all entries holds of those that are left, and of a new one if it holds of it.
  pub All-insert {μ} :
      (P : K × V → Type μ) (k : K) (v : V) (d : Dict K V)
      → P (k, v)
      → All P d
      → All P (insert k v d)
  unfolding insert
  All-insert P k v [] new h = (new, tt)
  All-insert P k v ((j, w) ∷ d) new h = elim (Bool-cases (e.beq j k)) [
    | inl same ↦ let here : j ≡ k = (e.beq_iff j k).0 same in rw same (rw here new, h.1)
    | inr other ↦ rw other (h.0, All-insert P k v d new h.1)
  ]

  pub All-delete {μ} : (P : K × V → Type μ) (k : K) (d : Dict K V) → All P d → All P (delete k d)
  unfolding delete
  All-delete P k [] h = tt
  All-delete P k ((j, w) ∷ d) h = elim (Bool-cases (e.beq j k)) [
    | inl same ↦ rw same h.1
    | inr other ↦ rw other (h.0, All-delete P k d h.1)
  ]

  pub All-lookup {μ} :
      (P : K × V → Type μ) (k : K) (w : V) (d : Dict K V) → lookup k d ≡ some w → All P d → P (k, w)
  unfolding lookup
  All-lookup P k w [] found h = cc
  All-lookup P k w ((j, u) ∷ d) found h = elim (Bool-cases (e.beq j k)) [
    | inl same ↦
        let here : j ≡ k = (e.beq_iff j k).0 same in
        let it : u ≡ w = cc (rw same at found) in rw (← here, ← it) h.0
    | inr other ↦ All-lookup P k w d (rw other at found) h.1
  ]

  pub delete-none : (k : K) (d : Dict K V) → lookup k d ≡ none → delete k d ≡ d
  unfolding lookup delete
  delete-none k [] h = refl
  delete-none k ((j, v) ∷ d) h = elim (Bool-cases (e.beq j k)) [
    | inl same ↦ cc (rw same at h)
    | inr other ↦ rw other (ap (λ l. (j, v) ∷ l) (delete-none k d (rw other at h)))
  ]

  -- No key stands twice, before and after.
  pub IsDict-insert : (k : K) (v : V) (d : Dict K V) → IsDict d → IsDict (insert k v d)
  unfolding insert
  IsDict-insert k v [] h = (tt, tt)
  IsDict-insert k v ((j, w) ∷ d) h = elim (Bool-cases (e.beq j k)) [
    | inl same ↦ rw same h
    | inr other ↦
        rw other
          (All-insert (λ (p : K × V). e.beq j p.0 ≡ false) k v d other h.0, IsDict-insert k v d h.1)
  ]

  pub IsDict-delete : (k : K) (d : Dict K V) → IsDict d → IsDict (delete k d)
  unfolding delete
  IsDict-delete k [] h = tt
  IsDict-delete k ((j, w) ∷ d) h = elim (Bool-cases (e.beq j k)) [
    | inl same ↦ rw same h.1
    | inr other ↦
        rw other (All-delete (λ (p : K × V). e.beq j p.0 ≡ false) k d h.0, IsDict-delete k d h.1)
  ]

  pub lookup_new :
      (k : K) (d : Dict K V) → All (λ (p : K × V). e.beq k p.0 ≡ false) d → lookup k d ≡ none
  unfolding lookup
  lookup_new k [] h = refl
  lookup_new k ((j, w) ∷ d) h =
      ground (arith, e.beq_iff j k, e.beq_iff k j, lookup_new k d h.1, h.0)

  pub lookup-delete :
      (k j : K) (d : Dict K V)
      → IsDict d
      → lookup j (delete k d) ≡ (if e.beq k j then none else lookup j d)
  unfolding lookup delete
  lookup-delete k j [] h = ground arith
  lookup-delete k j ((i, w) ∷ d) h = ground (
    arith,
    e.beq_iff i k,
    e.beq_iff i j,
    e.beq_iff k j,
    lookup-delete k j d h.1,
    lookup_new i d h.0,
  )

  pub lookup-delete_other :
      (k j : K) (d : Dict K V) → e.beq k j ≡ false → lookup j (delete k d) ≡ lookup j d
  unfolding lookup delete
  lookup-delete_other k j [] h = refl
  lookup-delete_other k j ((i, w) ∷ d) h =
      ground (arith, e.beq_iff i k, e.beq_iff i j, e.beq_iff k j, lookup-delete_other k j d h, h)
