-- ===== src/Partitioner/Cycling.antt =====
-- The partitions that successive calls of `RoundRobinPartitioner.partition` return.
use afkak.Prelude.{
  ℕ, zero, suc, ◌≤◌, ◌<◌, ◌≡◌, refl, sym, inl, inr, Bool, true, false, Option, some, List, [], ◌∷◌,
  map, arith, ◌==◌, if◌then◌else◌, ==_iff, Bool-cases, length, get_elem?, drop,
}
use afkak.Prelude.Int.{ℤ, ltb_ℤ, eqb_ℤ_refl}
use afkak.Result.{ok}
use afkak.Assignment.{sort_into, advance}
use afkak.Partitioner.{
  RoundRobinPartitioner, skip, started, set_partitions, ints_beq, partition, calls,
}

-- The place behind the last is the first.
abbrev wrap : List ℤ → ℕ → ℕ
wrap ps c = if c == length ps then 0 else c

-- The elements of a list one after the other, `n` of them from place `c` on.
abbrev pub walk : List ℤ → ℕ → ℕ → List (Option ℤ)
walk ps zero c = []
walk ps (suc n) c = get_elem? ps (wrap ps c) ∷ walk ps n (suc (wrap ps c))

ints_beq_refl : (l : List ℤ) → ints_beq l l ≡ true
ints_beq_refl [] = refl
ints_beq_refl (x ∷ l) = rw (eqb_ℤ_refl x, ints_beq_refl l)

skip-drop : (n : ℕ) (source rest : List ℤ) → n ≤ length rest → skip n source rest ≡ drop n rest
skip-drop zero source rest h = refl
skip-drop (suc n) source [] h = absurd (omega arith)
skip-drop (suc n) source (x ∷ rest) h = skip-drop n source rest (omega arith)

-- What next() gives within a round.
advance-drop :
    (source l : List ℤ) (c : ℕ)
    → c < length l
    → (p : ℤ) × (advance source (drop c l) ≡ some (p, drop (suc c) l)) × (get_elem? l c ≡ some p)
advance-drop source [] c h = absurd (omega arith)
advance-drop source (x ∷ l) zero h = (x, refl, refl)
advance-drop source (x ∷ l) (suc c) h = advance-drop source l c (omega arith)

drop-length : (l : List ℤ) → drop (length l) l ≡ []
drop-length [] = refl
drop-length (x ∷ l) = drop-length l

restart :
    (ps : List ℤ)
    → 0 < length ps
    → (p : ℤ) × (advance ps [] ≡ some (p, drop 1 ps)) × (get_elem? ps 0 ≡ some p)
restart [] h = absurd (omega arith)
restart (p ∷ ps) h = (p, refl, refl)

advance_wraps :
    (ps : List ℤ) (c : ℕ)
    → 0 < length ps
    → c ≤ length ps
    → (p : ℤ) × (advance ps (drop c ps) ≡ some (p, drop (suc (wrap ps c)) ps))
      × (get_elem? ps (wrap ps c) ≡ some p)
advance_wraps ps c some_partition h = elim (Bool-cases (c == length ps)) [
  | inl over ↦
      let at_end : c ≡ length ps = (==_iff c (length ps)).0 over in
      rw (over, at_end, drop-length ps) (restart ps some_partition)
  | inr within ↦
      let before_end : c < length ps = ground (arith, within, h) in
      rw within (advance-drop ps ps c before_end)
]

module _ (random_start : Bool) (ps : List ℤ) (some_partition : 0 < length ps) where
  calls-walk :
      (starts : List ℕ) (st : RoundRobinPartitioner) (c : ℕ)
      → st.partitions ≡ ps
      → st.source ≡ ps
      → st.rest ≡ drop c ps
      → c ≤ length ps
      → (chosen : List ℤ) × (calls random_start starts st ps ≡ ok chosen)
        × (map some chosen ≡ walk ps (length starts) c)
  unfolding calls partition
  calls-walk [] st c same_partitions same_source same_rest h = ([], refl, refl)
  calls-walk (start ∷ starts) st c same_partitions same_source same_rest h =
      let (p, next, found) = advance_wraps ps c some_partition h in
      let bound : suc (wrap ps c) ≤ length ps = ground (arith, h, some_partition) in
      let moved : RoundRobinPartitioner = record {
        partitions = ps;
        source = ps;
        rest = drop (suc (wrap ps c)) ps;
      } in
      let (chosen, run, walked) = calls-walk starts moved (suc (wrap ps c)) refl refl refl bound in
      (
        p ∷ chosen,
        rw (same_partitions, same_source, same_rest, ints_beq_refl ps, next, run),
        λ i. (sym found i) ∷ walked i,
      )

  -- The state that `_set_partitions` makes.
  calls-started :
      (starts : List ℕ) (start : ℕ)
      → sort_into ltb_ℤ [] ps ≡ ps
      → start < length ps
      → (chosen : List ℤ) × (calls random_start starts (started ps start) ps ≡ ok chosen)
        × (map some chosen ≡ walk ps (length starts) start)
  calls-started starts start sorted h =
      calls-walk starts (started ps start) start sorted refl (skip-drop start ps ps (omega arith))
        (omega arith)

-- For a sorted list of one partition at least, successive calls return its partitions one after the
-- other, from the first again behind the last, beginning at the place that randint gave where the
-- start is random and at the first where it is not.
pub round_robin_lem :
    (random_start : Bool) (ps : List ℤ) (start : ℕ) (st : RoundRobinPartitioner) (starts : List ℕ)
    → sort_into ltb_ℤ [] ps ≡ ps
    → start < length ps
    → set_partitions random_start start ps ≡ ok st
    → (chosen : List ℤ) × (calls random_start starts st ps ≡ ok chosen)
      × (map some chosen ≡ walk ps (length starts) (if random_start then start else 0))
round_robin_lem false ps start st starts sorted h made =
    let same : started ps 0 ≡ st = cc in
    rw (← same) (calls-started false ps (omega arith) starts 0 sorted (omega arith))
round_robin_lem true [] start st starts sorted h made = absurd (omega arith)
round_robin_lem true (p ∷ ps) start st starts sorted h made =
    let same : started (p ∷ ps) start ≡ st = cc in
    rw (← same) (calls-started true (p ∷ ps) (omega arith) starts start sorted h)

-- A list that is not sorted is taken for a new one at every call: without a random start, every
-- call returns its first partition.
pub round_robin_unsorted :
    (p : ℤ) (ps : List ℤ) (st : RoundRobinPartitioner) (starts : List ℕ)
    → ints_beq (sort_into ltb_ℤ [] (p ∷ ps)) (p ∷ ps) ≡ false
    → st.partitions ≡ sort_into ltb_ℤ [] (p ∷ ps)
    → calls false starts st (p ∷ ps) ≡ ok (map (λ start. p) starts)
unfolding calls partition
round_robin_unsorted p ps st [] unsorted same = refl
round_robin_unsorted p ps st (start ∷ starts) unsorted same =
    let moved : RoundRobinPartitioner = record {
      partitions = sort_into ltb_ℤ [] (p ∷ ps);
      source = p ∷ ps;
      rest = ps;
    } in
    let later = round_robin_unsorted p ps moved starts unsorted refl in rw (same, unsorted, later)
