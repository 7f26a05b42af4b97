-- ===== src/Generator.antt =====
-- Python generators that take no input: what they yield, and the exception that ends them, if any.
use afkak.Prelude.{Option, none, some, List, [], ◌∷◌, ◌++◌}
use afkak.Result.{Error}

pub record Gen {ℓ} (Y : Type ℓ) : Type ℓ where
  pub yielded : List Y
  pub raised : Option Error

module _ {ℓ} {Y : Type ℓ} where
  abbrev pub finished : Gen Y
  finished = record { yielded = []; raised = none }

  abbrev pub raises : Error → Gen Y
  raises e = record { yielded = []; raised = some e }

  abbrev pub yield_one : Y → Gen Y
  yield_one y = record { yielded = y ∷ []; raised = none }

  -- `yield` of all of `ys`, then `g`.
  abbrev pub then_from : List Y → Gen Y → Gen Y
  then_from ys g = record { yielded = ys ++ g.yielded; raised = g.raised }
