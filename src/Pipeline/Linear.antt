-- ===== src/Pipeline/Linear.antt =====
-- Pipelines whose steps run one after another: each step changes the context and then returns, calls
-- `next_step` as its last action, or raises. Such a pipeline is a loop over its steps.
use swo_adobe_vipm_extension.Base.{
  String, ◌≡◌, refl, none, some, List, [], ◌∷◌, map, false, is_blank, All, arith,
}
use swo_adobe_vipm_extension.Pipeline.{
  Outcome, returned, raised, Action, Step, run, cursor, guarded, annotate, default_error_handler,
}

-- How one step ends: it returns without `next_step`, calls it, or raises.
pub data Ends (S E : Type 0) : Type 0 where
  stops proceeds : S → Ends S E
  raises : E → S → Ends S E

pub record LinearStep (S E : Type 0) : Type 0 where
  pub name : String
  pub act : S → Ends S E

module _ {S E : Type 0} where
  abbrev pub follow : Action S E → Ends S E → S × Outcome E
  follow next_step (stops context) = (context, returned)
  follow next_step (proceeds context) = next_step context
  follow next_step (raises error context) =
      (context, raised (record { error = error; failed_step = none }))

  abbrev pub as_step : LinearStep S E → Step S E
  as_step l = record { name = l.name; call = λ next_step context. follow next_step (l.act context) }

  -- The loop: run each step in order until one stops or raises, and name the step that raised.
  abbrev pub conclude : String → Action S E → Ends S E → S × Outcome E
  conclude name rest (stops context) = (context, returned)
  conclude name rest (proceeds context) = rest context
  conclude name rest (raises error context) =
      (context, raised (record { error = error; failed_step = some name }))

  unfoldable pub run_linear : List (LinearStep S E) → Action S E
  run_linear [] context = (context, returned)
  run_linear (l ∷ ls) context = conclude l.name (run_linear ls) (l.act context)

  abbrev pub HasName : LinearStep S E → Type 0
  HasName l = is_blank l.name ≡ false

  -- An error that a loop raises carries a step name.
  abbrev HasStep : S × Outcome E → Type 0
  HasStep (context, returned) = Unit
  HasStep (context, raised error) =
      (name : String) × (error.failed_step ≡ some name) × (is_blank name ≡ false)

  conclude-HasStep :
      (l : LinearStep S E) (rest : Action S E) (e : Ends S E)
      → HasName l
      → ((context : S) → HasStep (rest context))
      → HasStep (conclude l.name rest e)
  conclude-HasStep l rest (stops context) h k = tt
  conclude-HasStep l rest (proceeds context) h k = k context
  conclude-HasStep l rest (raises error context) h k = (l.name, refl, h)

  run_linear-HasStep :
      (ls : List (LinearStep S E))
      → All HasName ls
      → (context : S) → HasStep (run_linear ls context)
  unfolding run_linear
  run_linear-HasStep [] h context = tt
  run_linear-HasStep (l ∷ ls) h context =
      conclude-HasStep l (run_linear ls) (l.act context) h.0 (run_linear-HasStep ls h.1)

  -- A cursor passes on what comes out annotated.
  guarded-HasStep :
      (name : String) (next_step : Action S E) (r : S × Outcome E)
      → HasStep r
      → guarded default_error_handler name next_step r ≡ r
  unfolding guarded annotate default_error_handler
  guarded-HasStep name next_step (context, returned) h = refl
  guarded-HasStep name next_step (context, raised error) h = ground arith

  guarded-follow :
      (l : LinearStep S E) (next_step rest : Action S E) (e : Ends S E)
      → HasName l
      → ((context : S) → next_step context ≡ rest context)
      → ((context : S) → HasStep (rest context))
      → guarded default_error_handler l.name next_step (follow next_step e) ≡ conclude l.name rest e
  unfolding guarded annotate default_error_handler
  guarded-follow l next_step rest (stops context) h same k = refl
  guarded-follow l next_step rest (proceeds context) h same k =
      rw (same context) (guarded-HasStep l.name next_step (rest context) (k context))
  guarded-follow l next_step rest (raises error context) h same k = refl

  cursor-eq-run_linear :
      (ls : List (LinearStep S E)) (context : S)
      → All HasName ls
      → cursor default_error_handler (map as_step ls) context ≡ run_linear ls context
  unfolding cursor run_linear
  cursor-eq-run_linear [] context h = refl
  cursor-eq-run_linear (l ∷ ls) context h =
      guarded-follow l (cursor default_error_handler (map as_step ls)) (run_linear ls)
        (l.act context) h.0 (λ c. cursor-eq-run_linear ls c h.1) (run_linear-HasStep ls h.1)

-- A pipeline without an error handler, whose steps call `next_step` at most once and last, is the
-- loop over its steps: they run in order up to the first that returns early or raises, and an
-- error that comes out names the very step that raised it, where every step has a name.
pub run-eq-run_linear :
    {S E : Type 0} (ls : List (LinearStep S E)) (context : S)
    → All HasName ls
    → run (map as_step ls) none context ≡ run_linear ls context
unfolding run
run-eq-run_linear ls context h = cursor-eq-run_linear ls context h
