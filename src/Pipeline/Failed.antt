-- ===== src/Pipeline/Failed.antt =====
-- The failed step of an error that leaves a pipeline of arbitrary steps, which may call `next_step`
-- never, once or often, and change the context after it.
use swo_adobe_vipm_extension.Base.{String, ◌≡◌, none, List, [], ◌∷◌, false, is_blank, All, arith}
use swo_adobe_vipm_extension.Pipeline.{
  Outcome, returned, raised, Action, Step, run, cursor, guarded, annotate, is_unset,
  default_error_handler,
}

module _ {S E : Type 0} where
  abbrev pub IsNamed : Step S E → Type 0
  IsNamed step = is_blank step.name ≡ false

  -- The step was named by this pipeline, or the error came in with a name from elsewhere.
  abbrev pub IsAnnotated : S × Outcome E → Type 0
  IsAnnotated (context, returned) = Unit
  IsAnnotated (context, raised error) = is_unset error.failed_step ≡ false

  guarded-IsAnnotated :
      (name : String) (next_step : Action S E) (r : S × Outcome E)
      → is_blank name ≡ false
      → IsAnnotated (guarded default_error_handler name next_step r)
  unfolding guarded annotate default_error_handler
  guarded-IsAnnotated name next_step (context, returned) h = tt
  guarded-IsAnnotated name next_step (context, raised error) h = ground arith

  cursor-IsAnnotated :
      (queue : List (Step S E)) (context : S)
      → All IsNamed queue
      → IsAnnotated (cursor default_error_handler queue context)
  unfolding cursor
  cursor-IsAnnotated [] context h = tt
  cursor-IsAnnotated (step ∷ queue) context h =
      guarded-IsAnnotated step.name (cursor default_error_handler queue)
        (step.call (cursor default_error_handler queue) context) h.0

  -- Whatever the steps do, an error that leaves a pipeline without a handler has a failed step.
  pub run-IsAnnotated :
      (queue : List (Step S E)) (context : S)
      → All IsNamed queue
      → IsAnnotated (run queue none context)
  unfolding run
  run-IsAnnotated queue context h = cursor-IsAnnotated queue context h
