-- ===== src/Pipeline.antt =====
-- adobe_vipm/flows/pipeline.py: steps that are handed the rest of the pipeline as `next_step`, the
-- cursor that runs them and annotates what they raise, and the pipeline.
-- The mutable `client` and `context` are the state `S`, which comes back also after a raise.
pub mod Linear
pub mod Failed
pub mod Stages
use swo_adobe_vipm_extension.Base.{
  String, Option, none, some, List, [], ◌∷◌, Bool, true, is_blank, if◌then◌else◌,
}

-- An exception that has been raised, with the attribute `mpt_failed_step` that a cursor may set.
pub record Raised (E : Type 0) : Type 0 where
  pub error : E
  pub failed_step : Option String

pub data Outcome (E : Type 0) : Type 0 where
  returned : Outcome E
  raised : Raised E → Outcome E

-- A call that mutates the state: `NextStep`, and a step that has been given its `next_step`.
abbrev pub Action : Type 0 → Type 0 → Type 0
Action S E = S → S × Outcome E

-- `Step`: its class name and its `__call__`.
pub record Step (S E : Type 0) : Type 0 where
  pub name : String
  pub call : Action S E → Action S E

abbrev pub ErrorHandler : Type 0 → Type 0 → Type 0
ErrorHandler S E = Raised E → Action S E → Action S E

-- `get_failed_step(error)`
abbrev pub get_failed_step : {E : Type 0} → Raised E → Option String
get_failed_step error = error.failed_step

-- `not get_failed_step(error)`: no step name, or an empty one.
abbrev pub is_unset : Option String → Bool
is_unset none = true
is_unset (some name) = is_blank name

-- What a cursor records on an error that comes out of its step.
unfoldable pub annotate : {E : Type 0} → String → Raised E → Raised E
annotate name error =
    if is_unset (get_failed_step error) then record error { failed_step = some name } else error

module _ {S E : Type 0} where
  -- `_default_error_handler`: raise the error again.
  unfoldable pub default_error_handler : ErrorHandler S E
  default_error_handler error next_step context = (context, raised error)

  -- The `try` of `Cursor.__call__`.
  unfoldable pub guarded : ErrorHandler S E → String → Action S E → S × Outcome E → S × Outcome E
  guarded handler name next_step (context, returned) = (context, returned)
  guarded handler name next_step (context, raised error) =
      handler (annotate name error) next_step context

  -- `Cursor.__call__`
  unfoldable pub cursor : ErrorHandler S E → List (Step S E) → Action S E
  cursor handler [] context = (context, returned)
  cursor handler (current_step ∷ queue) context =
      guarded handler current_step.name (cursor handler queue)
        (current_step.call (cursor handler queue) context)

  -- `error_handler or _default_error_handler`
  abbrev pub handler_or_default : Option (ErrorHandler S E) → ErrorHandler S E
  handler_or_default none = default_error_handler
  handler_or_default (some handler) = handler

  -- `Pipeline.run`
  unfoldable pub run : List (Step S E) → Option (ErrorHandler S E) → Action S E
  unfolding cursor guarded default_error_handler annotate
  run queue error_handler context = cursor (handler_or_default error_handler) queue context
