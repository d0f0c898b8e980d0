-- ===== src/Pipeline/Stages.antt =====
-- Linear pipelines by what their steps do to a property of the state.
use swo_adobe_vipm_extension.Base.{List, [], ◌∷◌}
use swo_adobe_vipm_extension.Pipeline.{Outcome, returned, raised}
use swo_adobe_vipm_extension.Pipeline.Linear.{
  Ends, stops, proceeds, raises, LinearStep, conclude, run_linear,
}

module _ {S E : Type 0} where
  -- A step ends: where it stops `Stopped` holds, where it proceeds `Next`.
  pub data EndsWith (Stopped Next : S → Type 0) : Ends S E → Type 0 where
    stopped : {s : S} → Stopped s → EndsWith Stopped Next (stops s)
    proceeded : {s : S} → Next s → EndsWith Stopped Next (proceeds s)
    failed : {e : E} {s : S} → EndsWith Stopped Next (raises e s)

  -- The pipeline has returned with the property, or raised.
  abbrev pub Returns : (S → Type 0) → S × Outcome E → Type 0
  Returns P (s, returned) = P s
  Returns P (s, raised e) = Unit

  pub conclude-Returns :
      {P Next : S → Type 0} (l : LinearStep S E) (ls : List (LinearStep S E)) (e : Ends S E)
      → EndsWith P Next e
      → ((s : S) → Next s → Returns P (run_linear ls s))
      → Returns P (conclude l.name (run_linear ls) e)
  conclude-Returns l ls (stops s) (stopped h) k = h
  conclude-Returns l ls (proceeds s) (proceeded h) k = k s h
  conclude-Returns l ls (raises e s) failed k = tt

  -- What holds before each of the steps; `closed` where no state comes through.
  pub data Stages (P : S → Type 0) : List (LinearStep S E) → (S → Type 0) → Type 1 where
    finished : {I : S → Type 0} → ((s : S) → I s → P s) → Stages P [] I
    closed : {ls : List (LinearStep S E)} → Stages P ls (λ _. ⊥)
    stage :
        {I Next : S → Type 0} {l : LinearStep S E} {ls : List (LinearStep S E)}
        → ((s : S) → I s → EndsWith P Next (l.act s))
        → Stages P ls Next
        → Stages P (l ∷ ls) I

  pub run_linear-Returns :
      {P I : S → Type 0} (ls : List (LinearStep S E))
      → Stages P ls I
      → (s : S) → I s
      → Returns P (run_linear ls s)
  unfolding run_linear
  run_linear-Returns [] (finished f) s h = f s h
  run_linear-Returns ls closed s h = absurd h
  run_linear-Returns (l ∷ ls) (stage f k) s h =
      conclude-Returns l ls (l.act s) (f s h) (run_linear-Returns ls k)
