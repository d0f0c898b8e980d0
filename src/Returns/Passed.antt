-- ===== src/Returns/Passed.antt =====
-- A draft that `ValidateDownsizes` lets pass: what every downsize line then has to return.
use swo_adobe_vipm_extension.Base.{
  ℕ, ◌-◌, ◌<◌, ◌≡◌, ◌≢◌, refl, Option, none, some, List, [], ◌∷◌, ◌++◌, length, All, arith,
}
use swo_adobe_vipm_extension.Order.{Line, DownsizeError}
use swo_adobe_vipm_extension.Customer.{Customer}
use swo_adobe_vipm_extension.Returns.{Returnable}
use swo_adobe_vipm_extension.Returns.Quantities.{lookup_quantity, returnable_by_quantity}
use swo_adobe_vipm_extension.Returns.Fewest.{
  Answer, impossible, fewest_orders, lookup-returnable_by_quantity,
}
use swo_adobe_vipm_extension.Returns.Steps.{
  Outside, returnable_of, check_orders, invalid, add_error, check_line, check_lines,
}
use swo_adobe_vipm_extension.Context.{Context, Exception, Reply, ok, raises}
use swo_adobe_vipm_extension.Pipeline.Linear.{Ends, proceeds}

abbrev pub delta : Line → ℕ
delta line = line.old_quantity - line.quantity

module _ (outside : Outside) (customer : Customer) where
  -- The line has nothing to return, or some of its returnable orders add up to its delta.
  pub data CanReturn (context : Context) (line : Line) : Type 0 where
    nothing_returnable :
        returnable_of outside context customer [] line ≡ ok [] → CanReturn context line
    adds_up :
        (roi : Returnable) (rois sub : List Returnable)
        → returnable_of outside context customer [] line ≡ ok (roi ∷ rois)
        → lookup_quantity (delta line) (returnable_by_quantity (roi ∷ rois)) ≡ some sub
        → 0 < length sub
        → CanReturn context line

  abbrev Rest : Type 0
  Rest = Context → List DownsizeError → Ends Context Exception

  abbrev NeverProceeds : Rest → Type 0
  NeverProceeds rest =
      (context c : Context) (errors : List DownsizeError)
      → 0 < length errors
      → rest context errors ≢ proceeds c

  length-snoc : (errors : List DownsizeError) (e : DownsizeError) → 0 < length (errors ++ e ∷ [])
  length-snoc [] e = omega arith
  length-snoc (x ∷ errors) e = omega arith

  add_error-never :
      (rest : Rest) (context c : Context) (errors : List DownsizeError)
      (found : Option DownsizeError)
      → NeverProceeds rest
      → 0 < length errors
      → add_error outside rest context errors found ≢ proceeds c
  add_error-never rest context c errors none h n = h context c errors n
  add_error-never rest context c errors (some e) h n =
      h (invalid outside context) c (errors ++ e ∷ []) (length-snoc errors e)

  check_line-never :
      (rest : Rest) (context c : Context) (errors : List DownsizeError) (line : Line)
      (r : Reply (List Returnable))
      → NeverProceeds rest
      → 0 < length errors
      → check_line outside rest context errors line r ≢ proceeds c
  check_line-never rest context c errors line (raises ex) h n = λ e. cc
  check_line-never rest context c errors line (ok orders) h n =
      add_error-never rest context c errors (check_orders outside line orders) h n

  check_lines-never : (lines : List Line) → NeverProceeds (check_lines outside customer lines)
  unfolding check_lines
  check_lines-never [] context c [] n = omega arith
  check_lines-never [] context c (x ∷ errors) n = λ e. cc
  check_lines-never (line ∷ lines) context c errors n =
      check_line-never (check_lines outside customer lines) context c errors line
        (returnable_of outside context customer [] line) (check_lines-never lines) n

  CanReturn-orders :
      (context : Context) (line : Line) (orders : List Returnable)
      → returnable_of outside context customer [] line ≡ ok orders
      → check_orders outside line orders ≡ none
      → CanReturn context line
  CanReturn-orders context line [] e h = nothing_returnable e
  CanReturn-orders context line (roi ∷ rois) e h =
      by_answer (lookup_quantity (delta line) (returnable_by_quantity (roi ∷ rois))) refl
        (lookup-returnable_by_quantity (roi ∷ rois) (delta line))
    where
      by_answer :
          (found : Option (List Returnable))
          → lookup_quantity (delta line) (returnable_by_quantity (roi ∷ rois)) ≡ found
          → Answer (roi ∷ rois) (delta line) found
          → CanReturn context line
      by_answer none same (impossible no_other) = cc
      by_answer (some s) same (fewest_orders sub part nonempty sum least) =
          adds_up roi rois s e same nonempty

  -- What a loop without errors that proceeds has seen.
  abbrev pub Passed : Context → Context → List Line → Type 0
  Passed context c lines = (c ≡ context) × All (CanReturn context) lines

  check_line-Passed :
      (lines : List Line) (context c : Context) (line : Line) (r : Reply (List Returnable))
      → returnable_of outside context customer [] line ≡ r
      → (check_lines outside customer lines context [] ≡ proceeds c → Passed context c lines)
      → check_line outside (check_lines outside customer lines) context [] line r ≡ proceeds c
      → Passed context c (line ∷ lines)
  check_line-Passed lines context c line (raises ex) e ih h = cc
  check_line-Passed lines context c line (ok orders) e ih h =
      by_check (check_orders outside line orders) refl h
    where
      by_check :
          (found : Option DownsizeError)
          → check_orders outside line orders ≡ found
          → add_error outside (check_lines outside customer lines) context [] found ≡ proceeds c
          → Passed context c (line ∷ lines)
      by_check none same h =
          let (unchanged, rest) = ih h in
          (unchanged, (CanReturn-orders context line orders e same, rest))
      by_check (some x) same h =
          absurd (check_lines-never lines (invalid outside context) c (x ∷ []) (omega arith) h)

  pub check_lines-Passed :
      (lines : List Line) (context c : Context)
      → check_lines outside customer lines context [] ≡ proceeds c
      → Passed context c lines
  unfolding check_lines
  check_lines-Passed [] context c h = (cc, tt)
  check_lines-Passed (line ∷ lines) context c h =
      check_line-Passed lines context c line (returnable_of outside context customer [] line) refl
        (check_lines-Passed lines context c) h
