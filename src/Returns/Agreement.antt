-- ===== src/Returns/Agreement.antt =====
-- A draft that `ValidateDownsizes` lets pass is not failed by the fulfilment's steps for want of
-- returnable orders, as long as Adobe's answers are the same.
use mathlib.Core.Path.{subst}
use swo_adobe_vipm_extension.Base.{
  ◌<◌, ◌≡◌, refl, sym, ap, ◌∙◌, String, Option, none, some, List, [], ◌∷◌, Bool, true, false,
  length, All, arith, if◌then◌else◌,
}
use swo_adobe_vipm_extension.Dict.{Dict, lookup, insert}
use swo_adobe_vipm_extension.Order.{Line}
use swo_adobe_vipm_extension.Customer.{Customer}
use swo_adobe_vipm_extension.Returns.{Returnable}
use swo_adobe_vipm_extension.Returns.Quantities.{lookup_quantity, returnable_by_quantity}
use swo_adobe_vipm_extension.Returns.Steps.{
  Outside, is_within_coterm_window, or_empty, is_found, returnable_of, check_lines, downsizes_of,
  validate_downsizes, record_orders, collect_line, collect_lines, returnable_orders_of,
  get_returnable_orders, all_found, validate_returnable_orders,
}
use swo_adobe_vipm_extension.Context.{Context, Exception, ok}
use swo_adobe_vipm_extension.Pipeline.Linear.{Ends, proceeds}
use swo_adobe_vipm_extension.Returns.Passed.{
  delta, CanReturn, nothing_returnable, adds_up, check_lines-Passed,
}

all_found-insert :
    (sku : String) (found : Option (List Returnable)) (d : Dict (Option (List Returnable)))
    → is_found found ≡ true
    → all_found d ≡ true
    → all_found (insert sku found d) ≡ true
all_found-insert sku found [] h k = ground arith
all_found-insert sku found ((j, w) ∷ d) h k = ground (arith, all_found-insert sku found d)

is_found-length : (sub : List Returnable) → 0 < length sub → is_found (some sub) ≡ true
is_found-length [] h = ground arith
is_found-length (x ∷ sub) h = refl

module _ (outside : Outside) (customer : Customer) where
  -- The end of the loop: it proceeds, every entry of the map is found, and no return orders are known.
  pub record Collected (e : Ends Context Exception) : Type 0 where
    pub context : Context
    pub proceeded : e ≡ proceeds context
    pub found : all_found context.adobe_returnable_orders ≡ true
    pub no_returns : context.adobe_return_orders ≡ []

  collect_lines-Collected :
      (start : Context) (lines : List Line) (found : Dict (Option (List Returnable)))
      → All (CanReturn outside customer start) lines
      → start.adobe_return_orders ≡ []
      → all_found found ≡ true
      → Collected
          (collect_lines outside customer lines (record start { adobe_returnable_orders = found }))
  unfolding collect_lines
  collect_lines-Collected start [] found h none_returned k = record {
    context = record start { adobe_returnable_orders = found };
    proceeded = refl;
    found = k;
    no_returns = none_returned;
  }
  collect_lines-Collected start (line ∷ lines) found h none_returned k =
      by_line h.0 (λ d. collect_lines-Collected start lines d h.1 none_returned)
    where
      now : Context
      now = record start { adobe_returnable_orders = found }

      by_orders :
          (orders : List Returnable)
          → returnable_of outside start customer [] line ≡ ok orders
          → Collected (collect_lines outside customer lines (record_orders outside now line orders))
          → Collected (
              collect_line outside (collect_lines outside customer lines) now line (
                returnable_of outside now customer
                  (or_empty (lookup line.item.vendor start.adobe_return_orders))
                  line))
      by_orders orders e c =
          subst
            (λ r.
              Collected (collect_line outside (collect_lines outside customer lines) now line r))
            (sym (
              ap
                (λ r.
                  returnable_of outside start customer (or_empty (lookup line.item.vendor r)) line)
                none_returned
              ∙ e))
            c

      by_line :
          CanReturn outside customer start line
          → ((d : Dict (Option (List Returnable)))
              → all_found d ≡ true
              → Collected (
                  collect_lines outside customer lines
                    (record start { adobe_returnable_orders = d })))
          → Collected (
              collect_line outside (collect_lines outside customer lines) now line (
                returnable_of outside now customer
                  (or_empty (lookup line.item.vendor start.adobe_return_orders))
                  line))
      by_line (nothing_returnable e) ih = by_orders [] e (ih found k)
      by_line (adds_up roi rois sub e same nonempty) ih =
          let entry = lookup_quantity (delta line) (returnable_by_quantity (roi ∷ rois)) in
          by_orders (roi ∷ rois) e (
            ih (insert line.item.vendor entry found) (
              all_found-insert line.item.vendor entry found
                (ap is_found same ∙ is_found-length sub nonempty) k))

module _ (outside : Outside) where
  -- The fulfilment's two steps, one after the other, both call `next_step`.
  pub record BothProceed (collected : Ends Context Exception) : Type 0 where
    pub context : Context
    pub first : collected ≡ proceeds context
    pub second : validate_returnable_orders context ≡ proceeds context

  found-BothProceed :
      (context : Context)
      → all_found context.adobe_returnable_orders ≡ true
      → validate_returnable_orders context ≡ proceeds context
  unfolding validate_returnable_orders
  found-BothProceed context h = rw h refl

  window-BothProceed :
      (customer : Customer) (start c : Context) (b : Bool)
      → start.adobe_return_orders ≡ []
      → start.adobe_returnable_orders ≡ []
      → (if b then proceeds start else check_lines outside customer start.downsize_lines start [])
        ≡ proceeds c
      → BothProceed
          (if b then proceeds start else collect_lines outside customer start.downsize_lines start)
  window-BothProceed customer start c true returns empty h = record {
    context = start;
    first = refl;
    second = found-BothProceed start (ap all_found empty);
  }
  window-BothProceed customer start c false returns empty h =
      let (_, passed) = check_lines-Passed outside customer start.downsize_lines start c h in
      let r =
        collect_lines-Collected outside customer start start.downsize_lines
          start.adobe_returnable_orders passed returns (ap all_found empty) in
      record {
        context = r.context;
        first = r.proceeded;
        second = found-BothProceed r.context r.found;
      }

  customer-BothProceed :
      (start c : Context) (customer : Option Customer)
      → start.adobe_return_orders ≡ []
      → start.adobe_returnable_orders ≡ []
      → downsizes_of outside start customer ≡ proceeds c
      → BothProceed (returnable_orders_of outside start customer)
  customer-BothProceed start c none returns empty h = cc
  customer-BothProceed start c (some customer) returns empty h =
      window-BothProceed customer start c (is_within_coterm_window outside.today customer) returns
        empty h

  -- If `ValidateDownsizes` calls `next_step` on a context without return orders or returnable orders,
  -- then `GetReturnableOrders`, with the same answers from Adobe, collects its orders without an
  -- exception, and `ValidateReturnableOrders` does not fail the order after it.
  pub validate_downsizes-BothProceed :
      (context c : Context)
      → context.adobe_return_orders ≡ []
      → context.adobe_returnable_orders ≡ []
      → validate_downsizes outside context ≡ proceeds c
      → BothProceed (get_returnable_orders outside context)
  unfolding validate_downsizes get_returnable_orders
  validate_downsizes-BothProceed context c returns empty h =
      customer-BothProceed context c context.adobe_customer returns empty h
