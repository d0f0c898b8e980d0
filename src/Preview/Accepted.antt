-- ===== src/Preview/Accepted.antt =====
-- A preview that `get_preview_order` returns carries no refused discount.
use swo_adobe_vipm_extension.Base.{
  ℕ, zero, suc, ◌+◌, ◌<◌, ◌≡◌, ◌≢◌, refl, String, Option, none, some, List, [], ◌∷◌, Bool, true,
  false, arith, if◌then◌else◌, All, ◌++◌, ◌==◌, eq_iff,
}
use swo_adobe_vipm_extension.Context.{Exception, Reply, ok, raises}
use swo_adobe_vipm_extension.Preview.{Payload, Response, ResponseItem, FlexDiscount}
use swo_adobe_vipm_extension.Preview.Discounts.{
  Previewed, is_adobe_error, failed_of, with_last, after_round, attempts, get_failed_discount_codes,
  get_fail_discounts_for_cust_not_qualified, remove_failed_discount_codes, get_preview_order,
  failed_codes,
}

-- Adobe refuses a customer's discount (error 2141) only on a line that has a discount code.
abbrev pub RefusesOnlyDiscounts : (ℕ → Payload → Reply Response) → Type 0
RefusesOnlyDiscounts api =
    (n : ℕ) (payload : Payload) (ex : Exception)
    → api n payload ≡ raises ex
    → get_fail_discounts_for_cust_not_qualified ex payload ≢ ok []

-- Every discount of the answer is one that Adobe has accepted.
abbrev pub AllSucceeded : List ResponseItem → Type 0
AllSucceeded items =
    All (λ (item : ResponseItem). All (λ fd. fd.result ≡ "SUCCESS") item.flex_discounts) items

no_append : (xs ys : List String) → xs ++ ys ≡ [] → (xs ≡ []) × (ys ≡ [])
no_append [] ys h = (refl, h)
no_append (x ∷ xs) ys h = cc

all_succeeded :
    (fds : List FlexDiscount) → failed_codes fds ≡ [] → All (λ fd. fd.result ≡ "SUCCESS") fds
all_succeeded [] h = tt
all_succeeded (fd ∷ fds) h = by_result (fd.result == "SUCCESS") refl h (all_succeeded fds)
  where
    by_result :
        (b : Bool)
        → (fd.result == "SUCCESS") ≡ b
        → (if b then failed_codes fds else fd.code ∷ failed_codes fds) ≡ []
        → (failed_codes fds ≡ [] → All (λ fd. fd.result ≡ "SUCCESS") fds)
        → (fd.result ≡ "SUCCESS") × All (λ fd. fd.result ≡ "SUCCESS") fds
    by_result true e k rest = ((eq_iff fd.result "SUCCESS").0 e, rest k)
    by_result false e k rest = cc

succeeded : (items : List ResponseItem) → get_failed_discount_codes items ≡ [] → AllSucceeded items
unfolding get_failed_discount_codes
succeeded [] h = tt
succeeded (item ∷ items) h =
    let both = no_append (failed_codes item.flex_discounts) (get_failed_discount_codes items) h in
    (all_succeeded item.flex_discounts both.0, succeeded items both.1)

codes_of_round :
    (last found : Option Response) (ex : Exception) (b : Bool) (codes : Reply (List String))
    → (if b then with_last last codes else raises ex) ≡ ok (found, [])
    → codes ≡ ok []
codes_of_round last found ex true (ok codes) e = ground arith
codes_of_round last found ex true (raises e') e = cc
codes_of_round last found ex false codes e = cc

bound_step : (n k : ℕ) → n + suc k ≡ n + 1 + k
bound_step n k = omega arith

module _ (api : ℕ → Payload → Reply Response) where
  -- The last call was made with the payload that is left, and Adobe accepted all its discounts.
  abbrev pub IsAccepted : ℕ → Previewed → Option Response → Type 0
  IsAccepted bound r found =
      (response : Response) × (n : ℕ) × (found ≡ some response)
      × (r.requests ≡ n + 1)
      × (n < bound)
      × (api n r.payload ≡ ok response)
      × AllSucceeded response.line_items

  abbrev Sound : ℕ → Previewed → Type 0
  Sound bound r = (found : Option Response) → r.reply ≡ ok found → IsAccepted bound r found

  accepted_round :
      (n : ℕ) (payload : Payload) (last found : Option Response) (reply : Reply Response)
      → RefusesOnlyDiscounts api
      → api n payload ≡ reply
      → failed_of api payload last reply ≡ ok (found, [])
      → (response : Response) × (found ≡ some response)
        × (api n payload ≡ ok response)
        × AllSucceeded response.line_items
  accepted_round n payload last found (ok response) h e f =
      (response, ground arith, e, succeeded response.line_items (ground arith))
  accepted_round n payload last found (raises ex) h e f = absurd (
      h n payload ex e (
        codes_of_round last found ex (is_adobe_error ex)
          (get_fail_discounts_for_cust_not_qualified ex payload) f))

  round-Sound :
      (bound n : ℕ) (payload : Payload) (last : Option Response)
      (again : Option Response → Payload → Previewed) (x : Reply (Option Response × List String))
      → RefusesOnlyDiscounts api
      → n < bound
      → failed_of api payload last (api n payload) ≡ x
      → ((found : Option Response) (p : Payload) → Sound bound (again found p))
      → Sound bound (after_round api n payload again x)
  round-Sound bound n payload last again (raises e) h lt f ih = λ found e. cc
  round-Sound bound n payload last again (ok (response, [])) h lt f ih = λ found e.
      let (r, same, answer, accepted) =
        accepted_round n payload last response (api n payload) h refl f in
      (r, n, ground arith, refl, lt, answer, accepted)
  round-Sound bound n payload last again (ok (response, c ∷ cs)) h lt f ih =
      ih response (remove_failed_discount_codes (c ∷ cs) payload)

  attempts-Sound :
      (k n : ℕ) (last : Option Response) (payload : Payload)
      → RefusesOnlyDiscounts api
      → Sound (n + k) (attempts api k n last payload)
  unfolding attempts
  attempts-Sound zero n last payload h = λ found e. cc
  attempts-Sound (suc k) n last payload h =
      round-Sound (n + suc k) n payload last (attempts api k (n + 1))
        (failed_of api payload last (api n payload)) h (omega arith) refl
        (λ found p. rw (bound_step n k) (attempts-Sound k (n + 1) found p h))

-- If Adobe refuses a customer's discount only on a line that has one, then a call of
-- `get_preview_order` that returns has made one to five requests, the payload that it leaves is the
-- one of the last request, and the preview that it returns is Adobe's answer to that request,
-- in which every discount has the result SUCCESS.
pub get_preview_order-IsAccepted :
    (api : ℕ → Payload → Reply Response) (payload : Payload) (found : Option Response)
    → RefusesOnlyDiscounts api
    → (get_preview_order api payload).reply ≡ ok found
    → IsAccepted api 5 (get_preview_order api payload) found
unfolding get_preview_order
get_preview_order-IsAccepted api payload found h e = attempts-Sound api 5 0 none payload h found e
