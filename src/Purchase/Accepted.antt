-- ===== src/Purchase/Accepted.antt =====
-- The customer data that `ValidateCustomerData` accepts.
use mathlib.Core.Path.{subst}
use swo_adobe_vipm_extension.Base.{
  ◌≡◌, refl, sym, ap, ◌∙◌, String, Option, none, some, Bool, true, false, ◌&&◌, if◌then◌else◌,
}
use swo_adobe_vipm_extension.Order.{
  Parameter, ErrorData, quantity_3yc_licenses, quantity_3yc_consumables,
}
use swo_adobe_vipm_extension.Params.{get_ordering_parameter}
use swo_adobe_vipm_extension.Context.{Context, Reply, ok, raises, customer_data}
use swo_adobe_vipm_extension.Pipeline.Linear.{proceeds}
use swo_adobe_vipm_extension.Purchase.Checks.{Rules, is_valid_minimum_quantity}
use swo_adobe_vipm_extension.Purchase.CustomerData.{
  invalid, ◌>=>◌, validate_company_name, validate_address, validate_contact, check_minimum,
  is_falsy, named, check_no_minimums, wants_3yc, check_minimum_of, validate_3yc, finish,
  validate_customer_data,
}
use swo_adobe_vipm_extension.Purchase.Reports.{
  chain-proceeds, no_report, finish-proceeds, flag, HasCompanyName, company_name_lem,
}
use swo_adobe_vipm_extension.Purchase.Addresses.{HasAddress, address_lem}
use swo_adobe_vipm_extension.Purchase.Contacts.{HasContact, contact_lem}

-- A wish for a three-year commitment comes with a quantity, and each quantity given is high enough.
pub record HasCommitment (context : Context) : Type 0 where
  pub consumables :
      is_valid_minimum_quantity 1000 (customer_data context "3YCConsumables") ≡ ok true
  pub licenses : is_valid_minimum_quantity 10 (customer_data context "3YCLicenses") ≡ ok true
  pub one_given :
      (is_falsy (customer_data context "3YCLicenses")
        && is_falsy (customer_data context "3YCConsumables"))
      ≡ false

minimum_lem :
    (k : String) (error : String → ErrorData) (context c : Context) (r : Reply Bool)
    → check_minimum k error context r ≡ proceeds c
    → c.validation_succeeded ≡ true
    → (r ≡ ok true) × (c ≡ context)
minimum_lem k error context c (ok true) h t = (refl, cc)
minimum_lem k error context c (ok false) h t = no_report k error false context c h t
minimum_lem k error context c (raises e) h t = cc

no_minimums_lem :
    (context c : Context) (b : Bool)
    → (if b
        then named
            (invalid context)
            (get_ordering_parameter context.order "3YCLicenses")
            (get_ordering_parameter context.order "3YCConsumables")
        else proceeds context)
      ≡ proceeds c
    → c.validation_succeeded ≡ true
    → (b ≡ false) × (c ≡ context)
no_minimums_lem context c false h t = (refl, cc)
no_minimums_lem context c true h t =
    named_lem (get_ordering_parameter context.order "3YCLicenses")
      (get_ordering_parameter context.order "3YCConsumables") h
  where
    named_lem :
        (l m : Option Parameter)
        → named (invalid context) l m ≡ proceeds c
        → (true ≡ false) × (c ≡ context)
    named_lem (some l) (some m) h = cc (ap flag h)
    named_lem (some l) none h = cc
    named_lem none m h = cc

three_year_lem :
    (context c : Context) (b : Bool)
    → (if b
        then check_minimum_of "3YCConsumables" 1000 quantity_3yc_consumables context
          >=> check_minimum_of "3YCLicenses" 10 quantity_3yc_licenses
          >=> check_no_minimums
        else proceeds context)
      ≡ proceeds c
    → c.validation_succeeded ≡ true
    → (b ≡ true → HasCommitment c) × (c ≡ context)
three_year_lem context c false h t = (λ e. cc, cc)
three_year_lem context c true h t =
    let first = check_minimum_of "3YCConsumables" 1000 quantity_3yc_consumables context in
    let (m2, h2, f2) =
      chain-proceeds (first >=> check_minimum_of "3YCLicenses" 10 quantity_3yc_licenses)
        check_no_minimums c h in
    let (m1, h1, f1) =
      chain-proceeds first (check_minimum_of "3YCLicenses" 10 quantity_3yc_licenses) m2 h2 in
    let (one, same3) =
      no_minimums_lem m2 c
        (is_falsy (customer_data m2 "3YCLicenses") && is_falsy (customer_data m2 "3YCConsumables"))
        f2 t in
    let t2 : m2.validation_succeeded ≡ true =
      ap (λ (x : Context). x.validation_succeeded) (sym same3) ∙ t in
    let (licenses, same2) =
      minimum_lem "3YCLicenses" quantity_3yc_licenses m1 m2
        (is_valid_minimum_quantity 10 (customer_data m1 "3YCLicenses")) f1 t2 in
    let t1 : m1.validation_succeeded ≡ true =
      ap (λ (x : Context). x.validation_succeeded) (sym same2) ∙ t2 in
    let (consumables, same1) =
      minimum_lem "3YCConsumables" quantity_3yc_consumables context m1
        (is_valid_minimum_quantity 1000 (customer_data context "3YCConsumables")) h1 t1 in
    let to_m2 : m2 ≡ context = same2 ∙ same1 in
    let done : HasCommitment context = record {
      consumables = consumables;
      licenses =
          ap (λ (x : Context). is_valid_minimum_quantity 10 (customer_data x "3YCLicenses"))
            (sym same1)
          ∙ licenses;
      one_given =
          ap
            (λ (x : Context).
              is_falsy (customer_data x "3YCLicenses")
              && is_falsy (customer_data x "3YCConsumables"))
            (sym to_m2)
          ∙ one;
    } in
    (λ e. subst HasCommitment (sym (same3 ∙ to_m2)) done, same3 ∙ to_m2)

pub record IsAccepted (rules : Rules) (context c : Context) : Type 0 where
  pub company_name : HasCompanyName rules context
  pub address : HasAddress rules context c
  pub contact : HasContact rules c
  pub three_year : wants_3yc (customer_data c "3YC") ≡ true → HasCommitment c
  pub succeeded : c.validation_succeeded ≡ true

-- If `ValidateCustomerData` calls `next_step`, then the company name has 4 to 59 of the allowed
-- characters, the address is of a configured country and each of its fields within its bounds, the
-- contact is given and well-formed, a wish for a three-year commitment comes with a quantity of at
-- least the minimum, no check has failed, and the step has changed nothing but the state of the
-- address, to the only suggestion for an invalid one.
pub validate_customer_data-IsAccepted :
    (rules : Rules) (context c : Context)
    → validate_customer_data rules context ≡ proceeds c
    → IsAccepted rules context c
unfolding validate_customer_data validate_company_name validate_address validate_contact
    validate_3yc
validate_customer_data-IsAccepted rules context c h =
    let e1 = validate_company_name rules context in
    let e2 = e1 >=> validate_address rules in
    let e3 = e2 >=> validate_contact rules in
    let (m4, h4, f4) = chain-proceeds (e3 >=> validate_3yc) finish c h in
    let (m3, h3, f3) = chain-proceeds e3 validate_3yc m4 h4 in
    let (m2, h2, f2) = chain-proceeds e2 (validate_contact rules) m3 h3 in
    let (m1, h1, f1) = chain-proceeds e1 (validate_address rules) m2 h2 in
    let (same5, t4) = finish-proceeds m4 c f4 in
    let (commitment, same4) = three_year_lem m3 m4 (wants_3yc (customer_data m3 "3YC")) f3 t4 in
    let t3 = ap (λ (x : Context). x.validation_succeeded) (sym same4) ∙ t4 in
    let (person, same3) = contact_lem rules m2 m3 (customer_data m2 "contact") refl f2 t3 in
    let t2 = ap (λ (x : Context). x.validation_succeeded) (sym same3) ∙ t3 in
    let place = address_lem rules m1 m2 (customer_data m1 "address") refl f1 t2 in
    let t1 : m1.validation_succeeded ≡ true =
      ap (λ (x : Context). x.validation_succeeded) (sym place.stored) ∙ t2 in
    let (name, same1) =
      company_name_lem rules context m1 (customer_data context "companyName") refl h1 t1 in
    let from_m2 : m2 ≡ c = sym (same5 ∙ same4 ∙ same3) in
    let from_m3 : m3 ≡ c = sym (same5 ∙ same4) in
    let from_m4 : m4 ≡ c = sym same5 in
    record {
      company_name = name;
      address = subst (λ x. HasAddress rules x c) same1 (subst (HasAddress rules m1) from_m2 place);
      contact = subst (HasContact rules) from_m2 person;
      three_year =
          subst (λ x. wants_3yc (customer_data x "3YC") ≡ true → HasCommitment x) from_m4
            (λ w.
              commitment (ap (λ (x : Context). wants_3yc (customer_data x "3YC")) (sym same4) ∙ w));
      succeeded = ap (λ (x : Context). x.validation_succeeded) same5 ∙ t4;
    }
