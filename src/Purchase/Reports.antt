-- ===== src/Purchase/Reports.antt =====
-- A check of the customer data that passes has reported nothing; the company name that passes.
use swo_adobe_vipm_extension.Base.{
  ◌≤◌, ◌≡◌, refl, sym, ap, inl, inr, String, Option, none, some, Bool, true, false, not,
  if◌then◌else◌, len_text, arith, Bool-cases,
}
use swo_adobe_vipm_extension.Order.{
  Parameter, Value, null, text, choices, address, contact, ErrorData, company_name_length,
  company_name_chars,
}
use swo_adobe_vipm_extension.Params.{get_ordering_parameter}
use swo_adobe_vipm_extension.Context.{Context, Exception, customer_data}
use swo_adobe_vipm_extension.Pipeline.Linear.{Ends, stops, proceeds}
use swo_adobe_vipm_extension.Pipeline.Linear
use swo_adobe_vipm_extension.Purchase.Checks.{Rules, is_valid_company_name_length}
use swo_adobe_vipm_extension.Purchase.CustomerData.{
  invalid, ◌>=>◌, reported, report, check_company_name, finish,
}

pub chain-proceeds :
    (e : Ends Context Exception) (f : Context → Ends Context Exception) (c : Context)
    → e >=> f ≡ proceeds c
    → (m : Context) × (e ≡ proceeds m) × (f m ≡ proceeds c)
chain-proceeds (stops m) f c h = cc
chain-proceeds (proceeds m) f c h = (m, refl, h)
chain-proceeds (Linear.raises e m) f c h = cc

abbrev pub flag : Ends Context Exception → Bool
flag (stops c) = c.validation_succeeded
flag (proceeds c) = c.validation_succeeded
flag (Linear.raises e c) = c.validation_succeeded

report-false :
    (k : String) (error : String → ErrorData) (required : Bool) (context c : Context)
    → report k error required context ≡ proceeds c
    → c.validation_succeeded ≡ false
unfolding report
report-false k error required context c h = by_param (get_ordering_parameter context.order k) h
  where
    by_param :
        (param : Option Parameter)
        → reported k error required (invalid context) param ≡ proceeds c
        → c.validation_succeeded ≡ false
    by_param none h = cc
    by_param (some p) h = sym (ap flag h)

-- A report is no way to a context that has not failed.
pub no_report :
    (k : String) (error : String → ErrorData) (required : Bool) (context c : Context) {A : Type 0}
    → report k error required context ≡ proceeds c
    → c.validation_succeeded ≡ true
    → A
no_report k error required context c h t = cc (report-false k error required context c h)

pub finish-proceeds :
    (m c : Context) → finish m ≡ proceeds c → (c ≡ m) × (m.validation_succeeded ≡ true)
finish-proceeds m c h = elim (Bool-cases m.validation_succeeded) [
  | inl e ↦ (ground (arith, h, e), e)
  | inr e ↦ ground (arith, h, e)
]

length_lem :
    (name : String)
    → is_valid_company_name_length name ≡ true
    → (4 ≤ len_text name) × (len_text name ≤ 59)
unfolding is_valid_company_name_length
length_lem name h = (ground arith, ground arith)

module _ (rules : Rules) where
  -- A name of 4 to 59 characters, of those that are allowed.
  pub record HasCompanyName (context : Context) : Type 0 where
    pub name : String
    pub value : customer_data context "companyName" ≡ text name
    pub min_length : 4 ≤ len_text name
    pub max_length : len_text name ≤ 59
    pub characters : rules.matches_company_name name ≡ true

  pub company_name_lem :
      (context c : Context) (v : Value)
      → customer_data context "companyName" ≡ v
      → check_company_name rules context v ≡ proceeds c
      → c.validation_succeeded ≡ true
      → HasCompanyName context × (c ≡ context)
  company_name_lem context c (text name) e h t =
      by_checks (is_valid_company_name_length name) (rules.matches_company_name name) refl refl h
    where
      by_checks :
          (b d : Bool)
          → is_valid_company_name_length name ≡ b
          → rules.matches_company_name name ≡ d
          → (if not b
              then report "companyName" company_name_length true context
              else if not d
              then report "companyName" company_name_chars true context
              else proceeds context)
            ≡ proceeds c
          → HasCompanyName context × (c ≡ context)
      by_checks true true valid allowed h = (
        record {
          name = name;
          value = e;
          min_length = (length_lem name valid).0;
          max_length = (length_lem name valid).1;
          characters = allowed;
        },
        cc,
      )
      by_checks true false valid allowed h =
          no_report "companyName" company_name_chars true context c h t
      by_checks false d valid allowed h =
          no_report "companyName" company_name_length true context c h t
  company_name_lem context c null e h t = cc
  company_name_lem context c (choices _) e h t = cc
  company_name_lem context c (address _) e h t = cc
  company_name_lem context c (contact _) e h t = cc
