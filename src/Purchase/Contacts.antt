-- ===== src/Purchase/Contacts.antt =====
-- The contact that passes `validate_contact`.
use swo_adobe_vipm_extension.Base.{
  ◌≡◌, refl, List, [], ◌∷◌, Bool, true, false, if◌then◌else◌, is_blank,
}
use swo_adobe_vipm_extension.Order.{
  Contact, Value, null, text, choices, address, contact, ContactError, contact_error, mandatory,
}
use swo_adobe_vipm_extension.Context.{Context, customer_data, type_error}
use swo_adobe_vipm_extension.Pipeline.Linear.{Ends, stops, proceeds}
use swo_adobe_vipm_extension.Pipeline.Linear
use swo_adobe_vipm_extension.Purchase.Checks.{Rules, is_valid_phone_number}
use swo_adobe_vipm_extension.Purchase.CustomerData.{
  report, add, contact_errors, conclude_contact, check_contact,
}
use swo_adobe_vipm_extension.Purchase.Reports.{no_report}
use swo_adobe_vipm_extension.Purchase.Addresses.{append-nil_parts}

module _ (rules : Rules) where
  -- Names and an email of the allowed form, and a phone number, if there is one, of 40 characters at most.
  pub record HasContact (context : Context) : Type 0 where
    pub given : Contact
    pub value : customer_data context "contact" ≡ contact given
    pub first_name : rules.matches_first_last_name given.first_name ≡ true
    pub last_name : rules.matches_first_last_name given.last_name ≡ true
    pub email : rules.matches_email given.email ≡ true
    pub phone : is_valid_phone_number given.phone ≡ true

  add_lem : {A : Type 0} (b : Bool) (e : A) → add b e ≡ [] → b ≡ true
  add_lem true e h = refl
  add_lem false e h = cc

  contact_errors_lem :
      (context c : Context) (k : Contact) (errors : List ContactError)
      → customer_data context "contact" ≡ contact k
      → contact_errors rules k ≡ errors
      → conclude_contact rules context errors ≡ proceeds c
      → c.validation_succeeded ≡ true
      → HasContact context × (c ≡ context)
  unfolding contact_errors
  contact_errors_lem context c k [] value e h t =
      let (p, h1) = append-nil_parts rules (rules.matches_first_last_name k.first_name) _ _ e in
      let (q, h2) = append-nil_parts rules (rules.matches_first_last_name k.last_name) _ _ h1 in
      let (r, h3) = append-nil_parts rules (rules.matches_email k.email) _ _ h2 in
      (
        record {
          given = k;
          value = value;
          first_name = p;
          last_name = q;
          email = r;
          phone = add_lem (is_valid_phone_number k.phone) _ h3;
        },
        cc,
      )
  contact_errors_lem context c k (x ∷ xs) value e h t =
      no_report "contact" (λ title. contact_error title (x ∷ xs)) true context c h t

  mandatory_lem :
      (context c : Context) {A : Type 0}
      → report "contact" (λ title. contact_error title (mandatory ∷ [])) true context ≡ proceeds c
      → c.validation_succeeded ≡ true
      → A
  mandatory_lem context c h t =
      no_report "contact" (λ title. contact_error title (mandatory ∷ [])) true context c h t

  text_lem :
      (context c : Context) (b : Bool) {A : Type 0}
      → (if b
          then report "contact" (λ title. contact_error title (mandatory ∷ [])) true context
          else Linear.raises type_error context)
        ≡ proceeds c
      → c.validation_succeeded ≡ true
      → A
  text_lem context c true h t = mandatory_lem context c h t
  text_lem context c false h t = cc

  pub contact_lem :
      (context c : Context) (v : Value)
      → customer_data context "contact" ≡ v
      → check_contact rules context v ≡ proceeds c
      → c.validation_succeeded ≡ true
      → HasContact context × (c ≡ context)
  contact_lem context c (contact k) e h t =
      contact_errors_lem context c k (contact_errors rules k) e refl h t
  contact_lem context c null e h t = mandatory_lem context c h t
  contact_lem context c (choices []) e h t = mandatory_lem context c h t
  contact_lem context c (text s) e h t = text_lem context c (is_blank s) h t
  contact_lem context c (choices (_ ∷ _)) e h t = cc
  contact_lem context c (address _) e h t = cc
