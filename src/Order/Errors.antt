-- ===== src/Order/Errors.antt =====
-- The validation errors of adobe_vipm/flows/constants.py: one constructor for each `ERR_…` constant
-- that the modelled flows use, with the arguments that its message is formatted with.
use swo_adobe_vipm_extension.Base.{ℕ, String, Option, List, Bool}
use swo_adobe_vipm_extension.Base.Int.{ℤ}

-- The texts that fill `ERR_COMMITMENT_3YC_VALIDATION`.
pub data CommitmentError : Type 0 where
  item_not_found : String → CommitmentError
  licenses consumables : ℤ → ℤ → CommitmentError
  below_consumables : ℤ → ℕ → CommitmentError
  generic : ℕ → ℕ → CommitmentError

pub data AddressError : Type 0 where
  country_code state_or_province postal_code_format postal_code_length : AddressError
  address_line_1_length address_line_2_length city_length : AddressError
  state_did_you_mean : List String → AddressError

pub data ContactError : Type 0 where
  mandatory first_name_format last_name_format email_format phone_number_length : ContactError

-- The texts of `ERR_INVALID_DOWNSIZE_QUANTITY`: no order but the first purchase, or the quantities that
-- can be returned, whether any combination of them can, and the last day that they can.
pub data DownsizeError : Type 0 where
  first_po : String → ℕ → ℕ → DownsizeError
  quantity : String → ℕ → List ℕ → Bool → ℕ → DownsizeError

pub data ErrorData : Type 0 where
  commitment_3yc_validation : CommitmentError → ErrorData
  commitment_3yc_expired : Option String → ErrorData
  no_minimums_3yc : String → String → ErrorData
  quantity_3yc_licenses quantity_3yc_consumables : String → ErrorData
  company_name_length company_name_chars : String → ErrorData
  address_error : String → List AddressError → ErrorData
  contact_error : String → List ContactError → ErrorData
  duplicated_items existing_items : List String → ErrorData
  lga_quantities : ErrorData
  adobe_error : String → ErrorData
  sku_not_found : String → ErrorData
  sku_availability : List String → List String → ErrorData
  -- the title of the parameter, and what is wrong; or the membership and Adobe's error
  membership_id membership_processing : String → String → ErrorData
  membership_inactive : String → ErrorData
  reseller_change_preview : String → String → ErrorData
  membership_id_item : String → String → ErrorData
  membership_id_empty updating_transfer_items : ErrorData
  processing_transfer_lines : List String → ErrorData
  reseller_change_lines : ErrorData
  government_is_lga government_is_not_lga : ErrorData
  invalid_downsize_quantity : List DownsizeError → ErrorData
  no_returnable_orders : List String → ErrorData
  invalid_termination_quantity : ErrorData
  invalid_renewal_state : String → ErrorData
