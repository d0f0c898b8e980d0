-- ===== src/Transferring/Government.antt =====
-- `validate_government_lga_data` of adobe_vipm/flows/utils/validation.py: a product for large government
-- agencies is for the customers that Adobe knows as such, and only for them.
use swo_adobe_vipm_extension.Base.{
  Option, none, some, List, [], ◌∷◌, Bool, true, false, ◌==◌, if◌then◌else◌,
}
use swo_adobe_vipm_extension.Catalog.{MarketSegment, government, large_government_agency}
use swo_adobe_vipm_extension.Customer.{Benefit}
use swo_adobe_vipm_extension.Order.{ErrorData, government_is_lga, government_is_not_lga}

abbrev pub is_government : MarketSegment → Bool
is_government government = true
is_government large_government_agency = true
is_government _ = false

-- `is_large_government_agency_type`
abbrev pub is_large_agency : MarketSegment → Bool
is_large_agency large_government_agency = true
is_large_agency _ = false

-- The type of the first benefit is that of a large agency. The code takes the first benefit that has a
-- type, as all benefits of the model do.
abbrev pub has_agency_benefit : List Benefit → Bool
has_agency_benefit [] = false
has_agency_benefit (b ∷ benefits) = b.benefit_type == "LARGE_GOVERNMENT_AGENCY"

abbrev pub compare_agencies : Bool → Bool → Option ErrorData
compare_agencies true true = none
compare_agencies true false = some government_is_not_lga
compare_agencies false true = some government_is_lga
compare_agencies false false = none

-- The exception that is raised, as the error that every caller makes of it.
unfoldable pub validate_government_lga_data : MarketSegment → List Benefit → Option ErrorData
validate_government_lga_data segment benefits =
    if is_government segment
    then compare_agencies (is_large_agency segment) (has_agency_benefit benefits)
    else none
