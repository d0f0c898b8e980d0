-- ===== src/Purchase.antt =====
-- The validation of a purchase (adobe_vipm/flows/validation/purchase.py and shared.py,
-- adobe_vipm/adobe/validation.py): `Purchase/Checks` has the checks of single fields,
-- `Purchase/CustomerData` those of the customer data, `Purchase/Steps` the other steps of the pipeline.
pub mod Checks
pub mod CustomerData
pub mod Reports
pub mod Addresses
pub mod Contacts
pub mod Accepted
pub mod Steps
pub mod Prepare
pub mod Prepared
pub mod Duplicates
