-- ===== src/ThreeYc.antt =====
-- `Validate3YCCommitment` of adobe_vipm/flows/helpers.py: the check that an order leaves the customer
-- with the licenses and consumables that a three-year commitment asks for.
pub mod Quantities
pub mod Totals
pub mod Minimum
pub mod Listed
pub mod Step
pub mod Guarantees
pub mod Lost
pub mod Effects
