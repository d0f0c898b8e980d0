-- ===== src/Lib.antt =====
-- The verification library of the Adobe VIPM extension, which processes orders of a marketplace
-- platform: it validates draft orders and fulfils them at Adobe. An order runs through a pipeline of
-- steps that share a context; each step calls the next, returns early with an error on the order, or
-- raises.
--
-- The files and the code that they model:
-- - Base: numbers, integers, lists and texts as Python has them, and `int(text)`.
-- - Pipeline: adobe_vipm/flows/pipeline.py. `cursor` is Cursor.__call__, `run` is Pipeline.run; the
--   mutable context is passed on as a state. `Pipeline/Linear` is the view of a step that calls
--   `next_step` last, as `Ends`; the steps of this library are written that way.
-- - Dict: Python's dict with text keys, in insertion order.
-- - Order, Params: the order of the platform with its lines, parameters and errors;
--   adobe_vipm/flows/utils/order.py and parameter.py.
-- - Customer, Catalog: what Adobe and the SKU mapping give; adobe_vipm/utils.py,
--   adobe_vipm/adobe/utils.py, adobe_vipm/airtable/models.py.
-- - Context: adobe_vipm/flows/context.py, the functions of adobe_vipm/flows/fulfillment/shared.py that
--   fail and query orders, and the exceptions. The calls of the platform are recorded in order.
-- - ThreeYc: the step Validate3YCCommitment of adobe_vipm/flows/helpers.py; `ThreeYc/Quantities` the
--   counts, `ThreeYc/Minimum` the comparison, `ThreeYc/Step` the step with every branch;
--   `ThreeYc/Listed` and `ThreeYc/Lost` are about its tests of subscriptions and of the commitment.
-- - Preview: create_preview_order and get_preview_order of adobe_vipm/adobe/mixins/order.py;
--   `Preview/Lines` the line items, `Preview/Create` the payload, `Preview/Discounts` the retries.
-- - Returns: get_returnable_orders_by_subscription_id of the same file, and the steps
--   ValidateDownsizes (adobe_vipm/flows/validation/change.py), GetReturnableOrders and
--   ValidateReturnableOrders (adobe_vipm/flows/fulfillment/change.py).
-- - Purchase: adobe_vipm/adobe/validation.py, the step ValidateCustomerData and the short steps of
--   adobe_vipm/flows/validation/purchase.py, and those of adobe_vipm/flows/validation/shared.py;
--   PrepareCustomerData of adobe_vipm/flows/helpers.py.
-- - Prices: the three-year prices of adobe_vipm/airtable/models.py; PRICELIST_CACHE is passed on.
-- - Migration: adobe_vipm/flows/migration.py with its tables in adobe_vipm/airtable/models.py; a row is a
--   `Transfer`, what a function does to the tables is a change of the `World`, and `Run` is the world
--   with the exception that leaves a loop. `Migration/Start` starts the new transfers, `Migration/Check`
--   polls the running ones; `Migration/Table` and `Migration/Loop` carry the proofs about single rows.
-- - Transferring: adobe_vipm/flows/validation/transfer.py and the steps of adobe_vipm/flows/helpers.py that
--   its two pipelines use. `Transferring/Lines` is add_lines_to_order, `Transferring/Steps` the pipeline
--   validate_transfer, `Transferring/Reseller` the change of the reseller, `Transferring/Government` the
--   checks for government products. `Pipeline/Stages` carries properties through a pipeline.
-- - Renewals: UpdateRenewalQuantities of adobe_vipm/flows/fulfillment/change.py with its rollback;
--   `quantities` are the renewal quantities that Adobe has.
-- - Deployments: adobe_vipm/flows/global_customer.py, the agreement of one deployment of a global customer.
--   `row` is the row that the code changes and `saved` what it last saved; `Outside` are the platform and
--   Adobe, whose calls may raise. `Deployments/Process` is process_agreement_deployment, `Recorded` its
--   loop over the subscriptions, `Failing` its steps before that.
-- - Availability: ValidateSkuAvailability of adobe_vipm/flows/helpers.py, with the queries of
--   adobe_vipm/airtable/models.py for the SKUs that have a price. `Priced` and `Sale` are about the
--   queries, `Checked` about the step.
-- - Routing: adobe_vipm/flows/validation/base.py, the choice of the validator of a draft.
-- - Examples: the theorems at concrete orders.
--
-- Bounds: the only loop that is not over a list is that of get_preview_order, which makes five attempts
-- at most in the source; `attempts` counts them down from 5. All the other loops are recursion on lists.
-- The runs of a command over time are a list of Adobe's answers (`polls`).
--
-- Arguments of the model, for code outside the repository: Adobe's and the platform's answers, the rows
-- of the Airtable tables in the order of a query, the matches of the regular expressions for names,
-- emails and postal codes, `get_close_matches`, the day of today. A call of the platform, and the save of a
-- row of Airtable, is assumed to succeed; only the creation of a main agreement may fail. The maxima of
-- retries are numbers of the settings, and the counts of a row are not blank.
--
-- Not modelled: notifications, logging, HTTP, templates and texts of messages (an error is a
-- constructor with the values that its text is made of). A date is the number of its day, or for the
-- creation of an order a number that grows with time. Digits and spaces outside ASCII are not read
-- as such. Prices are only moved about. Subscription and order quantities are not negative.
pub mod Base
pub mod Pipeline
pub mod Dict
pub mod Order
pub mod Params
pub mod Customer
pub mod Catalog
pub mod Context
pub mod ThreeYc
pub mod Preview
pub mod Returns
pub mod Purchase
pub mod Prices
pub mod Migration
pub mod Transferring
pub mod Renewals
pub mod Deployments
pub mod Availability
pub mod Routing
pub mod Examples
