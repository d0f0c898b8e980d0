-- ===== src/Examples/Data.antt =====
-- A small order, a customer and a product table, for the examples.
use swo_adobe_vipm_extension.Base.{ℕ, String, none, some, List, [], ◌∷◌, true, false}
use swo_adobe_vipm_extension.Order.{
  Order, Line, Parameter, Value, null, text, choices, address, contact, Address, Contact,
}
use swo_adobe_vipm_extension.Catalog.{Product, commercial}
use swo_adobe_vipm_extension.Customer.{Customer, Commitment, AdobeSubscription}
use swo_adobe_vipm_extension.Context.{Context}
use swo_adobe_vipm_extension.Returns.{AdobeOrder, Returnable}

abbrev pub line_of : String → String → ℕ → ℕ → Line
line_of id vendor old_quantity quantity = record {
  id = id;
  item = record { id = vendor; name = vendor; vendor = vendor };
  quantity = quantity;
  old_quantity = old_quantity;
  unit_pp = 0;
  subscription_id = some "SUB-1";
}

abbrev pub downsize_line : Line
downsize_line = line_of "ALI-1-0001" "65304578CA" 5 2

abbrev pub upsize_line : Line
upsize_line = line_of "ALI-1-0002" "65304578CA" 5 9

abbrev pub new_line : Line
new_line = line_of "ALI-1-0003" "77777777CA" 0 4

abbrev pub param_of : String → Value → Parameter
param_of id value = record {
  external_id = id;
  name = id;
  value = value;
  error = none;
  constraints = none;
}

abbrev pub the_address : Address
the_address = record {
  country = "ES";
  state = "Madrid";
  city = "Madrid";
  address_line1 = "Calle 1";
  address_line2 = none;
  post_code = "28001";
}

abbrev pub the_contact : Contact
the_contact = record {
  first_name = "Ana";
  last_name = "Ruiz";
  email = "ana@example.com";
  phone = some (record { prefix = "+34"; number = "123456" });
}

abbrev pub the_order : Order
the_order = record {
  id = "ORD-1";
  order_type = "Purchase";
  product_id = "PRD-1";
  agreement_id = "AGR-1";
  lines = upsize_line ∷ new_line ∷ [];
  ordering =
      param_of "agreementType" (text "New")
      ∷ param_of "companyName" (text "ACME Inc")
      ∷ param_of "address" (address the_address)
      ∷ param_of "contact" (contact the_contact)
      ∷ param_of "3YC" (choices ("Yes" ∷ []))
      ∷ param_of "3YCLicenses" (text "12")
      ∷ param_of "3YCConsumables" null
      ∷ param_of "membershipId" null
      ∷ [];
  fulfillment = param_of "dueDate" (text "2025-01-01") ∷ [];
  subscriptions = record { id = "SUB-1"; vendor = some "a-sub"; item_ids = "65304578CA" ∷ [] } ∷ [];
  error = none;
}

abbrev pub product_of : String → String → String → Product
product_of vendor sku type_3yc = record {
  vendor_external_id = vendor;
  sku = sku;
  segment = "Commercial";
  type_3yc = type_3yc;
}

abbrev pub the_table : List Product
the_table =
    product_of "65304578CA" "65304578CA01A12" "License"
    ∷ product_of "77777777CA" "77777777CA01A12" "Consumable"
    ∷ []

abbrev pub the_subscription : AdobeSubscription
the_subscription = record {
  subscription_id = "a-sub";
  offer_id = "65304578CA01A12";
  status = "1000";
  current_quantity = 7;
  renewal_quantity = 5;
  auto_renewal = true;
  deployment_id = none;
}

abbrev pub the_commitment : Commitment
the_commitment = record {
  status = "COMMITTED";
  start_date = 100;
  end_date = 900;
  minimum_quantities = record { offer_type = "LICENSE"; quantity = 9 } ∷ [];
}

abbrev pub the_customer : Customer
the_customer = record {
  customer_id = "a-customer";
  benefits =
      record {
        benefit_type = "THREE_YEAR_COMMIT";
        commitment = some the_commitment;
        commitment_request = none;
        recommitment_request = none;
      }
      ∷ [];
  coterm_date = some 400;
  global_sales_enabled = false;
}

-- One downsize, or one upsize and a new line.
abbrev pub context_of : List Line → List Line → List Line → Context
context_of downsize_lines upsize_lines new_lines = record {
  order = the_order;
  downsize_lines = downsize_lines;
  upsize_lines = upsize_lines;
  new_lines = new_lines;
  market_segment = commercial;
  authorization_id = "AUT-1";
  validation_succeeded = true;
  adobe_customer_id = some "a-customer";
  adobe_customer = some the_customer;
  adobe_return_orders = [];
  adobe_returnable_orders = [];
  adobe_new_order = false;
  adobe_preview_order = none;
  calls = [];
}

abbrev pub adobe_order : String → ℕ → AdobeOrder
adobe_order id quantity = record {
  order_id = id;
  order_type = "NEW";
  status = "1000";
  creation_date = 390;
  line_items = record { subscription_id = "a-sub"; quantity = quantity; status = "1000" } ∷ [];
}

abbrev pub returnable : String → ℕ → Returnable
returnable id quantity = record {
  order = adobe_order id quantity;
  line = record { subscription_id = "a-sub"; quantity = quantity; status = "1000" };
  quantity = quantity;
}
