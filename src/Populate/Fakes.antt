-- ===== src/Populate/Fakes.antt =====
-- populate_kafka.rs and examples/models.rs: the records that are made up, and their types.
use push_cache.Base.{ℕ, zero, suc, List, [], ◌∷◌, ◌++◌, Text, codes}
use push_cache.Error.{Result}
use push_cache.Crates.Wire.{Avro}
use push_cache.Populate.{Generator, MessageType, customer, bill, usage, ticket}

-- All that the code does with an `f64`: literals without a fraction, and sums.
pub record Floats : Type 1 where
  pub F64 : Type 0
  pub literal : ℕ → F64
  pub add : F64 → F64 → F64

-- What the code uses of `fake`, `uuid` and `chrono`. A range goes from its first bound to below its
-- second one.
pub record Fake (W : Type 0) (floats : Floats) : Type 0 where
  pub name : W → Text × W
  pub city_name : W → Text × W
  pub street_name : W → Text × W
  pub phone_number : W → Text × W
  pub word : W → Text × W
  pub sentence : ℕ → ℕ → W → Text × W
  pub usize_range : ℕ → ℕ → W → ℕ × W
  pub f64_range : floats.F64 → floats.F64 → W → floats.F64 × W
  pub new_v4 : W → Text × W
  pub timestamp_millis : W → ℕ × W
  pub to_rfc3339 : W → Text × W

-- A time of type `i64` is its bit pattern.
pub record Customer : Type 0 where
  pub account_id : Text
  pub name : Text
  pub address : Text
  pub phone : Text
  pub created_at : ℕ
  pub updated_at : ℕ

module _ (floats : Floats) where
  pub record Payment : Type 0 where
    pub date : Text
    pub amount : floats.F64
    pub method : Text

  pub record CustomerBill : Type 0 where
    pub account_id : Text
    pub year : ℕ
    pub total_amount : floats.F64
    pub payments : List Payment

  pub record UsageRecord : Type 0 where
    pub account_id : Text
    pub service_type : Text
    pub amount : floats.F64
    pub unit : Text
    pub timestamp : ℕ

pub record SupportTicket : Type 0 where
  pub ticket_id : Text
  pub account_id : Text
  pub issue : Text
  pub status : Text
  pub timestamp : ℕ

module _ {W : Type 0} {floats : Floats} (fake : Fake W floats) where
  unfoldable pub manual_fake_customer : W → Customer × W
  manual_fake_customer w =
      let (name, w1) = fake.name w in
      let (city, w2) = fake.city_name w1 in
      let (street, w3) = fake.street_name w2 in
      let address = street ++ (codes ", " ++ city) in
      let (phone, w4) = fake.phone_number w3 in
      let (account_id, w5) = fake.new_v4 w4 in
      let (created_at, w6) = fake.timestamp_millis w5 in
      let (updated_at, w7) = fake.timestamp_millis w6 in
      (
        record {
          account_id = account_id;
          name = name;
          address = address;
          phone = phone;
          created_at = created_at;
          updated_at = updated_at;
        },
        w7,
      )

  -- The loop, by the payments that are still to be made.
  unfoldable pub payment_loop :
      ℕ → floats.F64 → List (Payment floats) → W → (floats.F64 × List (Payment floats)) × W
  payment_loop zero total payments w = ((total, payments), w)
  payment_loop (suc n) total payments w =
      let (amount, w1) = fake.f64_range (floats.literal 10) (floats.literal 500) w in
      let (date, w2) = fake.to_rfc3339 w1 in
      let (method, w3) = fake.word w2 in
      payment_loop n (floats.add total amount)
        (payments ++ record { date = date; amount = amount; method = method } ∷ []) w3

  unfoldable pub manual_fake_bill : W → CustomerBill floats × W
  manual_fake_bill w =
      let (num_payments, w1) = fake.usize_range 1 12 w in
      let ((total, payments), w2) = payment_loop num_payments (floats.literal 0) [] w1 in
      let (account_id, w3) = fake.new_v4 w2 in
      (
        record { account_id = account_id; year = 2024; total_amount = total; payments = payments },
        w3,
      )

  unfoldable pub manual_fake_usage : W → UsageRecord floats × W
  manual_fake_usage w =
      let (account_id, w1) = fake.new_v4 w in
      let (service_type, w2) = fake.word w1 in
      let (amount, w3) = fake.f64_range (floats.literal 1) (floats.literal 100) w2 in
      let (timestamp, w4) = fake.timestamp_millis w3 in
      (
        record {
          account_id = account_id;
          service_type = service_type;
          amount = amount;
          unit = codes "GB";
          timestamp = timestamp;
        },
        w4,
      )

  unfoldable pub manual_fake_ticket : W → SupportTicket × W
  manual_fake_ticket w =
      let (ticket_id, w1) = fake.new_v4 w in
      let (account_id, w2) = fake.new_v4 w1 in
      let (issue, w3) = fake.sentence 5 10 w2 in
      let (status, w4) = fake.word w3 in
      let (timestamp, w5) = fake.timestamp_millis w4 in
      (
        record {
          ticket_id = ticket_id;
          account_id = account_id;
          issue = issue;
          status = status;
          timestamp = timestamp;
        },
        w5,
      )

-- What `AvroSchema` and `Serialize` derive for a type.
pub record Derived (avro : Avro) (T : Type 0) : Type 0 where
  pub get_schema : avro.Schema
  pub to_value : T → Result Text avro.Value

pub record AllDerived (avro : Avro) (floats : Floats) : Type 0 where
  pub customers : Derived avro Customer
  pub bills : Derived avro (CustomerBill floats)
  pub usages : Derived avro (UsageRecord floats)
  pub tickets : Derived avro SupportTicket

abbrev made_by :
    {W : Type 0} {avro : Avro} {T : Type 0} → Derived avro T → (W → T × W) → Generator W avro
made_by {T} derived generate = record {
  Item = T;
  schema = derived.get_schema;
  generate = generate;
  to_value = derived.to_value;
}

module _ {W : Type 0} {avro : Avro} {floats : Floats} (fake : Fake W floats)
    (derived : AllDerived avro floats) where
  -- The generator of a type of messages.
  unfoldable pub generator_of : MessageType → Generator W avro
  generator_of customer = made_by derived.customers (manual_fake_customer fake)
  generator_of bill = made_by derived.bills (manual_fake_bill fake)
  generator_of usage = made_by derived.usages (manual_fake_usage fake)
  generator_of ticket = made_by derived.tickets (manual_fake_ticket fake)
