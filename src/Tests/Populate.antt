-- ===== src/Tests/Populate.antt =====
-- Two records that are produced, and the message of one as the service reads it.
use push_cache.Base.{
  ℕ, suc, ◌+◌, ◌≤◌, ◌<◌, ◌%◌, ◌^◌, ◌≡◌, refl, ltb, if◌then◌else◌, Option, none, some, zero, List,
  [], ◌∷◌, Text, Bytes, codes, length, from_utf8, text_eq, arith,
}
use push_cache.Error.{ok}
use push_cache.Crates.Models.{plain_metrics, number_map}
use push_cache.Crates.Wire.{Avro, Env, BytesResult, null, valid, invalid}
use push_cache.State.{lookup}
use push_cache.Consumer.Effect.{effect, written}
use push_cache.Web.{wire_parts}
use push_cache.Populate.{
  Tools, Generator, Sizes, no_sizes, add_size, make_record, send_record, produce_loop, payload_of,
}
use push_cache.Populate.Frame.{from_be_bytes, ReadsFrames, produced, payload-effect}
use push_cache.Populate.Totals.{Sent, sum_of, longest, shortest, produce_loop-statistics}
use push_cache.Populate.Fakes.{Floats, Fake, manual_fake_bill}
use push_cache.Populate.Bills.{sum_from, AllAmounts, manual_fake_bill_lem}
use push_cache.Tests.Fixtures.{World, plain_avro, users, ada, state}
use push_cache.Tests.Offline.{no_http}

abbrev read_frame : Option Bytes → BytesResult
read_frame (some (zero ∷ a ∷ b ∷ c ∷ d ∷ rest)) = valid (from_be_bytes a b c d) rest
read_frame (some (suc n ∷ rest)) = invalid rest
read_frame (some (zero ∷ [])) = null
read_frame (some (zero ∷ a ∷ [])) = null
read_frame (some (zero ∷ a ∷ b ∷ [])) = null
read_frame (some (zero ∷ a ∷ b ∷ c ∷ [])) = null
read_frame (some []) = null
read_frame none = null

abbrev framed_avro : Avro
framed_avro = record plain_avro { get_bytes_result = read_frame }

abbrev framed_env : Env World
framed_env = record {
  metrics = plain_metrics;
  avro = framed_avro;
  schemas = number_map Text;
  http = no_http;
  parse_header = λ t. ok t;
}

reads : ReadsFrames framed_avro
reads a b c d rest = refl

ada_utf8 : from_utf8 ada ≡ some ada
unfolding from_utf8
ada_utf8 = refl

payload-effect_example :
    (effect framed_env state
        ((300, codes "User") ∷ [])
        (produced ada 300 (1 ∷ 2 ∷ []))
        (λ name k. none)
      ≡ written (some ada) users (some (payload_of 300 (1 ∷ 2 ∷ []))) (λ name k. none))
    × (wire_parts framed_env (framed_avro.get_bytes_result (some (payload_of 300 (1 ∷ 2 ∷ []))))
        ≡ ok (300, 1 ∷ 2 ∷ []))
unfolding lookup text_eq
payload-effect_example =
    payload-effect framed_env state ((300, codes "User") ∷ []) 300 (codes "User") (1 ∷ 2 ∷ []) ada
      users (λ name k. none) reads (omega arith) refl refl ada_utf8

-- The records grow with the clock.
abbrev tools : Tools ℕ framed_avro
tools = record {
  Producer = Unit {0};
  Writer = Unit {0};
  to_avro_datum = λ schema value. ok value;
  new_v4 = λ w. (ada, w);
  create_producer = λ servers w. (ok tt, w);
  send = λ producer topic payload key w. (ok tt, w);
  encode = λ bytes. bytes;
  create_file = λ path w. (ok tt, w);
  write_all = λ writer line w. (ok tt, w);
  flush = λ writer w. (ok tt, w);
}

abbrev generator : Generator ℕ framed_avro
generator = record {
  Item = Bytes;
  schema = codes "User";
  generate = λ w. (if ltb w 1 then 1 ∷ 2 ∷ [] else 3 ∷ [], w + 1);
  to_value = λ item. ok item;
}

abbrev two_sizes : Sizes
two_sizes = record { total_size = 3; max_size = 2; min_size = 1 }

two_sent :
    (produce_loop tools generator tt (codes "t") 300 (codes "User") 2 no_sizes 0).0 ≡ ok two_sizes
unfolding produce_loop make_record send_record add_size
two_sent = refl

produce_loop-statistics_example :
    (records : List Bytes) × (length records ≡ 2)
    × Sent tools generator tt
        (codes "t")
        300
        (codes "User")
        records
        0
        (produce_loop tools generator tt (codes "t") 300 (codes "User") 2 no_sizes 0).1
    × (3 ≡ sum_of records % 2 ^ 64)
    × (2 ≡ longest records)
    × (1 ≡ shortest records)
produce_loop-statistics_example =
    produce_loop-statistics tools generator tt (codes "t") 300 (codes "User") 2 two_sizes 0 two_sent

-- Whole dollars, a clock that advances with each amount, and three payments.
abbrev dollars : Floats
dollars = record { F64 = ℕ; literal = λ n. n; add = λ x y. x + y }

abbrev fake : Fake ℕ dollars
fake = record {
  name = λ w. (codes "Ada", w);
  city_name = λ w. (codes "London", w);
  street_name = λ w. (codes "Main", w);
  phone_number = λ w. (codes "1", w);
  word = λ w. (codes "card", w);
  sentence = λ lo hi w. (codes "No signal.", w);
  usize_range = λ lo hi w. (lo + 2, w);
  f64_range = λ lo hi w. (lo + w % 400, w + 1);
  new_v4 = λ w. (ada, w);
  timestamp_millis = λ w. (w, w);
  to_rfc3339 = λ w. (codes "now", w);
}

abbrev Usual : ℕ → Type 0
Usual amount = (10 ≤ amount) × (amount < 500)

manual_fake_bill_lem_example :
    let made = (manual_fake_bill fake 0).0 in
    (1 ≤ length made.payments)
    × (length made.payments ≤ 11)
    × (made.total_amount ≡ sum_from dollars 0 made.payments)
    × AllAmounts dollars Usual made.payments
manual_fake_bill_lem_example =
    manual_fake_bill_lem fake Usual 0 (λ w. (omega arith, omega arith))
      (λ w. (omega arith, omega arith))
