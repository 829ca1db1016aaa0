-- ===== src/Populate/Totals.antt =====
-- populate_kafka.rs: the statistics of what was produced.
use push_cache.Base.{
  ℕ, zero, suc, ◌+◌, ◌-◌, ◌/◌, ◌%◌, ◌^◌, ◌≤◌, max, min, ◌<◌, ◌≡◌, refl, sym, ◌∙◌, inl, inr, List,
  [], ◌∷◌, ◌++◌, Text, Bytes, length, arith,
}
use mathlib.Core.Path.{subst}
use push_cache.Error.{MyError, Result, ok, err, Act, Result-cases}
use push_cache.Crates.Wire.{Avro}
use push_cache.Populate.{
  Tools, Generator, Sizes, no_sizes, add_size, make_record, send_record, produce_loop,
}

abbrev pub sum_of : List Bytes → ℕ
sum_of [] = 0
sum_of (b ∷ bs) = length b + sum_of bs

-- The lengths of the longest and of the shortest record; without any, the least length is the
-- greatest number.
abbrev pub longest : List Bytes → ℕ
longest [] = 0
longest (b ∷ bs) = max (length b) (longest bs)

abbrev pub shortest : List Bytes → ℕ
shortest [] = 2 ^ 64 - 1
shortest (b ∷ bs) = min (length b) (shortest bs)

shortest-bounded : (bs : List Bytes) → shortest bs ≤ 2 ^ 64 - 1
shortest-bounded [] = omega arith
shortest-bounded (b ∷ bs) = omega (arith, shortest-bounded bs)

ok_injective : {a b : Sizes} → Path (Result MyError Sizes) (ok a) (ok b) → a ≡ b
ok_injective h = cc

refused_ok : {x : MyError} {s : Sizes} → Path (Result MyError Sizes) (err x) (ok s) → ⊥
refused_ok h = cc

add-wraps : (a b n : ℕ) → ((a + b) % 2 ^ 64 + n) % 2 ^ 64 ≡ (a + (b + n)) % 2 ^ 64
add-wraps a b n = omega arith

module _ {W : Type 0} {avro : Avro} (tools : Tools W avro) (generator : Generator W avro)
    (producer : tools.Producer) (topic : Text) (schema_id : ℕ) (schema : avro.Schema) where
  -- The world behind the call that sends a record, under a new key, with the zero byte and the
  -- schema's number before it, the most significant byte first.
  abbrev behind : Bytes → W → W
  behind b w =
      let (key, w') = tools.new_v4 (make_record tools generator schema w).1 in
      let prefix =
        0
        ∷ schema_id / 2 ^ 24 % 2 ^ 8
        ∷ schema_id / 2 ^ 16 % 2 ^ 8
        ∷ schema_id / 2 ^ 8 % 2 ^ 8
        ∷ schema_id % 2 ^ 8
        ∷ [] in
      (tools.send producer topic (prefix ++ b) key w').1

  -- These records were made, and a call to send each came before the next one was made.
  abbrev pub Sent : List Bytes → W → W → Type 0
  Sent [] w w' = w ≡ w'
  Sent (b ∷ bs) w w' = ((make_record tools generator schema w).0 ≡ ok b) × Sent bs (behind b w) w'

  -- What the loop has made of the statistics that it began with.
  record Totals (n : ℕ) (s s' : Sizes) (w w' : W) : Type 0 where
    records : List Bytes
    counted : length records ≡ n
    sent : Sent records w w'
    total : s'.total_size ≡ (s.total_size + sum_of records) % 2 ^ 64
    most : s'.max_size ≡ max s.max_size (longest records)
    least : s'.min_size ≡ min s.min_size (shortest records)

  abbrev loop : ℕ → Sizes → Act W Sizes
  loop n s = produce_loop tools generator producer topic schema_id schema n s

  loop-sent :
      (n : ℕ) (s : Sizes) (w : W) {b : Bytes}
      → (make_record tools generator schema w).0 ≡ ok b
      → loop (suc n) s w ≡ loop n (add_size (length b) s) (behind b w)
  unfolding produce_loop send_record
  loop-sent n s w e = rw (produce_loop, e) refl

  loop-refused :
      (n : ℕ) (s : Sizes) (w : W) {x : MyError}
      → (make_record tools generator schema w).0 ≡ err x
      → (loop (suc n) s w).0 ≡ err x
  unfolding produce_loop
  loop-refused n s w e = rw (produce_loop, e) refl

  step-Totals :
      (n : ℕ) (s s' : Sizes) (w w' : W) (b : Bytes)
      → (make_record tools generator schema w).0 ≡ ok b
      → Totals n (add_size (length b) s) s' (behind b w) w'
      → Totals (suc n) s s' w w'
  unfolding add_size
  step-Totals n s s' w w' b e t = record {
    records = b ∷ t.records;
    counted = omega (arith, t.counted);
    sent = (e, t.sent);
    total = t.total ∙ add-wraps s.total_size (length b) (sum_of t.records);
    most = ground (arith, t.most);
    least = ground (arith, t.least);
  }

  produce_loop-Totals :
      (n : ℕ) (s s' : Sizes) (w : W)
      → s.total_size < 2 ^ 64
      → s.min_size < 2 ^ 64
      → (loop n s w).0 ≡ ok s'
      → Totals n s s' w (loop n s w).1
  unfolding produce_loop
  produce_loop-Totals zero s s' w small low = λ h.
      let same : s ≡ s' = ok_injective h in
      subst (λ x. Totals 0 s x w w) same
        (record {
          records = [];
          counted = refl;
          sent = refl;
          total = omega arith;
          most = omega arith;
          least = omega arith;
        })
  produce_loop-Totals (suc n) s s' w small low =
      elim (Result-cases (make_record tools generator schema w).0) [
        | inr (x, e) ↦ λ h. absurd (refused_ok (sym (loop-refused n s w e) ∙ h))
        | inl (b, e) ↦ rw (loop-sent n s w e) (λ h. step-Totals n s s' w _ b e (
            produce_loop-Totals n (add_size (length b) s) s' (behind b w)
              (unfold add_size in omega arith) (unfold add_size in ground arith) h))
      ]

  -- If the production of n records succeeds, then n records were made; behind each and before the
  -- next one, the producer was called once to send it to the topic, under a new key, with a zero
  -- byte and the number of the schema in four bytes before it, the most significant first, whatever
  -- came of that call; and the statistics are the sum of the lengths of the records, modulo 2^64,
  -- the length of the longest, and that of the shortest, or the greatest 64-bit number if there is
  -- none.
  pub produce_loop-statistics :
      (n : ℕ) (s : Sizes) (w : W)
      → (produce_loop tools generator producer topic schema_id schema n no_sizes w).0 ≡ ok s
      → (records : List Bytes) × (length records ≡ n)
        × Sent records w
            (produce_loop tools generator producer topic schema_id schema n no_sizes w).1
        × (s.total_size ≡ sum_of records % 2 ^ 64)
        × (s.max_size ≡ longest records)
        × (s.min_size ≡ shortest records)
  produce_loop-statistics n s w h =
      let t = produce_loop-Totals n no_sizes s w (omega arith) (omega arith) h in
      (
        t.records,
        t.counted,
        t.sent,
        omega (arith, t.total),
        omega (arith, t.most),
        omega (arith, t.least, shortest-bounded t.records),
      )
