-- ===== src/Populate/Bills.antt =====
-- populate_kafka.rs, `manual_fake_bill`: the payments and their sum.
use push_cache.Base.{
  ℕ, zero, suc, ◌≡◌, refl, sym, ap, ◌∙◌, ◌≤◌, ◌<◌, ◌+◌, List, [], ◌∷◌, ◌++◌, length, arith,
}
use push_cache.Populate.Fakes.{Floats, Fake, Payment, payment_loop, manual_fake_bill}

module _ (floats : Floats) where
  -- The sum of the amounts, added from the left.
  abbrev pub sum_from : floats.F64 → List (Payment floats) → floats.F64
  sum_from total [] = total
  sum_from total (p ∷ ps) = sum_from (floats.add total p.amount) ps

  sum_from-append :
      (total : floats.F64) (ps : List (Payment floats)) (p : Payment floats)
      → sum_from total (ps ++ p ∷ []) ≡ floats.add (sum_from total ps) p.amount
  sum_from-append total [] p = refl
  sum_from-append total (q ∷ ps) p = sum_from-append (floats.add total q.amount) ps p

  abbrev pub AllAmounts : (floats.F64 → Type 0) → List (Payment floats) → Type 0
  AllAmounts P [] = Unit
  AllAmounts P (p ∷ ps) = P p.amount × AllAmounts P ps

  AllAmounts-append :
      (P : floats.F64 → Type 0) (ps : List (Payment floats)) (p : Payment floats)
      → AllAmounts P ps
      → P p.amount
      → AllAmounts P (ps ++ p ∷ [])
  AllAmounts-append P [] p a h = (h, tt)
  AllAmounts-append P (q ∷ ps) p a h = (a.0, AllAmounts-append P ps p a.1 h)

  length-snoc :
      (ps : List (Payment floats)) (p : Payment floats) → length (ps ++ p ∷ []) ≡ length ps + 1
  length-snoc [] p = refl
  length-snoc (q ∷ ps) p = omega (arith, length-snoc ps p)

-- `Usual` is what the range from 10.0 to 500.0 promises of its numbers.
module _ {W : Type 0} {floats : Floats} (fake : Fake W floats) (Usual : floats.F64 → Type 0) where
  payment_loop_lem :
      (n : ℕ) (total : floats.F64) (ps : List (Payment floats)) (w : W)
      → ((w : W) → Usual (fake.f64_range (floats.literal 10) (floats.literal 500) w).0)
      → total ≡ sum_from floats (floats.literal 0) ps
      → AllAmounts floats Usual ps
      → let ((total', ps'), w') = payment_loop fake n total ps w in
        (length ps' ≡ length ps + n)
        × (total' ≡ sum_from floats (floats.literal 0) ps')
        × AllAmounts floats Usual ps'
  unfolding payment_loop
  payment_loop_lem zero total ps w usual e a = (omega arith, e, a)
  payment_loop_lem (suc n) total ps w usual e a =
      let (amount, w1) = fake.f64_range (floats.literal 10) (floats.literal 500) w in
      let (date, w2) = fake.to_rfc3339 w1 in
      let (method, w3) = fake.word w2 in
      let p : Payment floats = record { date = date; amount = amount; method = method } in
      let ih =
        payment_loop_lem n (floats.add total amount) (ps ++ p ∷ []) w3 usual
          (ap (λ t. floats.add t amount) e ∙ sym (sum_from-append floats (floats.literal 0) ps p))
          (AllAmounts-append floats Usual ps p a (usual w)) in
      (omega (arith, ih.0, length-snoc floats ps p), ih.1, ih.2)

  -- If the range from 1 to 12 gives numbers from 1 to 11, then a bill that is made up has between 1
  -- and 11 payments, its total is the sum of their amounts, added from 0.0 on in the order of the
  -- payments, and of each amount holds what the range from 10.0 to 500.0 promises of its numbers.
  pub manual_fake_bill_lem :
      (w : W)
      → ((w : W) → let n = (fake.usize_range 1 12 w).0 in (1 ≤ n) × (n < 12))
      → ((w : W) → Usual (fake.f64_range (floats.literal 10) (floats.literal 500) w).0)
      → let made = (manual_fake_bill fake w).0 in
        (1 ≤ length made.payments)
        × (length made.payments ≤ 11)
        × (made.total_amount ≡ sum_from floats (floats.literal 0) made.payments)
        × AllAmounts floats Usual made.payments
  unfolding manual_fake_bill
  manual_fake_bill_lem w sizes usual =
      let (n, w1) = fake.usize_range 1 12 w in
      let h = payment_loop_lem n (floats.literal 0) [] w1 usual refl tt in
      let bounds = sizes w in (omega (arith, h.0, bounds.0), omega (arith, h.0, bounds.1), h.1, h.2)
