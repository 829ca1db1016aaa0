-- ===== src/Base/Decimal.antt =====
-- `{}` of an unsigned number: its decimal digits.
use push_cache.Base.{
  ℕ, zero, suc, ◌+◌, ◌-◌, ◌*◌, ◌/◌, ◌%◌, ◌<◌, ◌≡◌, ap, ◌∙◌, inl, inr, Text, [], ◌∷◌, arith, ltb,
  Bool-cases, if◌then◌else◌,
}

-- The fuel is the number itself, which is above its count of digits.
decimal_from : ℕ → ℕ → Text → Text
decimal_from zero n acc = acc
decimal_from (suc f) n acc =
    let rest = decimal_from f (n / 10) ((48 + n % 10) ∷ acc) in
    if ltb n 10 then (48 + n) ∷ acc else rest

unfoldable pub decimal : ℕ → Text
unfolding decimal_from
decimal n = decimal_from (suc n) n []

-- The number that digits behind the number `v` denote.
abbrev pub read_decimal : ℕ → Text → ℕ
read_decimal v [] = v
read_decimal v (c ∷ t) = read_decimal (10 * v + (c - 48)) t

read-decimal_from :
    (f n : ℕ) (acc : Text) → n < f → read_decimal 0 (decimal_from f n acc) ≡ read_decimal n acc
unfolding decimal_from
read-decimal_from zero n acc h = elim h [ ]
read-decimal_from (suc f) n acc h = elim (Bool-cases (ltb n 10)) [
  | inl small ↦ rw small (ap (λ v. read_decimal v acc) (omega arith))
  | inr more ↦ rw more (
      read-decimal_from f (n / 10) ((48 + n % 10) ∷ acc) (ground arith)
      ∙ ap (λ v. read_decimal v acc) (omega arith))
]

-- The fuel is enough: the digits denote the number.
pub read-decimal : (n : ℕ) → read_decimal 0 (decimal n) ≡ n
unfolding decimal
read-decimal n = read-decimal_from (suc n) n [] (omega arith)
