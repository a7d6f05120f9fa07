-- ===== src/Policy/Typed.antt =====
-- The interval field reads back the number that it shows.
use sentinel_edr.Common.{
  ℕ, suc, zero, ◌≡◌, ap, ◌∙◌, true, [], ◌∷◌, nat_same, ltb, ◌/◌, ◌<◌, arith, Bool-cases, inl, inr,
}
use sentinel_edr.Common.Text.{Text, is_digit, decimal, digits}
use sentinel_edr.Policy.{Parsed, digits_after, parse_int}

digits_after-digits :
    (fuel n : ℕ) (tail : Text)
    → n < fuel
    → digits_after 0 (digits fuel n tail) ≡ digits_after n tail
digits_after-digits zero n tail h = omega arith
digits_after-digits (suc fuel) n tail h = elim (Bool-cases (ltb n 10)) [
  | inl small ↦ rw small (ground arith)
  | inr big ↦ rw big (digits_after-digits fuel (n / 10) _ (ground arith) ∙ ground arith)
]

-- The text starts with a digit.
abbrev Leads : Text → Type 0
Leads [] = ⊥
Leads (c ∷ s) = is_digit c ≡ true

none_below : (n : ℕ) → n < 0 → ⊥
none_below n h = omega arith

digits-Leads : (fuel n : ℕ) (tail : Text) → n < fuel → Leads (digits fuel n tail)
digits-Leads zero n tail h = elim (none_below n h) [ ]
digits-Leads (suc fuel) n tail h = elim (Bool-cases (ltb n 10)) [
  | inl small ↦ rw small (ground arith)
  | inr big ↦ rw big (digits-Leads fuel (n / 10) _ (ground arith))
]

parse_int_leading : (s : Text) → Leads s → parse_int s ≡ Parsed.natural (digits_after 0 s)
unfolding parse_int
parse_int_leading [] h = elim h [ ]
parse_int_leading (c ∷ s) h = ground arith

-- The decimal text of a number reads back as that number.
pub parse_int-decimal : (n : ℕ) → parse_int (decimal n) ≡ Parsed.natural n
unfolding decimal
parse_int-decimal n =
    parse_int_leading (digits (suc n) n []) (digits-Leads (suc n) n [] (omega arith))
    ∙ ap Parsed.natural (digits_after-digits (suc n) n [] (omega arith))
