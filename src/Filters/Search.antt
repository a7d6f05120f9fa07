-- ===== src/Filters/Search.antt =====
-- What the search box finds.
use sentinel_edr.Common.{
  ◌≡◌, refl, ap, true, Option, List, [], ◌∷◌, ◌++◌, any, map, arith, inl, inr, Bool-cases,
}
use sentinel_edr.Common.Text.{Text, codes, includes, starts_with, to_lower, lower, join}
use sentinel_edr.Filters.{Cell, match_text, field_text}

to_lower-append : (s t : Text) → to_lower (s ++ t) ≡ to_lower s ++ to_lower t
to_lower-append [] t = refl
to_lower-append (c ∷ s) t = ap (λ u. lower c ∷ u) (to_lower-append s t)

starts_with-append : (q s t : Text) → starts_with q s ≡ true → starts_with q (s ++ t) ≡ true
starts_with-append [] s t h = refl
starts_with-append (p ∷ q) [] t h = cc
starts_with-append (p ∷ q) (c ∷ s) t h = ground (arith, starts_with-append q s t)

includes_left : (q s t : Text) → includes q s ≡ true → includes q (s ++ t) ≡ true
includes_left [] [] [] h = refl
includes_left [] [] (c ∷ t) h = refl
includes_left (p ∷ q) [] t h = cc
includes_left q (c ∷ s) t h = ground (arith, includes_left q s t, starts_with-append q (c ∷ s) t)

includes_right : (q s t : Text) → includes q t ≡ true → includes q (s ++ t) ≡ true
includes_right q [] t h = h
includes_right q (c ∷ s) t h = ground (arith, includes_right q s t h)

includes-join :
    (q sep : Text) (parts : List Text)
    → any (λ p. includes q (to_lower p)) parts ≡ true
    → includes q (to_lower (join sep parts)) ≡ true
includes-join q sep [] h = cc
includes-join q sep (p ∷ []) h = ground arith
includes-join q sep (p ∷ r ∷ parts) h = elim (Bool-cases (includes q (to_lower p))) [
  | inl e ↦ rw (to_lower-append p (sep ++ join sep (r ∷ parts))) (includes_left q (to_lower p) _ e)
  | inr e ↦
      rw
        (
          to_lower-append p (sep ++ join sep (r ∷ parts)),
          to_lower-append sep (join sep (r ∷ parts)),
        )
        (includes_right q (to_lower p) _
          (includes_right q (to_lower sep) _ (includes-join q sep (r ∷ parts) (ground arith))))
]

-- A row matches where one of its fields holds the query, in whatever case.
pub match_text-field :
    (q : Text) (fields : List (Option Cell))
    → any (λ p. includes (to_lower q) (to_lower p)) (map field_text fields) ≡ true
    → match_text q fields ≡ true
unfolding match_text
match_text-field [] fields h = refl
match_text-field (c ∷ q) fields h =
    includes-join (to_lower (c ∷ q)) (codes " ") (map field_text fields) h
