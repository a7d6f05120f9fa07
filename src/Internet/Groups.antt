-- ===== src/Internet/Groups.antt =====
-- The destinations against their abstract description: for every name the totals of the external
-- connections to it.
use sentinel_edr.Common.{
  ◌+◌, ◌≤◌, ◌≡◌, refl, ap, ◌∙◌, Bool, true, false, List, [], ◌∷◌, arith, length, filter,
  if◌then◌else◌, Bool-cases, inl, inr, ◌===◌, list_same, nat_same, list_beq_iff, same_refl,
}
use sentinel_edr.Common.Text.{Text, codes}
use sentinel_edr.Common.Sorting.{sort, filter-sort_single, IsSorted, sort-IsSorted}
use sentinel_edr.Model.{NetInfo}
use sentinel_edr.Internet.{
  Dest, dests, add_all, add, tally, counted, fresh, destination, inherited, external, sum_out,
  sum_in, or_text, text_of, out_before, key_before,
}

abbrev pub is_row : Text → Dest → Bool
is_row d r = r.domain === d

-- The external connections to a name.
abbrev pub to : Text → List NetInfo → List NetInfo
to d ns = filter (λ n. destination n === d) ns

-- The row of a name with some connections: their number, their bytes, and the category of the first.
abbrev pub totals : Text → List NetInfo → List Dest
totals d [] = []
totals d (n ∷ ns) =
    record {
      domain = d;
      hits = length (n ∷ ns);
      out = sum_out (n ∷ ns);
      in_ = sum_in (n ∷ ns);
      cat = or_text (text_of n.category) (codes "web");
    }
    ∷ []

-- A row and further connections of its name.
abbrev more : Dest → List NetInfo → Dest
more r ns = record r {
  hits = r.hits + length ns;
  out = r.out + sum_out ns;
  in_ = r.in_ + sum_in ns;
}

more-counted :
    (r : Dest) (n : NetInfo) (ns : List NetInfo) → more (counted r n) ns ≡ more r (n ∷ ns)
unfolding counted sum_out sum_in
more-counted r n ns = ground arith

more-fresh :
    (d : Text) (n : NetInfo) (ns : List NetInfo)
    → more (counted (fresh d n) n) ns ∷ [] ≡ totals d (n ∷ ns)
unfolding counted fresh sum_out sum_in
more-fresh d n ns = ground arith

filter-tally_other :
    (d e : Text) (n : NetInfo) (m : List Dest)
    → (e === d) ≡ false
    → filter (is_row d) (tally e n m) ≡ filter (is_row d) m
unfolding tally fresh counted
filter-tally_other d e n [] h = ground arith
filter-tally_other d e n (r ∷ m) h = ground (
  arith,
  filter-tally_other d e n m,
  list_beq_iff nat_same r.domain e,
  list_beq_iff nat_same r.domain d,
  list_beq_iff nat_same e d,
)

module _ (d : Text) (n : NetInfo) where
  filter-tally_first :
      (m : List Dest)
      → filter (is_row d) m ≡ []
      → filter (is_row d) (tally d n m) ≡ counted (fresh d n) n ∷ []
  unfolding tally fresh counted
  filter-tally_first [] h = ground (arith, same_refl d)
  filter-tally_first (r ∷ m) h = ground (arith, filter-tally_first m)

  filter-tally_again :
      (m : List Dest) (r : Dest)
      → filter (is_row d) m ≡ r ∷ []
      → filter (is_row d) (tally d n m) ≡ counted r n ∷ []
  unfolding tally fresh counted
  filter-tally_again [] r h = cc
  filter-tally_again (q ∷ m) r h = ground (arith, filter-tally_again m r)

add_lem :
    (m : List Dest) (n : NetInfo)
    → add m n ≡ (if inherited (destination n) then m else tally (destination n) n m)
unfolding add
add_lem m n = refl

module _ (d : Text) where
  filter-add_other :
      (n : NetInfo) (m : List Dest)
      → (destination n === d) ≡ false
      → filter (is_row d) (add m n) ≡ filter (is_row d) m
  filter-add_other n m h = elim (Bool-cases (inherited (destination n))) [
    | inl e ↦ rw (add_lem m n) (rw e)
    | inr e ↦ rw (add_lem m n) (rw e (filter-tally_other d (destination n) n m h))
  ]

  filter-add_hidden :
      (n : NetInfo) (m : List Dest)
      → inherited d ≡ true
      → filter (is_row d) (add m n) ≡ filter (is_row d) m
  filter-add_hidden n m h = elim (Bool-cases (destination n === d)) [
    | inr e ↦ filter-add_other n m e
    | inl e ↦
        let same : destination n ≡ d = (list_beq_iff nat_same (destination n) d).0 e in
        rw (add_lem m n) (rw same (rw h))
  ]

  add_plain :
      (n : NetInfo) (m : List Dest)
      → inherited d ≡ false
      → (destination n === d) ≡ true
      → add m n ≡ tally d n m
  add_plain n m plain e =
      let same : destination n ≡ d = (list_beq_iff nat_same (destination n) d).0 e in
      rw (add_lem m n) (rw same (rw plain))

  filter-add_all_hidden :
      (ns : List NetInfo) (m : List Dest)
      → inherited d ≡ true
      → filter (is_row d) (add_all m ns) ≡ filter (is_row d) m
  unfolding add_all
  filter-add_all_hidden [] m h = refl
  filter-add_all_hidden (n ∷ ns) m h =
      filter-add_all_hidden ns (add m n) h ∙ filter-add_hidden n m h

  module _ (plain : inherited d ≡ false) where
    filter-add_all_again :
        (ns : List NetInfo) (m : List Dest) (r : Dest)
        → filter (is_row d) m ≡ r ∷ []
        → filter (is_row d) (add_all m ns) ≡ more r (to d ns) ∷ []
    unfolding add_all sum_out sum_in
    filter-add_all_again [] m r h = ground arith
    filter-add_all_again (n ∷ ns) m r h = elim (Bool-cases (destination n === d)) [
      | inr e ↦ rw e (filter-add_all_again ns (add m n) r (filter-add_other n m e ∙ h))
      | inl e ↦ rw e (
          filter-add_all_again ns (add m n) (counted r n)
            (ap (filter (is_row d)) (add_plain n m plain e) ∙ filter-tally_again d n m r h)
          ∙ ap (λ q. q ∷ []) (more-counted r n (to d ns)))
    ]

    filter-add_all_first :
        (ns : List NetInfo) (m : List Dest)
        → filter (is_row d) m ≡ []
        → filter (is_row d) (add_all m ns) ≡ totals d (to d ns)
    unfolding add_all
    filter-add_all_first [] m h = h
    filter-add_all_first (n ∷ ns) m h = elim (Bool-cases (destination n === d)) [
      | inr e ↦ rw e (filter-add_all_first ns (add m n) (filter-add_other n m e ∙ h))
      | inl e ↦ rw e (
          filter-add_all_again ns (add m n) (counted (fresh d n) n)
            (ap (filter (is_row d)) (add_plain n m plain e) ∙ filter-tally_first d n m h)
          ∙ more-fresh d n (to d ns))
    ]

length-totals : (d : Text) (ns : List NetInfo) → length (totals d ns) ≤ 1
length-totals d [] = omega arith
length-totals d (n ∷ ns) = omega arith

abbrev expected : List NetInfo → Text → List Dest
expected net d = if inherited d then [] else totals d (to d (filter external net))

filter-add_all :
    (net : List NetInfo) (d : Text)
    → filter (is_row d) (add_all [] (filter external net)) ≡ expected net d
filter-add_all net d = elim (Bool-cases (inherited d)) [
  | inl e ↦ rw e (filter-add_all_hidden d (filter external net) [] e)
  | inr e ↦ rw e (filter-add_all_first d e (filter external net) [] refl)
]

length-expected : (net : List NetInfo) (d : Text) → length (expected net d) ≤ 1
length-expected net d = elim (Bool-cases (inherited d)) [
  | inl e ↦ rw e (omega arith)
  | inr e ↦ rw e (length-totals d (to d (filter external net)))
]

single :
    (before : Dest → Dest → Bool) (rows : List Dest) (net : List NetInfo) (d : Text)
    → filter (is_row d) rows ≡ expected net d
    → filter (is_row d) (sort before rows) ≡ expected net d
single before rows net d h =
    filter-sort_single before (is_row d) rows (rw h (length-expected net d)) ∙ h

out_before_total : (a b : Dest) → out_before a b ≡ false → out_before b a ≡ true
out_before_total a b h = ground arith

out_before_trans :
    (a b c : Dest) → out_before a b ≡ true → out_before b c ≡ true → out_before a c ≡ true
out_before_trans a b c h k = ground arith

-- The destinations stand by falling upload. For every name there is one row with the totals of the
-- external connections to it, and no row where there are none, or where the name is one that
-- every object inherits.
pub dests-totals :
    (net : List NetInfo)
    → IsSorted out_before (dests net)
      × ((d : Text)
          → filter (is_row d) (dests net)
            ≡ (if inherited d then [] else totals d (to d (filter external net))))
unfolding dests
dests-totals net = (
  sort-IsSorted out_before out_before_total out_before_trans
      (sort key_before (add_all [] (filter external net))),
  λ d.
      single out_before (sort key_before (add_all [] (filter external net))) net d
        (single key_before (add_all [] (filter external net)) net d (filter-add_all net d)),
)
