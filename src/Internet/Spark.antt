-- ===== src/Internet/Spark.antt =====
-- The upload sparkline.
use sentinel_edr.Common.{
  ℕ, zero, suc, ◌+◌, ◌*◌, ◌-◌, ◌≤◌, ◌<◌, ◌≡◌, refl, sym, ap, ◌∙◌, List, [], ◌∷◌, ◌++◌, arith, take,
  drop, length, reverse, length-append, reverse-cons, Bool-cases, inl, inr, ltb, if◌then◌else◌,
}
use native.Mathlib.Nat.{suc-mul, lt_of_mul-lt-mul_right}
use sentinel_edr.Model.{NetInfo}
use sentinel_edr.Internet.{sum_out, chunk_sums, spark, bucket_size, two_or_more}

abbrev pub sum : List ℕ → ℕ
sum [] = 0
sum (x ∷ xs) = x + sum xs

sum_out-append : (xs ys : List NetInfo) → sum_out (xs ++ ys) ≡ sum_out xs + sum_out ys
unfolding sum_out
sum_out-append [] ys = omega arith
sum_out-append (x ∷ xs) ys = omega (arith, sum_out-append xs ys)

sum_out-reverse : (xs : List NetInfo) → sum_out (reverse xs) ≡ sum_out xs
unfolding sum_out
sum_out-reverse [] = refl
sum_out-reverse (x ∷ xs) =
    rw (reverse-cons x xs)
      (rw (sum_out-append (reverse xs) (x ∷ [])) (omega (arith, sum_out-reverse xs)))

length-reverse : (xs : List NetInfo) → length (reverse xs) ≡ length xs
length-reverse [] = refl
length-reverse (x ∷ xs) =
    rw (reverse-cons x xs)
      (rw (length-append (reverse xs) (x ∷ [])) (omega (arith, length-reverse xs)))

drop-nil : (k : ℕ) → ◌≡◌ {A = List NetInfo} (drop k []) []
drop-nil zero = refl
drop-nil (suc k) = refl

drop-drop : (k i : ℕ) (xs : List NetInfo) → drop k (drop i xs) ≡ drop (i + k) xs
drop-drop k zero xs = ap (λ n. drop n xs) (omega arith)
drop-drop k (suc i) [] = drop-nil k ∙ sym (drop-nil (suc i + k))
drop-drop k (suc i) (x ∷ xs) =
    drop-drop k i xs ∙ ap (λ n. drop n (x ∷ xs)) {x = suc (i + k)} {y = suc i + k} (omega arith)

sum_out_cut : (k : ℕ) (xs : List NetInfo) → sum_out (take k xs) + sum_out (drop k xs) ≡ sum_out xs
unfolding sum_out
sum_out_cut zero xs = omega arith
sum_out_cut (suc k) [] = refl
sum_out_cut (suc k) (x ∷ xs) = omega (arith, sum_out_cut k xs)

sum_out-drop_all : (i : ℕ) (xs : List NetInfo) → length xs ≤ i → sum_out (drop i xs) ≡ 0
unfolding sum_out
sum_out-drop_all zero [] h = refl
sum_out-drop_all zero (x ∷ xs) h = absurd (omega arith)
sum_out-drop_all (suc i) [] h = refl
sum_out-drop_all (suc i) (x ∷ xs) h = sum_out-drop_all i xs (omega arith)

module _ (size : ℕ) (pos : 0 < size) (ns : List NetInfo) where
  sum-chunk_sums :
      (fuel i : ℕ) → length ns ≤ fuel + i → sum (chunk_sums fuel size i ns) ≡ sum_out (drop i ns)
  unfolding chunk_sums
  sum-chunk_sums zero i h = sym (sum_out-drop_all i ns (omega arith))
  sum-chunk_sums (suc fuel) i h = elim (Bool-cases (ltb i (length ns))) [
    | inl e ↦ rw e (
        omega (
          arith,
          sum-chunk_sums fuel (i + size) (omega arith),
          sum_out_cut size (drop i ns),
          ap sum_out (drop-drop size i ns),
        ))
    | inr e ↦ rw e (sym (sum_out-drop_all i ns (ground arith)))
  ]

  chunk_sums_end : (fuel i : ℕ) → length ns ≤ i → chunk_sums fuel size i ns ≡ []
  unfolding chunk_sums
  chunk_sums_end zero i h = refl
  chunk_sums_end (suc fuel) i h = ground arith

  length-chunk_sums :
      (fuel i : ℕ) → length (chunk_sums fuel size i ns) * size < (length ns - i) + size
  unfolding chunk_sums
  length-chunk_sums zero i = omega arith
  length-chunk_sums (suc fuel) i = elim (Bool-cases (ltb i (length ns))) [
    | inr e ↦ rw e (omega arith)
    | inl e ↦ elim (Bool-cases (ltb (i + size) (length ns))) [
      | inl more ↦ rw e (
          let f : i + size < length ns = ground arith in
          omega (
            arith,
            suc-mul (length (chunk_sums fuel size (i + size) ns)) size,
            length-chunk_sums fuel (i + size),
          ))
      | inr done ↦ rw e (
          rw (chunk_sums_end fuel (i + size) (ground arith))
            (let f : i < length ns = ground arith in omega arith))
    ]
  ]

  length-chunk_sums_cover :
      (fuel i : ℕ)
      → length ns ≤ fuel + i
      → length ns ≤ length (chunk_sums fuel size i ns) * size + i
  unfolding chunk_sums
  length-chunk_sums_cover zero i h = omega arith
  length-chunk_sums_cover (suc fuel) i h = elim (Bool-cases (ltb i (length ns))) [
    | inr e ↦ rw e (let f : length ns ≤ i = ground arith in omega arith)
    | inl e ↦ rw e (
        omega (
          arith,
          suc-mul (length (chunk_sums fuel size (i + size) ns)) size,
          length-chunk_sums_cover fuel (i + size) (omega arith),
        ))
  ]

two_or_more_short : (p : List ℕ) → length p < 2 → two_or_more p ≡ 0 ∷ 0 ∷ []
two_or_more_short [] h = refl
two_or_more_short (x ∷ []) h = refl
two_or_more_short (x ∷ y ∷ p) h = absurd (omega arith)

two_or_more_long : (p : List ℕ) → 2 ≤ length p → two_or_more p ≡ p
two_or_more_long [] h = absurd (omega arith)
two_or_more_long (x ∷ []) h = absurd (omega arith)
two_or_more_long (x ∷ y ∷ p) h = refl

bucket_size_pos : (n : ℕ) → 0 < bucket_size n
bucket_size_pos n = ground arith

bucket_size_enough : (n : ℕ) → n ≤ 24 * bucket_size n
bucket_size_enough n = ground arith

bucket_size_lt : (n : ℕ) → 2 ≤ n → bucket_size n < n
bucket_size_lt n h = ground arith

module _ (net : List NetInfo) where
  -- The connections, oldest first, and the sums of their parts.
  abbrev ordered : List NetInfo
  ordered = reverse net

  abbrev parts : List ℕ
  parts = chunk_sums (length ordered) (bucket_size (length ordered)) 0 ordered

  parts-le : length parts ≤ 24
  parts-le =
      let k = bucket_size (length ordered) in
      let few : length parts * k < 25 * k = omega (
        arith,
        length-chunk_sums k (bucket_size_pos (length ordered)) ordered (length ordered) 0,
        bucket_size_enough (length ordered),
      ) in
      let lt : length parts < 25 = lt_of_mul-lt-mul_right k few in omega arith

  -- A single connection makes at most one part, and two or more make at least two.
  parts_short : length ordered < 2 → length parts < 2
  parts_short h =
      let k = bucket_size (length ordered) in
      let one : k ≡ 1 = ground arith in
      let few = length-chunk_sums k (bucket_size_pos (length ordered)) ordered (length ordered) 0 in
      let fewer : length parts * k < 2 * k = omega arith in lt_of_mul-lt-mul_right k fewer

  parts_long : 2 ≤ length ordered → 2 ≤ length parts
  parts_long h =
      let k = bucket_size (length ordered) in
      let cover =
        length-chunk_sums_cover k (bucket_size_pos (length ordered)) ordered (length ordered) 0
          (omega arith) in
      let many : 1 * k < length parts * k = omega (arith, bucket_size_lt (length ordered) h) in
      let more : 1 < length parts = lt_of_mul-lt-mul_right k many in omega arith

  sum-parts : sum parts ≡ sum_out net
  sum-parts =
      sum-chunk_sums _ (bucket_size_pos (length ordered)) ordered (length ordered) 0 (omega arith)
      ∙ sum_out-reverse net

  -- The sparkline has at least 2 and at most 24 points. From two connections on, its points add up
  -- to the uploaded total of the page; with fewer it is flat at 0.
  pub spark_bounds :
      (2 ≤ length (spark net))
      × (length (spark net) ≤ 24)
      × (sum (spark net) ≡ (if ltb (length net) 2 then 0 else sum_out net))
  unfolding spark
  spark_bounds = elim (Bool-cases (ltb (length net) 2)) [
    | inl few ↦
        let h : length ordered < 2 = ground (arith, length-reverse net) in
        rw few (rw (two_or_more_short parts (parts_short h)) (omega arith))
    | inr many ↦
        let h : 2 ≤ length ordered = ground (arith, length-reverse net) in
        rw many (rw (two_or_more_long parts (parts_long h)) (parts_long h, parts-le, sum-parts))
  ]
