-- ===== src/Screens/Domains.antt =====
-- web/src/pages/Internet.tsx: the figures and the top destinations. The names that every object
-- inherits are out of the model.
use sentinel_edr.Common.{
  ℕ, suc, ◌+◌, ◌≡◌, Option, none, some, List, [], ◌∷◌, length, take, if◌then◌else◌, String, ◌===◌,
  string_same, leb, get_or, arith, Bool-cases, inl, inr,
}
use sentinel_edr.Common.Sorting.{sort}
use sentinel_edr.Model.{Event, NetInfo}

pub record Row : Type 0 where
  pub domain : String
  pub hits : ℕ
  pub out : ℕ
  pub cat : String

-- The events of the network that have its details, by these.
unfoldable pub net : List Event → List NetInfo
net [] = []
net (e ∷ es) =
    let rest = net es in
    elim e.network [ none ↦ rest | some n ↦ if e.category === "network" then n ∷ rest else rest ]

-- `a || b`
abbrev pub or_else : Option String → String → String
or_else none d = d
or_else (some s) d = if s === "" then d else s

abbrev pub domain_of : NetInfo → String
domain_of n = or_else n.domain (or_else n.remote "unknown")

abbrev pub sent : NetInfo → ℕ
sent n = get_or n.bytes_out 0

unfoldable pub add : NetInfo → List Row → List Row
add n [] =
    record { domain = domain_of n; hits = 1; out = sent n; cat = or_else n.category "web" } ∷ []
add n (r ∷ rs) =
    let rest = add n rs in
    if r.domain === domain_of n
    then record r { hits = suc r.hits; out = r.out + sent n } ∷ rs
    else r ∷ rest

unfoldable pub gather : List NetInfo → List Row → List Row
gather [] rs = rs
gather (n ∷ ns) rs = gather ns (add n rs)

unfoldable pub top_domains : List NetInfo → List Row
top_domains ns = take 12 (sort (λ a b. leb b.out a.out) (gather ns []))

unfoldable pub total_out : List NetInfo → ℕ
total_out [] = 0
total_out (n ∷ ns) = sent n + total_out ns

abbrev pub hits_of : List Row → ℕ
hits_of [] = 0
hits_of (r ∷ rs) = r.hits + hits_of rs

abbrev pub out_of : List Row → ℕ
out_of [] = 0
out_of (r ∷ rs) = r.out + out_of rs

add-totals :
    (n : NetInfo) (rs : List Row)
    → (hits_of (add n rs) ≡ suc (hits_of rs)) × (out_of (add n rs) ≡ sent n + out_of rs)
unfolding add
add-totals n [] = (omega arith, omega arith)
add-totals n (r ∷ rs) =
    let (h, o) = add-totals n rs in
    elim (Bool-cases (r.domain === domain_of n)) [
      | inl e ↦ rw e (omega arith, omega arith)
      | inr e ↦ rw e (omega (arith, h), omega (arith, o))
    ]

-- The destinations share out the connections and the uploaded bytes of the page, none of which is
-- lost or counted twice.
pub gather-totals :
    (ns : List NetInfo) (rs : List Row)
    → (hits_of (gather ns rs) ≡ length ns + hits_of rs)
      × (out_of (gather ns rs) ≡ total_out ns + out_of rs)
unfolding gather total_out
gather-totals [] rs = (omega arith, omega arith)
gather-totals (n ∷ ns) rs =
    let (h, o) = gather-totals ns (add n rs) in
    let (k, p) = add-totals n rs in (omega (arith, h, k), omega (arith, o, p))
