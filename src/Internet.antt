-- ===== src/Internet.antt =====
-- The internet page (dashboard/app/(app)/internet/page.tsx): its totals, the upload sparkline and
-- the destinations. Byte counts stay below 2^53.
pub mod Hosts
pub mod Spark
pub mod Groups
mod Tests
use sentinel_edr.Common.{
  ℕ, zero, suc, ◌+◌, ◌-◌, ◌/◌, String, Bool, true, false, not, ◌&&◌, Option, none, some, List, [],
  ◌∷◌, ◌++◌, reverse, length, take, drop, filter, all, contains, find_index, next, if◌then◌else◌,
  ltb, leb, nat_beq, get_or, ◌===◌, StrictEq, nat_same, list_same, string_same, ◌*◌,
}
use sentinel_edr.Common.Text.{Text, codes, is_digit}
use sentinel_edr.Common.Sorting.{sort}
use sentinel_edr.Model.{NetInfo, Event}

-- The index of the last occurrence of a code unit; `none` is -1.
abbrev pub last_index : ℕ → Text → Option ℕ
last_index c [] = none
last_index c (x ∷ s) = elim (last_index c s) [
  | some i ↦ some (suc i)
  | none ↦ if nat_beq x c then some 0 else none
]

-- `s.slice(0, s.indexOf("]") + 1)`
abbrev pub bracketed : Text → Text
bracketed s = take (get_or (next (find_index (λ c. nat_beq c b']') s)) 0) s

abbrev pub cut_at : Option ℕ → Text → Text
cut_at none s = s
cut_at (some zero) s = s
cut_at (some (suc i)) s = take (suc i) s

-- `hostOf`; an absent peer is an empty text.
unfoldable pub host_of : Text → Text
host_of [] = []
host_of (c ∷ s) =
    if nat_beq c b'[' then bracketed (c ∷ s) else cut_at (last_index b':' (c ∷ s)) (c ∷ s)

-- `a || b` of texts, where an absent one is empty.
abbrev pub or_text : Text → Text → Text
or_text [] d = d
or_text (c ∷ s) d = c ∷ s

abbrev pub text_of : Option String → Text
text_of none = []
text_of (some s) = codes s

abbrev pub named : Option String → String → Bool
named none t = false
named (some s) t = s === t

unfoldable pub networks : List Event → List NetInfo
networks [] = []
networks (e ∷ es) = elim e.network [ none ↦ networks es | some n ↦ n ∷ networks es ]

unfoldable pub sum_out : List NetInfo → ℕ
sum_out [] = 0
sum_out (n ∷ ns) = get_or n.bytes_out 0 + sum_out ns

unfoldable pub sum_in : List NetInfo → ℕ
sum_in [] = 0
sum_in (n ∷ ns) = get_or n.bytes_in 0 + sum_in ns

-- `cloud` and `webmail`
unfoldable pub count_of : String → List NetInfo → ℕ
count_of c ns = length (filter (λ n. named n.category c) ns)

-- The loop of `spark` from index `i`; its fuel is the number of connections.
unfoldable pub chunk_sums : ℕ → ℕ → ℕ → List NetInfo → List ℕ
unfolding sum_out
chunk_sums zero size i ns = []
chunk_sums (suc fuel) size i ns =
    let rest = chunk_sums fuel size (i + size) ns in
    if ltb i (length ns) then sum_out (take size (drop i ns)) ∷ rest else []

abbrev pub buckets : ℕ
buckets = 24

-- `Math.max(1, Math.ceil(ordered.length / buckets))`
abbrev pub bucket_size : ℕ → ℕ
bucket_size n = let c = (n + 23) / buckets in if ltb c 1 then 1 else c

abbrev pub two_or_more : List ℕ → List ℕ
two_or_more (a ∷ b ∷ out) = a ∷ b ∷ out
two_or_more _ = 0 ∷ 0 ∷ []

unfoldable pub spark : List NetInfo → List ℕ
unfolding chunk_sums
spark net =
    let ordered = reverse net in
    two_or_more (chunk_sums (length ordered) (bucket_size (length ordered)) 0 ordered)

pub record Dest : Type 0 where
  pub domain : Text
  pub hits : ℕ
  pub out : ℕ
  pub in_ : ℕ
  pub cat : Text

unfoldable pub external : NetInfo → Bool
external n = not (named n.direction "inbound") && not (named n.category "internal")

unfoldable pub destination : NetInfo → Text
unfolding host_of
destination n = or_text (text_of n.domain) (or_text (host_of (text_of n.remote)) (codes "unknown"))

-- The names that a plain object inherits: `m[d]` is truthy before any row has been made.
unfoldable pub inherited_names : List Text
inherited_names =
    codes "constructor"
    ∷ codes "toString"
    ∷ codes "toLocaleString"
    ∷ codes "valueOf"
    ∷ codes "hasOwnProperty"
    ∷ codes "isPrototypeOf"
    ∷ codes "propertyIsEnumerable"
    ∷ codes "__proto__"
    ∷ codes "__defineGetter__"
    ∷ codes "__defineSetter__"
    ∷ codes "__lookupGetter__"
    ∷ codes "__lookupSetter__"
    ∷ []

unfoldable pub inherited : Text → Bool
unfolding inherited_names
inherited d = contains inherited_names d

unfoldable pub fresh : Text → NetInfo → Dest
fresh d n = record {
  domain = d;
  hits = 0;
  out = 0;
  in_ = 0;
  cat = or_text (text_of n.category) (codes "web");
}

unfoldable pub counted : Dest → NetInfo → Dest
counted r n = record r {
  hits = r.hits + 1;
  out = r.out + get_or n.bytes_out 0;
  in_ = r.in_ + get_or n.bytes_in 0;
}

unfoldable pub tally : Text → NetInfo → List Dest → List Dest
unfolding fresh counted
tally d n [] = counted (fresh d n) n ∷ []
tally d n (r ∷ m) = let rest = tally d n m in if r.domain === d then counted r n ∷ m else r ∷ rest

-- The body of `forEach`. For an inherited name the counts go to the inherited value, which is no
-- row.
unfoldable pub add : List Dest → NetInfo → List Dest
unfolding destination inherited tally
add m n = let d = destination n in if inherited d then m else tally d n m

unfoldable pub add_all : List Dest → List NetInfo → List Dest
unfolding add
add_all m [] = m
add_all m (n ∷ ns) = add_all (add m n) ns

-- The value of a name that is an array index: digits without a leading zero, below 2^32 - 1.
abbrev pub number : ℕ → Text → ℕ
number n [] = n
number n (c ∷ s) = number (n * 10 + (c - b'0')) s

abbrev pub is_canonical : Text → Bool
is_canonical [] = false
is_canonical (c ∷ []) = is_digit c
is_canonical (c ∷ d ∷ s) = not (nat_beq c b'0') && all is_digit (c ∷ d ∷ s)

abbrev pub index_key : Text → Option ℕ
index_key s = if is_canonical s && ltb (number 0 s) 4294967295 then some (number 0 s) else none

-- The order of `Object.values`: array indices first, by value, and then the order of insertion.
abbrev pub key_before : Dest → Dest → Bool
key_before a b = elim (index_key a.domain) [
  | none ↦ elim (index_key b.domain) [ none ↦ true | some j ↦ false ]
  | some i ↦ elim (index_key b.domain) [ none ↦ true | some j ↦ leb i j ]
]

-- `a.out <= ...`: `b.out - a.out <= 0`
abbrev pub out_before : Dest → Dest → Bool
out_before a b = leb b.out a.out

unfoldable pub dests : List NetInfo → List Dest
unfolding add_all external
dests net = sort out_before (sort key_before (add_all [] (filter external net)))
