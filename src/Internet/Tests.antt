-- ===== src/Internet/Tests.antt =====
-- Peers, parts and destinations of concrete connections.
use sentinel_edr.Common.{
  ℕ, ◌≤◌, ◌≡◌, refl, String, none, some, List, [], ◌∷◌, length, filter, if◌then◌else◌, ltb, arith,
  list_same, nat_same,
}
use sentinel_edr.Common.Text.{Text, codes}
use sentinel_edr.Common.Sorting.{IsSorted}
use sentinel_edr.Model.{NetInfo}
use sentinel_edr.Internet.{host_of, spark, sum_out, dests, external, inherited, out_before}
use sentinel_edr.Internet.Hosts.{host, host_of-written}
use sentinel_edr.Internet.Spark.{sum, spark_bounds}
use sentinel_edr.Internet.Groups.{is_row, to, totals, dests-totals}

abbrev connection : String → String → String → ℕ → NetInfo
connection direction domain remote out = record {
  direction = some direction;
  proto = none;
  remote = some remote;
  domain = some domain;
  url = none;
  category = none;
  bytes_out = some out;
  bytes_in = some 1;
  blocked = none;
}

abbrev sample : List NetInfo
sample =
    connection "outbound" "" "10.0.0.7:443" 5
    ∷ connection "outbound" "a.example" "10.0.0.8:443" 20
    ∷ connection "inbound" "b.example" "10.0.0.9:50000" 7
    ∷ connection "outbound" "" "10.0.0.7:8443" 6
    ∷ connection "outbound" "constructor" "10.0.0.7:8443" 6
    ∷ []

sample_domains :
    dests sample
    ≡ record { domain = codes "a.example"; hits = 1; out = 20; in_ = 1; cat = codes "web" }
      ∷ record { domain = codes "10.0.0.7"; hits = 2; out = 11; in_ = 2; cat = codes "web" }
      ∷ []
unfolding dests
sample_domains = refl

sample_spark : spark sample ≡ 6 ∷ 6 ∷ 7 ∷ 20 ∷ 5 ∷ []
unfolding spark
sample_spark = refl

-- A bare IPv6 address, which the comment on the function does not name, loses its last group.
bare_v6 : host_of (codes "fe80::1") ≡ codes "fe80:"
unfolding host_of
bare_v6 = refl

bracketed_v6 : host_of (codes "[::1]:443") ≡ codes "[::1]"
unfolding host_of
bracketed_v6 = refl

unclosed : host_of (codes "[::1") ≡ []
unfolding host_of
unclosed = refl

host_of-written_example : host_of (codes "1.2:443") ≡ codes "1.2"
host_of-written_example =
    host_of-written (host b'1' (codes ".2")) (some (codes "443")) (omega arith) (omega arith)

spark_bounds_example :
    (2 ≤ length (spark sample))
    × (length (spark sample) ≤ 24)
    × (sum (spark sample) ≡ (if ltb (length sample) 2 then 0 else sum_out sample))
spark_bounds_example = spark_bounds sample

dests-totals_example :
    IsSorted out_before (dests sample)
    × ((d : Text)
        → filter (is_row d) (dests sample)
          ≡ (if inherited d then [] else totals d (to d (filter external sample))))
dests-totals_example = dests-totals sample
