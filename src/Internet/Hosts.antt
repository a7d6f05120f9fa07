-- ===== src/Internet/Hosts.antt =====
-- The host of a peer.
use sentinel_edr.Common.{
  ℕ, suc, ◌≡◌, ◌≢◌, refl, none, some, [], ◌∷◌, ◌++◌, arith, Option, take, length, Bool, find_index,
  nat_beq,
}
use sentinel_edr.Common.Text.{Text, Lacks}
use sentinel_edr.Internet.{last_index, host_of}

last_index_of_Lacks : (c : ℕ) (s : Text) → Lacks c s → last_index c s ≡ none
last_index_of_Lacks c [] h = refl
last_index_of_Lacks c (x ∷ s) h = rw (last_index_of_Lacks c s h.1) (ground arith)

last_index-append : (c : ℕ) (s t : Text) → Lacks c t → last_index c (s ++ c ∷ t) ≡ some (length s)
last_index-append c [] t h = rw (last_index_of_Lacks c t h) (ground arith)
last_index-append c (x ∷ s) t h = rw (last_index-append c s t h)

take-append_length : (s t : Text) → take (length s) (s ++ t) ≡ s
take-append_length [] t = refl
take-append_length (x ∷ s) t = rw (take-append_length s t)

take-append_next : (s : Text) (x : ℕ) (t : Text) → take (suc (length s)) (s ++ x ∷ t) ≡ s ++ x ∷ []
take-append_next [] x t = refl
take-append_next (y ∷ s) x t = rw (take-append_next s x t)

abbrev bracket : ℕ → Bool
bracket c = nat_beq c b']'

find_index-append :
    (s t : Text) → Lacks b']' s → find_index bracket (s ++ b']' ∷ t) ≡ some (length s)
find_index-append [] t h = refl
find_index-append (x ∷ s) t h = ground (arith, find_index-append s t h.1)

-- The addresses that the code's comment names: a host without colons, and an IPv6 address.
pub data Address : Type 0 where
  host : ℕ → Text → Address
  v6 : Text → Address

abbrev pub IsAddress : Address → Type 0
IsAddress (host c s) = (c ≢ b'[') × Lacks b':' (c ∷ s)
IsAddress (v6 s) = Lacks b']' s

abbrev pub shown : Address → Text
shown (host c s) = c ∷ s
shown (v6 s) = b'[' ∷ (s ++ b']' ∷ [])

abbrev pub IsPort : Option Text → Type 0
IsPort none = Unit
IsPort (some port) = Lacks b':' port

-- An address, and after a colon the port that there may be.
abbrev pub written : Address → Option Text → Text
written (host c s) none = c ∷ s
written (host c s) (some port) = (c ∷ s) ++ b':' ∷ port
written (v6 s) none = b'[' ∷ (s ++ b']' ∷ [])
written (v6 s) (some port) = b'[' ∷ (s ++ b']' ∷ b':' ∷ port)

first_bracket :
    (s t : Text)
    → Lacks b']' s
    → find_index bracket (b'[' ∷ (s ++ b']' ∷ t)) ≡ some (suc (length s))
first_bracket s t h = find_index-append (b'[' ∷ s) t (omega arith, h)

-- The host is read back from an address, with or without a port.
pub host_of-written :
    (a : Address) (port : Option Text)
    → IsAddress a
    → IsPort port
    → host_of (written a port) ≡ shown a
unfolding host_of
host_of-written (host c s) none h p =
    let last : last_index b':' (c ∷ s) ≡ none = last_index_of_Lacks b':' (c ∷ s) h.1 in ground arith
host_of-written (host c s) (some port) h p =
    let last : last_index b':' ((c ∷ s) ++ b':' ∷ port) ≡ some (suc (length s)) =
      last_index-append b':' (c ∷ s) port p in
    let cut : take (suc (length s)) ((c ∷ s) ++ b':' ∷ port) ≡ c ∷ s =
      take-append_length (c ∷ s) (b':' ∷ port) in
    ground arith
host_of-written (v6 s) none h p = rw (first_bracket s [] h) (take-append_next (b'[' ∷ s) b']' [])
host_of-written (v6 s) (some port) h p =
    rw (first_bracket s (b':' ∷ port) h) (take-append_next (b'[' ∷ s) b']' (b':' ∷ port))
