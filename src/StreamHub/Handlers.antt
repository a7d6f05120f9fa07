-- ===== src/StreamHub/Handlers.antt =====
-- The map of handlers, read at a type.
use sentinel_edr.Common.{
  ℕ, ◌≡◌, refl, String, false, not, ◌&&◌, ◌||◌, List, [], ◌∷◌, arith, contains, contains-append,
  Distinct, Distinct-append, All, ◌===◌, nat_same, string_same, Bool-cases, inl, inr,
}
use sentinel_edr.StreamHub.{Handlers, get, add, remove, add_handler, delete_handler}

pub contains-add :
    (h : ℕ) (hs : List ℕ) (j : ℕ) → contains (add h hs) j ≡ (h === j) || contains hs j
contains-add h hs j = ground (arith, contains-append hs (h ∷ []) j)

pub contains-remove :
    (h : ℕ) (hs : List ℕ) (j : ℕ) → contains (remove h hs) j ≡ not (h === j) && contains hs j
contains-remove h [] j = ground arith
contains-remove h (k ∷ hs) j = ground (arith, contains-remove h hs j)

-- A handler hears a type after `add_handler` if it did before, or is the one added for that type.
pub get-add_handler :
    (t : String) (h : ℕ) (m : Handlers) (u : String) (j : ℕ)
    → contains (get u (add_handler t h m)) j ≡ ((t === u) && (h === j)) || contains (get u m) j
unfolding get add_handler
get-add_handler t h [] u j = ground (arith, string_same.same_iff t u)
get-add_handler t h ((v, hs) ∷ m) u j = ground (
  arith,
  get-add_handler t h m u j,
  contains-add h hs j,
  string_same.same_iff t u,
  string_same.same_iff v u,
  string_same.same_iff v t,
)

pub get-delete_handler :
    (t : String) (h : ℕ) (m : Handlers) (u : String) (j : ℕ)
    → contains (get u (delete_handler t h m)) j
      ≡ not ((t === u) && (h === j)) && contains (get u m) j
unfolding get delete_handler
get-delete_handler t h [] u j = ground (arith, string_same.same_iff t u)
get-delete_handler t h ((v, hs) ∷ m) u j = ground (
  arith,
  get-delete_handler t h m u j,
  contains-remove h hs j,
  string_same.same_iff t u,
  string_same.same_iff v u,
  string_same.same_iff v t,
)

add-Distinct : (h : ℕ) (hs : List ℕ) → Distinct hs → Distinct (add h hs)
add-Distinct h hs d = elim (Bool-cases (contains hs h)) [
  | inl e ↦ rw e d
  | inr e ↦ rw e (Distinct-append hs (h ∷ []) d (refl, tt) (apart hs e))
]
  where
    apart : (ks : List ℕ) → contains ks h ≡ false → All (λ k. contains (h ∷ []) k ≡ false) ks
    apart [] a = tt
    apart (k ∷ ks) a = (ground arith, apart ks (ground arith))

remove-Distinct : (h : ℕ) (hs : List ℕ) → Distinct hs → Distinct (remove h hs)
remove-Distinct h [] d = tt
remove-Distinct h (k ∷ hs) d = elim (Bool-cases (k === h)) [
  | inl e ↦ rw e (remove-Distinct h hs d.1)
  | inr e ↦ rw e (ground (arith, contains-remove h hs k, d.0), remove-Distinct h hs d.1)
]

-- No set holds a handler twice.
abbrev pub AreSets : Handlers → Type 0
AreSets [] = Unit
AreSets ((u, hs) ∷ m) = Distinct hs × AreSets m

pub add_handler-AreSets :
    (t : String) (h : ℕ) (m : Handlers) → AreSets m → AreSets (add_handler t h m)
unfolding add_handler
add_handler-AreSets t h [] s = ((refl, tt), tt)
add_handler-AreSets t h ((u, hs) ∷ m) s = elim (Bool-cases (u === t)) [
  | inl e ↦ rw e (add-Distinct h hs s.0, s.1)
  | inr e ↦ rw e (s.0, add_handler-AreSets t h m s.1)
]

pub delete_handler-AreSets :
    (t : String) (h : ℕ) (m : Handlers) → AreSets m → AreSets (delete_handler t h m)
unfolding delete_handler
delete_handler-AreSets t h [] s = tt
delete_handler-AreSets t h ((u, hs) ∷ m) s = elim (Bool-cases (u === t)) [
  | inl e ↦ rw e (remove-Distinct h hs s.0, s.1)
  | inr e ↦ rw e (s.0, delete_handler-AreSets t h m s.1)
]

pub get-Distinct : (t : String) (m : Handlers) → AreSets m → Distinct (get t m)
unfolding get
get-Distinct t [] s = tt
get-Distinct t ((u, hs) ∷ m) s = elim (Bool-cases (u === t)) [
  | inl e ↦ rw e s.0
  | inr e ↦ rw e (get-Distinct t m s.1)
]
