-- ===== src/ProcessTree/Ancestry.antt =====
-- The walk up the parents ends, and what it finds.
use sentinel_edr.Common.{
  ℕ, zero, suc, ◌≤◌, ◌<◌, ◌≡◌, refl, sym, ◌∙◌, append_assoc, true, false, not, ◌⊎◌, ◌++◌, Option,
  none, some, List, [], ◌∷◌, map, filter, length, contains, Distinct, All, Option-cases, Bool-cases,
  inl, inr, ◌===◌, nat_same, arith,
}
use sentinel_edr.Model.{Event}
use sentinel_edr.ProcessTree.{ByPid, keys, get, get?, pid_of, ppid_of, climb, ancestry}

-- Every entry stands under the process id of its event.
abbrev pub IsKeyed : ByPid → Type 0
IsKeyed = All (λ entry. pid_of entry.1 ≡ some entry.0)

pub get-IsKeyed :
    (p : ℕ) (m : ByPid) (e : Event)
    → IsKeyed m
    → get p m ≡ some e
    → (pid_of e ≡ some p) × (contains (keys m) p ≡ true)
unfolding get
get-IsKeyed p [] e k h = cc
get-IsKeyed p ((q, f) ∷ m) e k h = elim (Bool-cases (q === p)) [
  | inl y ↦ (ground (arith, k.0), ground arith)
  | inr n ↦ let (a, b) = get-IsKeyed p m e k.1 (ground arith) in (a, ground arith)
]

-- The keys that the walk has not met.
left : List ℕ → List ℕ → ℕ
left seen ks = length (filter (λ k. not (contains seen k)) ks)

left_mono : (p : ℕ) (seen ks : List ℕ) → left (p ∷ seen) ks ≤ left seen ks
unfolding left
left_mono p seen [] = omega arith
left_mono p seen (k ∷ ks) = ground (arith, left_mono p seen ks)

left-lt :
    (p : ℕ) (seen ks : List ℕ)
    → contains ks p ≡ true
    → contains seen p ≡ false
    → left (p ∷ seen) ks < left seen ks
unfolding left
left-lt p seen [] h n = cc
left-lt p seen (k ∷ ks) h n = ground (arith, left-lt p seen ks, left_mono p seen ks)

-- The parent of each event of the chain stands before it.
abbrev pub Linked : List Event → Type 0
Linked [] = Unit
Linked (x ∷ []) = Unit
Linked (x ∷ y ∷ r) = (ppid_of y ≡ pid_of x) × Linked (y ∷ r)

-- The event that stands in the map under its process id.
abbrev pub Listed : ByPid → Event → Type 0
Listed m e = (p : ℕ) × (pid_of e ≡ some p) × (get p m ≡ some e)

abbrev pub pids : List Event → List (Option ℕ)
pids = map pid_of

-- The chain cannot be made longer: its first event has no known parent, or one in the chain.
abbrev pub IsTop : ByPid → List Event → Type 0
IsTop m [] = ⊥
IsTop m (x ∷ r) =
    (get? (ppid_of x) m ≡ none)
    ⊎ ((q : ℕ) × (s : List ℕ) × (ppid_of x ≡ some q)
        × (pids (x ∷ r) ≡ map some s)
        × (contains s q ≡ true))

get?-IsKeyed :
    (o : Option ℕ) (m : ByPid) (e : Event)
    → IsKeyed m
    → get? o m ≡ some e
    → (p : ℕ) × (o ≡ some p)
      × (pid_of e ≡ some p)
      × (get p m ≡ some e)
      × (contains (keys m) p ≡ true)
get?-IsKeyed none m e k h = cc
get?-IsKeyed (some p) m e k h = let (a, b) = get-IsKeyed p m e k h in (p, refl, a, h, b)

abbrev first : List Event → List Event
first [] = []
first (x ∷ r) = x ∷ []

-- The state of the walk: the chain so far and the process ids met, in the same order, and the next
-- event, which is the known parent of the first of the chain.
record Walk (m : ByPid) (next : Option ℕ) (seen : List ℕ) (chain : List Event) : Type 0 where
  linked : Linked chain
  ids : pids chain ≡ map some seen
  distinct : Distinct seen
  listed : All (Listed m) chain
  parent : All (λ x. ppid_of x ≡ next) (first chain)

-- What a finished walk from a chain has found.
pub record Found (m : ByPid) (chain c : List Event) : Type 0 where
  pub linked : Linked c
  pub ids : (s : List ℕ) × (pids c ≡ map some s) × Distinct s
  pub listed : All (Listed m) c
  pub extends : (pre : List Event) × (c ≡ pre ++ chain)
  pub top : (c ≡ []) ⊎ IsTop m c

step-Walk :
    (m : ByPid) (next : Option ℕ) (seen : List ℕ) (chain : List Event) (e : Event) (p : ℕ)
    → Walk m next seen chain
    → next ≡ some p
    → pid_of e ≡ some p
    → get p m ≡ some e
    → contains seen p ≡ false
    → Walk m (ppid_of e) (p ∷ seen) (e ∷ chain)
step-Walk m next seen [] e p w n i g new = record {
  linked = tt;
  ids = ground (arith, w.ids);
  distinct = (new, w.distinct);
  listed = ((p, i, g), w.listed);
  parent = (refl, tt);
}
step-Walk m next seen (x ∷ r) e p w n i g new = record {
  linked = (ground (arith, w.parent.0), w.linked);
  ids = ground (arith, w.ids);
  distinct = (new, w.distinct);
  listed = ((p, i, g), w.listed);
  parent = (refl, tt);
}

stop-Found :
    (m : ByPid) (next : Option ℕ) (seen : List ℕ) (chain : List Event)
    → Walk m next seen chain
    → (chain ≡ []) ⊎ IsTop m chain
    → Found m chain chain
stop-Found m next seen chain w t = record {
  linked = w.linked;
  ids = (seen, w.ids, w.distinct);
  listed = w.listed;
  extends = ([], refl);
  top = t;
}

IsTop-of_none :
    (m : ByPid) (next : Option ℕ) (seen : List ℕ) (chain : List Event)
    → Walk m next seen chain
    → get? next m ≡ none
    → (chain ≡ []) ⊎ IsTop m chain
IsTop-of_none m next seen [] w e = inl refl
IsTop-of_none m next seen (x ∷ r) w e = inr (inl (rw w.parent.0 e))

IsTop-of_cycle :
    (m : ByPid) (next : Option ℕ) (seen : List ℕ) (chain : List Event) (p : ℕ)
    → Walk m next seen chain
    → next ≡ some p
    → contains seen p ≡ true
    → (chain ≡ []) ⊎ IsTop m chain
IsTop-of_cycle m next seen [] p w n h = inl refl
IsTop-of_cycle m next seen (x ∷ r) p w n h = inr (inr (p, seen, w.parent.0 ∙ n, w.ids, h))

longer-Found :
    {m : ByPid} {chain c : List Event} (e : Event) → Found m (e ∷ chain) c → Found m chain c
longer-Found e f =
    let (pre, eq) = f.extends in
    record {
      linked = f.linked;
      ids = f.ids;
      listed = f.listed;
      extends = (pre ++ e ∷ [], eq ∙ sym (append_assoc pre (e ∷ []) _));
      top = f.top;
    }

climb-Found :
    (f : ℕ) (m : ByPid) (next : Option ℕ) (seen : List ℕ) (chain : List Event)
    → IsKeyed m
    → left seen (keys m) < f
    → Walk m next seen chain
    → (c : List Event) × (climb f m (get? next m) seen chain ≡ some c) × Found m chain c
unfolding climb
climb-Found zero m next seen chain k h w = absurd (omega arith)
climb-Found (suc f) m next seen chain k h w = elim (Option-cases (get? next m)) [
  | inl e ↦ (chain, rw e, stop-Found m next seen chain w (IsTop-of_none m next seen chain w e))
  | inr (e, at) ↦
      let (p, n, i, g, key) = get?-IsKeyed next m e k at in
      elim (Bool-cases (contains seen p)) [
        | inl met ↦ (
          chain,
          rw (at, climb, i, met),
          stop-Found m next seen chain w (IsTop-of_cycle m next seen chain p w n met),
        )
        | inr new ↦
            let less = left-lt p seen (keys m) key new in
            let (c, eq, found) =
              climb-Found f m (ppid_of e) (p ∷ seen) (e ∷ chain) k (omega arith)
                (step-Walk m next seen chain e p w n i g new) in
            (c, rw (at, climb, i, new) eq, longer-Found e found)
      ]
]

left-le : (seen : List ℕ) (m : ByPid) → left seen (keys m) ≤ length m
unfolding left
left-le seen [] = omega arith
left-le seen ((k, e) ∷ m) = ground (arith, left-le seen m)

-- For a focus of the window the walk up the parents ends, also where the links of the stream form
-- a cycle. It finds a chain of events of the window that ends in the focus, in which each is the
-- parent of the next and no process id stands twice, and which cannot be made longer: its first
-- event has no known parent, or one that is in the chain already.
pub ancestry-Found :
    (m : ByPid) (p : ℕ) (e : Event)
    → IsKeyed m
    → get p m ≡ some e
    → (c : List Event) × (ancestry m (some p) ≡ some c) × Found m (e ∷ []) c
unfolding ancestry
ancestry-Found m p e k at =
    let (i, key) = get-IsKeyed p m e k at in
    let start : Walk m (some p) [] [] = record {
      linked = tt;
      ids = refl;
      distinct = tt;
      listed = tt;
      parent = tt;
    } in
    let (c, eq, found) =
      climb-Found (suc (length m)) m (ppid_of e) (p ∷ []) (e ∷ []) k
        (omega (arith, left-le (p ∷ []) m)) (step-Walk m (some p) [] [] e p start refl i at refl) in
    (c, rw (at, climb, i) eq, found)
