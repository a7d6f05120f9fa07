-- ===== src/LiveList/Invariant.antt =====
-- The invariant of the live list, over every sequence of replies, pushes and effect runs.
use sentinel_edr.Common.{
  ℕ, ◌≡◌, refl, Bool, true, false, ◌||◌, String, Option, none, some, List, [], ◌∷◌, ◌++◌, arith,
  All, All-take, All-append, contains, Distinct, Distinct-take, Distinct-append, Bool-cases, inl,
  inr, string_same, nat_same, ◌===◌,
}
use sentinel_edr.LiveList.{
  Row, State, Reply, rows, failed, ids, unseen, loaded, prepend, ticked, push, finish_more, step,
  run, Event, Options, initial, query_changed, tail_restarted, load_reply, tick_reply, pushed,
  more_asked, more_reply,
}
use sentinel_edr.LiveList.Rows.{
  IsValid, added, unseen-new, unseen-Distinct, fresh-ids, known-All, ids-append, ids-take,
}

-- The server sends no id twice in one reply.
abbrev pub IsClean : Reply → Type 0
IsClean (rows j) = Distinct (ids j)
IsClean failed = Unit

abbrev pub IsCleanEvent : Event → Type 0
IsCleanEvent (load_reply _ reply) = IsClean reply
IsCleanEvent (tick_reply _ reply) = IsClean reply
IsCleanEvent (more_reply reply) = IsClean reply
IsCleanEvent _ = Unit

unknown_only :
    (seen : List String) (xs : List Row) (k : String)
    → All (λ x. contains seen x.id ≡ false) xs
    → contains seen k ≡ true
    → contains (ids xs) k ≡ false
unknown_only seen [] k n h = refl
unknown_only seen (x ∷ xs) k n h =
    ground (arith, unknown_only seen xs k n.1 h, string_same.same_iff x.id k)

known-ids :
    (seen : List String) (items xs : List Row)
    → All (λ x. contains seen x.id ≡ true) items
    → All (λ x. contains seen x.id ≡ false) xs
    → All (λ k. contains (ids xs) k ≡ false) (ids items)
known-ids seen [] xs h n = tt
known-ids seen (x ∷ items) xs h n = (unknown_only seen xs x.id n h.0, known-ids seen items xs h.1 n)

joined-IsValid :
    (s : State) (xs : List Row)
    → IsValid s
    → Distinct (ids xs)
    → All (λ x. contains s.seen x.id ≡ false) xs
    → Distinct (ids (xs ++ s.items)) × Distinct (ids (s.items ++ xs))
joined-IsValid s xs v d n = (
  rw (ids-append xs s.items)
      (Distinct-append (ids xs) (ids s.items) d v.distinct (fresh-ids s.seen s.items xs v.known n)),
  rw (ids-append s.items xs)
      (Distinct-append (ids s.items) (ids xs) v.distinct d (known-ids s.seen s.items xs v.known n)),
)

loaded-IsValid :
    (page_size : ℕ) (reply : Reply) (s : State)
    → IsClean reply
    → IsValid s
    → IsValid (loaded page_size reply s)
unfolding loaded
loaded-IsValid page_size (rows j) s c v = record { distinct = c; known = added j s.seen }
loaded-IsValid page_size failed s c v = record { distinct = v.distinct; known = v.known }

prepend-IsValid :
    (parse : String → Option ℕ) (cap : ℕ) (xs : List Row) (s : State)
    → Distinct (ids xs)
    → All (λ x. contains s.seen x.id ≡ false) xs
    → IsValid s
    → IsValid (prepend parse cap xs s)
unfolding prepend
prepend-IsValid parse cap [] s d n v = v
prepend-IsValid parse cap (x ∷ xs) s d n v = record {
  distinct =
      rw (ids-take cap ((x ∷ xs) ++ s.items))
        (Distinct-take cap _ (joined-IsValid s (x ∷ xs) v d n).0);
  known = All-take _ cap ((x ∷ xs) ++ s.items) (
      All-append _ (x ∷ xs) s.items (added (x ∷ xs) s.seen)
        (known-All (x ∷ xs) s.items s.seen v.known));
}

ticked-IsValid :
    (parse : String → Option ℕ) (cap : ℕ) (reply : Reply) (s : State)
    → IsClean reply
    → IsValid s
    → IsValid (ticked parse cap reply s)
unfolding ticked
ticked-IsValid parse cap (rows j) s c v =
    prepend-IsValid parse cap (unseen s.seen j) (record s { connected = true; error = false })
      (unseen-Distinct s.seen j c) (unseen-new s.seen j)
      (record { distinct = v.distinct; known = v.known })
ticked-IsValid parse cap failed s c v = record { distinct = v.distinct; known = v.known }

push-IsValid :
    (parse : String → Option ℕ) (cap : ℕ) (keep : Row → Bool) (x : Option Row) (s : State)
    → IsValid s
    → IsValid (push parse cap keep x s)
unfolding push
push-IsValid parse cap keep none s v = v
push-IsValid parse cap keep (some x) s v = elim (Bool-cases (x.id === "" || contains s.seen x.id)) [
  | inl known ↦ rw known v
  | inr new ↦ elim (Bool-cases (keep x)) [
    | inr out ↦ rw (new, out) v
    | inl shown ↦
        let unknown : contains s.seen x.id ≡ false = ground arith in
        let grown = prepend-IsValid parse cap (x ∷ []) s (refl, tt) (unknown, tt) v in
        rw (new, shown)
          (record {
            distinct = unfold prepend in grown.distinct;
            known = unfold prepend in grown.known;
          })
  ]
]

finish_more-IsValid :
    (page_size : ℕ) (reply : Reply) (s : State)
    → IsClean reply
    → IsValid s
    → IsValid (finish_more page_size reply s)
unfolding finish_more
finish_more-IsValid page_size (rows j) s c v = record {
  distinct =
      (joined-IsValid s (unseen s.seen j) v (unseen-Distinct s.seen j c) (unseen-new s.seen j)).1;
  known =
      All-append _ s.items (unseen s.seen j) (known-All (unseen s.seen j) s.items s.seen v.known)
        (added (unseen s.seen j) s.seen);
}
finish_more-IsValid page_size failed s c v = record { distinct = v.distinct; known = v.known }

-- Every event keeps the invariant, if replies hold no id twice.
pub step-IsValid :
    (parse : String → Option ℕ) (o : Options) (e : Event) (s : State)
    → IsCleanEvent e
    → IsValid s
    → IsValid (step parse o e s)
unfolding step
step-IsValid parse o query_changed s c v = record { distinct = tt; known = tt }
step-IsValid parse o tail_restarted s c v = record { distinct = v.distinct; known = v.known }
step-IsValid parse o (load_reply n reply) s c v = elim (Bool-cases (n === s.load_run)) [
  | inl e ↦ rw e (loaded-IsValid o.page_size reply s c v)
  | inr e ↦ rw e v
]
step-IsValid parse o (tick_reply n reply) s c v = elim (Bool-cases (n === s.tail_run)) [
  | inl e ↦ rw e (ticked-IsValid parse o.cap reply s c v)
  | inr e ↦ rw e v
]
step-IsValid parse o (pushed x) s c v = push-IsValid parse o.cap o.push_filter x s v
step-IsValid parse o more_asked s c v = record { distinct = v.distinct; known = v.known }
step-IsValid parse o (more_reply reply) s c v = finish_more-IsValid o.page_size reply s c v

run_from-IsValid :
    (parse : String → Option ℕ) (o : Options) (es : List Event) (s : State)
    → All IsCleanEvent es
    → IsValid s
    → IsValid (run parse o es s)
unfolding run
run_from-IsValid parse o [] s c v = v
run_from-IsValid parse o (e ∷ es) s c v =
    run_from-IsValid parse o es (step parse o e s) c.1 (step-IsValid parse o e s c.0 v)

-- Whatever arrives in whatever order, from the first render on: no row stands on screen twice,
-- and every row on screen is known, if no reply of the server holds an id twice.
pub run-IsValid :
    (parse : String → Option ℕ) (o : Options) (es : List Event)
    → All IsCleanEvent es
    → IsValid (run parse o es initial)
unfolding initial
run-IsValid parse o es c =
    run_from-IsValid parse o es initial c (record { distinct = tt; known = tt })
