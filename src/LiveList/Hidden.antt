-- ===== src/LiveList/Hidden.antt =====
-- Rows that are known and not on screen: they never come back before the query changes.
use sentinel_edr.Common.{
  ℕ, zero, suc, ◌≡◌, ◌≢◌, refl, true, false, ◌||◌, String, Option, none, some, List, [], ◌∷◌, ◌++◌,
  arith, All, take, contains, Bool-cases, inl, inr, string_same, nat_same, ◌===◌,
}
use sentinel_edr.LiveList.{
  Row, State, Reply, rows, failed, ids, add_all, unseen, prepend, ticked, push, finish_more, step,
  run, Event, Options, query_changed, tail_restarted, load_reply, tick_reply, pushed, more_asked,
  more_reply,
}
use sentinel_edr.LiveList.Rows.{contains-add_all}

pub record Hidden (k : String) (s : State) : Type 0 where
  pub known : contains s.seen k ≡ true
  pub absent : contains (ids s.items) k ≡ false

-- The events of one query after its first page has been asked for in effect run `n`, without the
-- reply to that request.
abbrev pub Continues : ℕ → Event → Type 0
Continues n query_changed = ⊥
Continues n (load_reply m _) = m ≢ n
Continues n _ = Unit

-- Rows that are not known do not hold a known id.
unseen-absent :
    (seen : List String) (xs : List Row) (k : String)
    → contains seen k ≡ true
    → contains (ids (unseen seen xs)) k ≡ false
unseen-absent seen [] k h = refl
unseen-absent seen (x ∷ xs) k h =
    ground (arith, unseen-absent seen xs k h, string_same.same_iff x.id k)

absent-append :
    (xs ys : List Row) (k : String)
    → contains (ids xs) k ≡ false
    → contains (ids ys) k ≡ false
    → contains (ids (xs ++ ys)) k ≡ false
absent-append [] ys k hx hy = hy
absent-append (x ∷ xs) ys k hx hy = ground (arith, absent-append xs ys k)

absent-take :
    (n : ℕ) (xs : List Row) (k : String)
    → contains (ids xs) k ≡ false
    → contains (ids (take n xs)) k ≡ false
absent-take zero xs k h = refl
absent-take (suc n) [] k h = refl
absent-take (suc n) (x ∷ xs) k h = ground (arith, absent-take n xs k)

module _ (k : String) (parse : String → Option ℕ) (o : Options) (s : State) (h : Hidden k s) where
  still_known : (xs : List Row) → contains (add_all xs s.seen) k ≡ true
  still_known xs = ground (arith, contains-add_all xs s.seen k, h.known)

  prepend-Hidden :
      (xs : List Row) → contains (ids xs) k ≡ false → Hidden k (prepend parse o.cap xs s)
  unfolding prepend
  prepend-Hidden [] a = h
  prepend-Hidden (x ∷ xs) a = record {
    known = still_known (x ∷ xs);
    absent = absent-take o.cap _ k (absent-append (x ∷ xs) s.items k a h.absent);
  }

  push-Hidden : (x : Option Row) → Hidden k (push parse o.cap o.push_filter x s)
  unfolding push
  push-Hidden none = h
  push-Hidden (some x) = elim (Bool-cases (x.id === "" || contains s.seen x.id)) [
    | inl known ↦ rw known h
    | inr new ↦ elim (Bool-cases (o.push_filter x)) [
      | inr out ↦ rw (new, out) h
      | inl shown ↦
          let other : string_same.same x.id k ≡ false =
            ground (arith, string_same.same_iff x.id k, h.known) in
          let next = prepend-Hidden (x ∷ []) (ground arith) in
          rw (new, shown)
            (record {
              known = unfold prepend in next.known;
              absent = unfold prepend in next.absent;
            })
    ]
  ]

  more-Hidden : (j : List Row) → Hidden k (finish_more o.page_size (rows j) s)
  unfolding finish_more
  more-Hidden j = record {
    known = still_known (unseen s.seen j);
    absent = absent-append s.items (unseen s.seen j) k h.absent (unseen-absent s.seen j k h.known);
  }

tick-Hidden :
    (k : String) (parse : String → Option ℕ) (o : Options) (s : State) (reply : Reply)
    → Hidden k s
    → Hidden k (ticked parse o.cap reply s)
unfolding ticked
tick-Hidden k parse o s failed h = record { known = h.known; absent = h.absent }
tick-Hidden k parse o s (rows j) h =
    prepend-Hidden k parse o (record s { connected = true; error = false })
      (record { known = h.known; absent = h.absent }) (unseen s.seen j)
      (unseen-absent s.seen j k h.known)

pub step-Hidden :
    (k : String) (parse : String → Option ℕ) (o : Options) (e : Event) (s : State)
    → Continues s.load_run e
    → Hidden k s
    → Hidden k (step parse o e s)
unfolding step
step-Hidden k parse o query_changed s c h = absurd c
step-Hidden k parse o tail_restarted s c h = record { known = h.known; absent = h.absent }
step-Hidden k parse o (load_reply n reply) s c h = ground (arith, h)
step-Hidden k parse o (tick_reply n reply) s c h = elim (Bool-cases (n === s.tail_run)) [
  | inl e ↦ rw e (tick-Hidden k parse o s reply h)
  | inr e ↦ rw e h
]
step-Hidden k parse o (pushed x) s c h = push-Hidden k parse o s h x
step-Hidden k parse o more_asked s c h = record { known = h.known; absent = h.absent }
step-Hidden k parse o (more_reply (rows j)) s c h = more-Hidden k parse o s h j
step-Hidden k parse o (more_reply failed) s c h = record { known = h.known; absent = h.absent }

prepend-load_run :
    (parse : String → Option ℕ) (cap : ℕ) (xs : List Row) (s : State)
    → (prepend parse cap xs s).load_run ≡ s.load_run
unfolding prepend
prepend-load_run parse cap [] s = refl
prepend-load_run parse cap (x ∷ xs) s = refl

pub step-load_run :
    (parse : String → Option ℕ) (o : Options) (e : Event) (s : State)
    → Continues s.load_run e
    → (step parse o e s).load_run ≡ s.load_run
unfolding step
step-load_run parse o query_changed s c = absurd c
step-load_run parse o (tick_reply n (rows j)) s c =
    let fresh = record s { connected = true; error = false } in
    ground (arith, prepend-load_run parse o.cap (unseen s.seen j) fresh)
step-load_run parse o (pushed none) s c = refl
step-load_run parse o (more_reply (rows j)) s c = refl
step-load_run parse o (more_reply failed) s c = refl
step-load_run parse o e s c = ground arith

-- A known row that is not on screen stays away until the query changes, whatever ticks, pushes and
-- pages bring it.
pub run-Hidden :
    (k : String) (parse : String → Option ℕ) (o : Options) (es : List Event) (s : State)
    → All (Continues s.load_run) es
    → Hidden k s
    → Hidden k (run parse o es s)
unfolding run
run-Hidden k parse o [] s c h = h
run-Hidden k parse o (e ∷ es) s c h =
    run-Hidden k parse o es (step parse o e s) (rw (step-load_run parse o e s c.0) c.1)
      (step-Hidden k parse o e s c.0 h)
