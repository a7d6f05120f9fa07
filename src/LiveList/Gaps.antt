-- ===== src/LiveList/Gaps.antt =====
-- Rows that the list loses, and rows of another query that it shows.
use sentinel_edr.Common.{
  ℕ, ◌≡◌, ◌≢◌, refl, sym, ap, true, false, String, Option, none, some, List, [], ◌∷◌, arith, All,
  contains, Bool-cases, inl, inr, string_same, nat_same, ◌===◌,
}
use sentinel_edr.LiveList.{
  Row, State, rows, failed, ids, unseen, prepend, step, run, Event, Options, query_changed,
  tail_restarted, load_reply, tick_reply, pushed, more_asked, more_reply,
}
use sentinel_edr.LiveList.Rows.{contains-add, contains-add_all}
use sentinel_edr.LiveList.Hidden.{Hidden, Continues, run-Hidden, step-load_run}

-- The known ids only grow while the query stays.
prepend-seen :
    (parse : String → Option ℕ) (cap : ℕ) (xs : List Row) (s : State) (k : String)
    → contains s.seen k ≡ true
    → contains (prepend parse cap xs s).seen k ≡ true
unfolding prepend
prepend-seen parse cap [] s k h = h
prepend-seen parse cap (x ∷ xs) s k h = ground (arith, contains-add_all (x ∷ xs) s.seen k)

step-seen :
    (parse : String → Option ℕ) (o : Options) (e : Event) (s : State) (k : String)
    → Continues s.load_run e
    → contains s.seen k ≡ true
    → contains (step parse o e s).seen k ≡ true
unfolding step
step-seen parse o query_changed s k c h = absurd c
step-seen parse o tail_restarted s k c h = h
step-seen parse o (load_reply n reply) s k c h = ground arith
step-seen parse o (tick_reply n (rows j)) s k c h =
    let fresh = record s { connected = true; error = false } in
    ground (arith, prepend-seen parse o.cap (unseen s.seen j) fresh k h)
step-seen parse o (tick_reply n failed) s k c h = ground arith
step-seen parse o (pushed none) s k c h = h
step-seen parse o (pushed (some x)) s k c h = ground (arith, contains-add x.id s.seen k)
step-seen parse o more_asked s k c h = h
step-seen parse o (more_reply (rows j)) s k c h =
    ground (arith, contains-add_all (unseen s.seen j) s.seen k)
step-seen parse o (more_reply failed) s k c h = h

-- A row that the cap has pushed off the screen is never shown again before the query changes,
-- although `loadMore` asks for the page that holds it.
pub evicted_row_gone :
    (parse : String → Option ℕ) (o : Options) (k : String) (e : Event) (es : List Event) (s : State)
    → contains s.seen k ≡ true
    → Continues s.load_run e
    → contains (ids (step parse o e s).items) k ≡ false
    → All (Continues s.load_run) es
    → contains (ids (run parse o es (step parse o e s)).items) k ≡ false
evicted_row_gone parse o k e es s known c gone cs =
    (run-Hidden k parse o es (step parse o e s) (rw (step-load_run parse o e s c) cs)
      (record { known = step-seen parse o e s k c known; absent = gone })).absent

-- A pushed row that is not known yet becomes known.
push-seen :
    (parse : String → Option ℕ) (o : Options) (x : Row) (s : State)
    → contains s.seen x.id ≡ false
    → x.id ≢ ""
    → o.push_filter x ≡ true
    → contains (step parse o (pushed (some x)) s).seen x.id ≡ true
unfolding step
push-seen parse o x s new named shown = ground (
  arith,
  string_same.same_iff x.id "",
  string_same.same_iff x.id x.id,
  contains-add x.id s.seen x.id,
)

-- The first page replaces what is on screen, and forgets no known id.
load-Hidden :
    (parse : String → Option ℕ) (o : Options) (k : String) (n : ℕ) (j : List Row) (s : State)
    → n ≡ s.load_run
    → contains s.seen k ≡ true
    → contains (ids j) k ≡ false
    → Hidden k (step parse o (load_reply n (rows j)) s)
      × ((step parse o (load_reply n (rows j)) s).load_run ≡ n)
unfolding step
load-Hidden parse o k n j s e known missing = elim (Bool-cases (n === s.load_run)) [
  | inl y ↦
      rw y (record { known = ground (arith, contains-add_all j s.seen k); absent = missing }, sym e)
  | inr no_match ↦ absurd (ground arith)
]

-- A row that is pushed while the first page is on its way is lost, unless that page holds it: the
-- reply overwrites the screen, and the row counts as known until the query changes.
pub pushed_row_lost :
    (parse : String → Option ℕ) (o : Options) (x : Row) (j : List Row) (es : List Event) (s : State)
    → contains s.seen x.id ≡ false
    → x.id ≢ ""
    → o.push_filter x ≡ true
    → contains (ids j) x.id ≡ false
    → All (Continues s.load_run) es
    → contains
        (ids (run parse o (pushed (some x) ∷ load_reply s.load_run (rows j) ∷ es) s).items)
        x.id
      ≡ false
unfolding run
pushed_row_lost parse o x j es s new named shown missing c =
    let between = step parse o (pushed (some x)) s in
    let (hidden, stays) =
      load-Hidden parse o x.id s.load_run j between
        (sym (step-load_run parse o (pushed (some x)) s tt)) (push-seen parse o x s new named shown)
        missing in
    (run-Hidden x.id parse o es (step parse o (load_reply s.load_run (rows j)) between) (rw stays c)
      hidden).absent

unseen-nil : (j : List Row) → unseen [] j ≡ j
unseen-nil [] = refl
unseen-nil (x ∷ j) = ap (◌∷◌ x) (unseen-nil j)

-- A page that `loadMore` asked for before the query changed is shown under the new query.
pub stale_page_shown :
    (parse : String → Option ℕ) (o : Options) (j : List Row) (s : State)
    → (run parse o (query_changed ∷ more_reply (rows j) ∷ []) s).items ≡ j
unfolding run step
stale_page_shown parse o j s = unseen-nil j
