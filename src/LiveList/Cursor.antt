-- ===== src/LiveList/Cursor.antt =====
-- The cursor of the live tail.
use sentinel_edr.Common.{
  ℕ, ◌≤◌, true, false, String, Option, none, some, List, [], ◌∷◌, arith, All, string_same, nat_same,
}
use sentinel_edr.LiveList.{
  Row, State, rows, failed, unseen, prepend, step, run, Event, Options, query_changed, tick_reply,
  pushed, more_reply, ts_num,
}
use sentinel_edr.LiveList.Hidden.{Continues, step-load_run}

module _ (parse : String → Option ℕ) where
  prepend-newest :
      (cap : ℕ) (xs : List Row) (s : State)
      → ts_num parse s.newest ≤ ts_num parse (prepend parse cap xs s).newest
  unfolding prepend
  prepend-newest cap [] s = omega arith
  prepend-newest cap (x ∷ xs) s = ground arith

  step-newest :
      (o : Options) (e : Event) (s : State)
      → Continues s.load_run e
      → ts_num parse s.newest ≤ ts_num parse (step parse o e s).newest
  unfolding step
  step-newest o query_changed s c = absurd c
  step-newest o (tick_reply n (rows j)) s c =
      ground (
        arith,
        prepend-newest o.cap (unseen s.seen j) (record s { connected = true; error = false }),
      )
  step-newest o (pushed none) s c = omega arith
  step-newest o (pushed (some x)) s c = ground arith
  step-newest o (more_reply (rows j)) s c = omega arith
  step-newest o (more_reply failed) s c = omega arith
  step-newest o e s c = ground arith

  -- The time from which the tail asks for rows never goes back while the query stays.
  pub run-newest :
      (o : Options) (es : List Event) (s : State)
      → All (Continues s.load_run) es
      → ts_num parse s.newest ≤ ts_num parse (run parse o es s).newest
  unfolding run
  run-newest o [] s c = omega arith
  run-newest o (e ∷ es) s c = omega (
    arith,
    step-newest o e s c.0,
    run-newest o es (step parse o e s) (rw (step-load_run parse o e s c.0) c.1),
  )
