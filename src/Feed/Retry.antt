-- ===== src/Feed/Retry.antt =====
-- The feed comes back after its socket closed.
use sentinel_edr.Common.{
  ℕ, suc, ◌≡◌, refl, true, false, ◌+◌, List, [], ◌∷◌, nat_same, contains, erase, length,
  length-erase, arith, Option,
}
use sentinel_edr.Common.Text.{Text}
use sentinel_edr.Feed.{State, Input, initial, on_close, on_retry, connect, step, run}
use sentinel_edr.Feed.Single.{IsValid, feed-IsValid}

nil_of_length : (xs : List ℕ) → length xs ≡ 0 → xs ≡ []
nil_of_length [] h = refl
nil_of_length (x ∷ xs) h = absurd (omega arith)

module _ {M : Type 0} (parse : Text → Option M) where
  -- While mounted, a socket that is there is the only one, and no timer runs.
  alone :
      (s : State M) (i : ℕ)
      → IsValid s
      → s.unmounted ≡ false
      → contains s.sockets i ≡ true
      → (erase i s.sockets ≡ []) × (s.timers ≡ 0)
  alone s i v u c =
      let one : length s.sockets + s.timers ≡ 1 = ground (arith, v.0) in
      let more : length s.sockets ≡ suc (length (erase i s.sockets)) = length-erase i s.sockets c in
      (nil_of_length (erase i s.sockets) (omega arith), omega arith)

  step-closed :
      (s : State M) (i : ℕ)
      → s.unmounted ≡ false
      → contains s.sockets i ≡ true
      → erase i s.sockets ≡ []
      → s.timers ≡ 0
      → step parse s (Input.closed i)
        ≡ record s { sockets = []; connected = false; timers = 1; unmounted = false }
  unfolding step on_close
  step-closed s i u c e t = ground arith

  step-retried :
      (s : State M) → s.timers ≡ 1 → step parse s Input.retried ≡ connect (record s { timers = 0 })
  unfolding step on_retry
  step-retried s t = ground arith

  step-opened :
      (s : State M) (i : ℕ)
      → s.sockets ≡ i ∷ []
      → step parse s (Input.opened i) ≡ record s { connected = true }
  unfolding step
  step-opened s i e = ground arith

  -- Whatever has happened, while the feed is mounted: after its socket closed and the timer that
  -- this set has fired there is a new socket, and once that opens the feed is connected again.
  pub reconnects :
      (is : List Input) (i : ℕ)
      → (run parse initial is).unmounted ≡ false
      → contains (run parse initial is).sockets i ≡ true
      → let s = run parse initial is in
        let t = run parse s (Input.closed i ∷ Input.retried ∷ Input.opened s.made ∷ []) in
        (t.sockets ≡ s.made ∷ []) × (t.connected ≡ true) × (t.unmounted ≡ false)
  reconnects is i u c =
      let s : State M = run parse initial is in
      let (e, t) = alone s i (feed-IsValid parse is) u c in
      rw (step-closed s i u c e t) (
        rw
          (step-retried
            (record s { sockets = []; connected = false; timers = 1; unmounted = false }) refl)
          (rw
            (step-opened
              (connect
                (record s { sockets = []; connected = false; timers = 0; unmounted = false }))
              s.made refl)
            (refl, refl, refl)))
