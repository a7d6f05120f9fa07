-- ===== src/Feed/Single.antt =====
-- The feed never holds two connections.
use sentinel_edr.Common.{
  ℕ, ◌≡◌, refl, ◌∙◌, Bool, true, false, not, ◌||◌, Option, none, some, List, [], ◌∷◌, ◌===◌,
  nat_same, contains, length-erase, length, if◌then◌else◌, ◌+◌, leb, arith,
}
use sentinel_edr.Common.Text.{Text}
use sentinel_edr.Feed.{deliver, State, Input, initial, on_close, on_retry, clean_up, step, run}

-- While the component is mounted there is one socket, or one timer that will make one; after its
-- clean-up there is no timer. The feed says it is connected only while it has a socket.
abbrev pub IsValid : {M : Type 0} → State M → Type 0
IsValid s =
    ((if s.unmounted then leb (length s.sockets) 1 else length s.sockets + s.timers === 1) ≡ true)
    × ((not s.unmounted || s.timers === 0 ≡ true)
        × (not s.connected || length s.sockets === 1 ≡ true))

module _ {M : Type 0} where
  if-IsValid :
      (b : Bool) (x y : State M)
      → (b ≡ true → IsValid x)
      → (b ≡ false → IsValid y)
      → IsValid (if b then x else y)
  if-IsValid true x y hx hy = hx refl
  if-IsValid false x y hx hy = hy refl

  deliver-IsValid : (o : Option M) (s : State M) → IsValid s → IsValid (deliver o s)
  deliver-IsValid none s h = h
  deliver-IsValid (some m) s h = h

  deliver_kept :
      (o : Option M) (s : State M)
      → ((deliver o s).made ≡ s.made)
        × (((deliver o s).unmounted ≡ s.unmounted) × ((deliver o s).timers ≡ s.timers))
  deliver_kept none s = (refl, (refl, refl))
  deliver_kept (some m) s = (refl, (refl, refl))

  opened-IsValid :
      (i : ℕ) (s : State M)
      → contains s.sockets i ≡ true
      → IsValid s
      → IsValid (record s { connected = true })
  opened-IsValid i s alive (one, (quiet, shown)) =
      (one, (quiet, ground (arith, length-erase i s.sockets alive)))

  on_close-IsValid :
      (i : ℕ) (s : State M) → contains s.sockets i ≡ true → IsValid s → IsValid (on_close i s)
  unfolding on_close
  on_close-IsValid i s alive (one, (quiet, shown)) =
      (ground (arith, length-erase i s.sockets alive), (ground arith, refl))

  on_retry-IsValid : (s : State M) → IsValid s → IsValid (on_retry s)
  unfolding on_retry
  on_retry-IsValid s (one, (quiet, shown)) =
      if-IsValid (s.timers === 0) s _ (λ e. (one, (quiet, shown)))
        (λ e. (ground arith, (ground arith, ground arith)))

  clean_up-IsValid : (s : State M) → s.unmounted ≡ false → IsValid s → IsValid (clean_up s)
  unfolding clean_up
  clean_up-IsValid s m (one, (quiet, shown)) = (ground arith, (ground arith, shown))

  module _ (parse : Text → Option M) where
    step-IsValid : (s : State M) (i : Input) → IsValid s → IsValid (step parse s i)
    unfolding step
    step-IsValid s (Input.opened i) h =
        if-IsValid (contains s.sockets i) _ s (λ e. opened-IsValid i s e h) (λ e. h)
    step-IsValid s (Input.closed i) h =
        if-IsValid (contains s.sockets i) _ s (λ e. on_close-IsValid i s e h) (λ e. h)
    step-IsValid s (Input.errored i) h = if-IsValid (contains s.sockets i) _ s (λ e. h) (λ e. h)
    step-IsValid s (Input.message i data_) h =
        if-IsValid (contains s.sockets i) _ s (λ e. deliver-IsValid (parse data_) s h) (λ e. h)
    step-IsValid s Input.retried h = on_retry-IsValid s h
    step-IsValid s Input.unmount h =
        if-IsValid s.unmounted s _ (λ e. h) (λ e. clean_up-IsValid s e h)

    run-IsValid_from : (s : State M) (is : List Input) → IsValid s → IsValid (run parse s is)
    run-IsValid_from s [] h = h
    run-IsValid_from s (i ∷ is) h = run-IsValid_from (step parse s i) is (step-IsValid s i h)

    -- A clean-up is for good.
    step-unmounted :
        (s : State M) (i : Input)
        → s.unmounted ≡ true
        → s.timers ≡ 0
        → ((step parse s i).made ≡ s.made)
          × (((step parse s i).unmounted ≡ true) × ((step parse s i).timers ≡ 0))
    unfolding step on_close on_retry
    step-unmounted s (Input.opened i) u t = (ground arith, (ground arith, ground arith))
    step-unmounted s (Input.closed i) u t = (ground arith, (ground arith, ground arith))
    step-unmounted s (Input.errored i) u t = (ground arith, (ground arith, ground arith))
    step-unmounted s (Input.message i data_) u t =
        let (m, (k, n)) = deliver_kept (parse data_) s in
        (ground arith, (ground arith, ground arith))
    step-unmounted s Input.retried u t = (ground arith, (ground arith, ground arith))
    step-unmounted s Input.unmount u t = (ground arith, (ground arith, ground arith))

    run-unmounted :
        (s : State M) (is : List Input)
        → s.unmounted ≡ true
        → s.timers ≡ 0
        → (run parse s is).made ≡ s.made
    run-unmounted s [] u t = refl
    run-unmounted s (i ∷ is) u t =
        let (made, (still, none_set)) = step-unmounted s i u t in
        run-unmounted (step parse s i) is still none_set ∙ made

-- In every order of the sockets' events, the timers and the clean-up: while the feed is mounted
-- there is one socket or one timer that will make one, never two; after the clean-up no timer is
-- left; and the feed says it is connected only while it has a socket.
pub feed-IsValid :
    {M : Type 0} (parse : Text → Option M) (is : List Input) → IsValid (run parse initial is)
feed-IsValid parse is = run-IsValid_from parse initial is (refl, (refl, refl))

-- After the clean-up no socket is made any more, whatever late event of a socket or of a timer
-- comes.
pub no_reconnect :
    {M : Type 0} (parse : Text → Option M) (before after : List Input)
    → (run parse initial before).unmounted ≡ true
    → (run parse (run parse initial before) after).made ≡ (run parse initial before).made
no_reconnect parse before after u =
    let (one, (quiet, shown)) = feed-IsValid parse before in
    run-unmounted parse (run parse initial before) after u (ground arith)
