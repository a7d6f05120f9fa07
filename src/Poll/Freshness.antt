-- ===== src/Poll/Freshness.antt =====
-- The data on screen against the replies: the short cut for unchanged texts loses nothing.
use sentinel_edr.Common.{
  ℕ, ◌≡◌, ◌≢◌, refl, String, true, false, ◌&&◌, Option, none, some, List, [], ◌∷◌, ◌===◌, nat_same,
  string_same, arith, ◌⊎◌, inl, inr, Bool-cases, All, same_refl, subst,
}
use sentinel_edr.Poll.{
  State, Reply, settled, thrown, is_ok, receive, initial, stop, Event, started, reply, refetch,
  step, run,
}

-- The events but a start and a call of `refetch`.
abbrev pub IsQuiet : Event → Type 0
IsQuiet started = ⊥
IsQuiet refetch = ⊥
IsQuiet _ = Unit

module _ {D : Type 0} (parse : String → Option D) where
  -- A parsed last text is what is shown, and an error is shown only while not live.
  pub record IsFresh (s : State D) : Type 0 where
    pub shown : (d : D) → s.last ≢ "" → parse s.last ≡ some d → s.value ≡ some d
    pub not_both : (s.live ≡ false) ⊎ (s.error ≡ none)

  receive-IsFresh : (r : Reply) (s : State D) → IsFresh s → IsFresh (receive parse r s)
  unfolding receive
  receive-IsFresh thrown s f = record { shown = f.shown; not_both = ground arith }
  receive-IsFresh (settled status text) s f = record {
    shown = λ d n p. ground (arith, f.shown d, string_same.same_iff text s.last);
    not_both = ground arith;
  }

  step-IsFresh : (e : Event) (s : State D) → IsFresh s → IsFresh (step parse e s)
  unfolding step
  step-IsFresh (reply n r) s f = elim (Bool-cases (s.mounted && n === s.effect_run)) [
    | inl e ↦ rw e (receive-IsFresh r s f)
    | inr e ↦ rw e f
  ]
  step-IsFresh started s f = record { shown = f.shown; not_both = f.not_both }
  step-IsFresh e s f = record {
    shown = λ d n p. ground (arith, f.shown d);
    not_both = ground (arith, f.not_both);
  }

  run-IsFresh : (es : List Event) (s : State D) → IsFresh s → IsFresh (run parse es s)
  unfolding run
  run-IsFresh [] s f = f
  run-IsFresh (e ∷ es) s f = run-IsFresh es (step parse e s) (step-IsFresh e s f)

  initial-IsFresh : IsFresh initial
  unfolding initial
  initial-IsFresh = record { shown = λ d n p. absurd (n refl); not_both = ground arith }

  receive_shows :
      (s : State D) (status : ℕ) (text : String) (d : D)
      → IsFresh s
      → is_ok status ≡ true
      → text ≢ ""
      → parse text ≡ some d
      → let s' = receive parse (settled status text) s in
        (s'.value ≡ some d) × (s'.live ≡ true) × (s'.error ≡ none)
  unfolding receive
  receive_shows s status text d f o n p =
      (ground (arith, f.shown d, string_same.same_iff text s.last), ground arith, ground arith)

  step-reply :
      (s : State D) (r : Reply)
      → s.mounted ≡ true
      → step parse (reply s.effect_run r) s ≡ receive parse r s
  unfolding step
  step-reply s r m = simp (m, same_refl s.effect_run)

  -- In every state that the hook reaches, a successful reply to the current effect run whose text
  -- is not empty and parses is on screen afterwards, also where its text is the last one and the
  -- update is skipped; the hook is then live and shows no error.
  pub reply_shown :
      (es : List Event) (s : State D) (status : ℕ) (text : String) (d : D)
      → run parse es initial ≡ s
      → s.mounted ≡ true
      → is_ok status ≡ true
      → text ≢ ""
      → parse text ≡ some d
      → ((step parse (reply s.effect_run (settled status text)) s).value ≡ some d)
        × ((step parse (reply s.effect_run (settled status text)) s).live ≡ true)
        × ((step parse (reply s.effect_run (settled status text)) s).error ≡ none)
  reply_shown es s status text d r m o n p =
      let fresh = subst IsFresh r (run-IsFresh es initial initial-IsFresh) in
      rw (step-reply s (settled status text) m) (receive_shows s status text d fresh o n p)

  -- The hook never shows an error and claims to be live at once.
  pub live_or_error :
      (es : List Event) → let s = run parse es initial in (s.live ≡ false) ⊎ (s.error ≡ none)
  live_or_error es = (run-IsFresh es initial initial-IsFresh).not_both

  step-stop : (e : Event) (s : State D) → IsQuiet e → step parse e (stop s) ≡ stop s
  unfolding step
  step-stop started s q = absurd q
  step-stop refetch s q = absurd q
  step-stop e s q = refl

  -- After its clean-up the hook does nothing: no late reply changes its state, and no timer,
  -- interval, push or focus sends a request, until it is started anew or asked to refetch.
  pub stopped_stays :
      (es : List Event) (s : State D) → All IsQuiet es → run parse es (stop s) ≡ stop s
  unfolding run
  stopped_stays [] s q = refl
  stopped_stays (e ∷ es) s q = rw (step-stop e s q.0) (stopped_stays es s q.1)
