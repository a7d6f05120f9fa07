-- ===== src/Store/Alerts.antt =====
-- A detection raises one toast.
use sentinel_edr.Common.{
  String, ◌≡◌, refl, Bool, true, false, some, List, [], ◌∷◌, ◌++◌, string_same, same_refl, contains,
  any, ◌&&◌, ◌===◌, Bool-cases, inl, inr, arith,
}
use sentinel_edr.Model.{Detection}
use sentinel_edr.Store.{
  State, Input, Message, initial, step, run, on_detection, note_detection, on_response, on_agent,
  is_open, is_critical, is_alarming, alert_text,
}

-- What has been seen stays seen.
note_detection-seen :
    (t : String) (d : Detection) (s : State) (i : String)
    → contains s.seen_det i ≡ true
    → contains (note_detection t d s).seen_det i ≡ true
unfolding note_detection
note_detection-seen t d s i h = ground arith

module _ (locale_before : String → String → Bool) where
  step-seen :
      (s : State) (x : Input) (i : String)
      → contains s.seen_det i ≡ true
      → contains (step locale_before s x).seen_det i ≡ true
  unfolding step on_agent on_detection on_response
  step-seen s (Input.live t (Message.detection d)) i h = note_detection-seen t d _ i h
  step-seen s (Input.live t (Message.response r)) i h = ground arith
  step-seen s (Input.live t (Message.event e)) i h = h
  step-seen s (Input.live t (Message.agent a)) i h = h
  step-seen s (Input.live t (Message.case_ c)) i h = h
  step-seen s (Input.live t Message.stats) i h = h
  step-seen s _ i h = h

  run-seen :
      (s : State) (xs : List Input) (i : String)
      → contains s.seen_det i ≡ true
      → contains (run locale_before s xs).seen_det i ≡ true
  run-seen s [] i h = h
  run-seen s (x ∷ xs) i h = run-seen (step locale_before s x) xs i (step-seen s x i h)

on_detection-toasts_seen :
    (t : String) (d : Detection) (s : State)
    → contains s.seen_det d.id ≡ true
    → (on_detection t d s).toasts ≡ s.toasts
unfolding on_detection note_detection
on_detection-toasts_seen t d s h = ground arith

on_detection-seen :
    (t : String) (d : Detection) (s : State)
    → is_open d ≡ true
    → contains s.seen_det d.id ≡ false
    → contains (on_detection t d s).seen_det d.id ≡ true
unfolding on_detection note_detection
on_detection-seen t d s o new = ground (arith, same_refl d.id)

alert_of_new :
    (locale_before : String → String → Bool) (t u : String) (d e : Detection) (s : State)
    (xs : List Input)
    → is_open d ≡ true
    → is_alarming d ≡ true
    → contains s.seen_det d.id ≡ false
    → e.id ≡ d.id
    → ((on_detection t d s).toasts
        ≡ s.toasts ++ record { id = t; text = alert_text d; crit = some (is_critical d) } ∷ [])
      × ((on_detection u e (run locale_before (on_detection t d s) xs)).toasts
          ≡ (run locale_before (on_detection t d s) xs).toasts)
unfolding on_detection note_detection
alert_of_new locale_before t u d e s xs o a new same_id = (
  rw (o, a, new) refl,
  on_detection-toasts_seen u e _
      (rw same_id (run-seen locale_before _ xs d.id (on_detection-seen t d s o new))),
)

-- An open form of the detection comes in.
abbrev pub is_open_form : String → Input → Bool
is_open_form i (Input.live t (Message.detection d)) = (d.id === i) && is_open d
is_open_form i _ = false

note_detection-unseen :
    (t : String) (d : Detection) (s : State) (i : String)
    → (d.id === i) && is_open d ≡ false
    → contains s.seen_det i ≡ false
    → contains (note_detection t d s).seen_det i ≡ false
unfolding note_detection
note_detection-unseen t d s i o h = ground arith

module _ (locale_before : String → String → Bool) where
  step-unseen :
      (s : State) (x : Input) (i : String)
      → is_open_form i x ≡ false
      → contains s.seen_det i ≡ false
      → contains (step locale_before s x).seen_det i ≡ false
  unfolding step on_agent on_detection on_response
  step-unseen s (Input.live t (Message.detection d)) i o h = note_detection-unseen t d _ i o h
  step-unseen s (Input.live t (Message.response r)) i o h = ground arith
  step-unseen s (Input.live t (Message.event e)) i o h = h
  step-unseen s (Input.live t (Message.agent a)) i o h = h
  step-unseen s (Input.live t (Message.case_ c)) i o h = h
  step-unseen s (Input.live t Message.stats) i o h = h
  step-unseen s _ i o h = h

  run-unseen :
      (s : State) (xs : List Input) (i : String)
      → any (is_open_form i) xs ≡ false
      → contains s.seen_det i ≡ false
      → contains (run locale_before s xs).seen_det i ≡ false
  run-unseen s [] i o h = h
  run-unseen s (x ∷ xs) i o h = elim (Bool-cases (is_open_form i x)) [
    | inl y ↦ ground arith
    | inr n ↦ run-unseen (step locale_before s x) xs i (ground arith) (step-unseen s x i n h)
  ]

-- If no open form of a detection has come before, its open, high or critical form raises one
-- toast, marked when it is critical; whatever comes in between, no later form of the same
-- detection raises another.
pub alert_once :
    (locale_before : String → String → Bool) (t u : String) (d e : Detection)
    (before xs : List Input)
    → any (is_open_form d.id) before ≡ false
    → is_open d ≡ true
    → is_alarming d ≡ true
    → e.id ≡ d.id
    → let s = run locale_before initial before in
      ((on_detection t d s).toasts
        ≡ s.toasts ++ record { id = t; text = alert_text d; crit = some (is_critical d) } ∷ [])
      × ((on_detection u e (run locale_before (on_detection t d s) xs)).toasts
          ≡ (run locale_before (on_detection t d s) xs).toasts)
alert_once locale_before t u d e before xs fresh o a same_id =
    alert_of_new locale_before t u d e _ xs o a
      (run-unseen locale_before initial before d.id fresh refl) same_id
