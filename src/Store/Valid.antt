-- ===== src/Store/Valid.antt =====
-- The lists hold no id twice and stay within the cap.
use sentinel_edr.Common.{
  filter, ◌++◌, contains, not, ◌&&◌, String, ◌≡◌, Bool, true, false, some, List, [], ◌∷◌, ◌===◌,
  string_same, All, get_or, ◌≤◌, length, length-take-le, arith, find, if◌then◌else◌, ◌∙◌, take,
}
use sentinel_edr.Common.Sorting.{IsSorted, sort-IsSorted}
use sentinel_edr.Model.{Agent, Detection}
use sentinel_edr.Store.Rows.{
  is, Unique, Unique-put, Unique-take, Unique-sort, Unique-replace, find-sort, find-replace,
}
use sentinel_edr.Store.{
  is_open, is_alarming, State, Input, Message, initial, cap, put, step, run, on_agent, by_hostname,
  on_detection, note_detection, on_response,
}

-- A list of rows with distinct ids, no longer than the cap.
abbrev IsList {ℓ} : {A : Type ℓ} → (A → String) → List A → Type 0
IsList id xs = Unique id xs × (length xs ≤ cap)

abbrev pub IsValid : State → Type 0
IsValid s =
    Unique (λ a. a.id) s.agents
    × (IsList (λ d. d.id) s.detections
        × (IsList (λ r. r.id) s.responses × (Unique (λ c. c.id) s.cases × (length s.events ≤ cap))))

-- What the server's replies keep to: no list names an id twice, and the capped ones are short
-- enough (the console asks for at most 200 rows).
abbrev pub IsFair : Input → Type 0
IsFair (Input.agents_reply a) = Unique (λ a. a.id) (get_or a [])
IsFair (Input.events_reply e) = length (get_or e []) ≤ cap
IsFair (Input.detections_reply d) = IsList (λ d. d.id) (get_or d [])
IsFair (Input.responses_reply r) = IsList (λ r. r.id) (get_or r [])
IsFair (Input.cases_reply c) = Unique (λ c. c.id) (get_or c [])
IsFair _ = Unit

IsList-put :
    {A : Type 0} (id : A → String) (x : A) (xs : List A)
    → IsList id xs
    → IsList id (take cap (put id x xs))
IsList-put id x xs h =
    (Unique-take id cap (put id x xs) (Unique-put id x xs h.0), length-take-le cap (put id x xs))

-- Both branches are valid.
if-IsValid : (b : Bool) (x y : State) → IsValid x → IsValid y → IsValid (if b then x else y)
if-IsValid true x y hx hy = hx
if-IsValid false x y hx hy = hy

note_detection-IsValid :
    (t : String) (d : Detection) (s : State) → IsValid s → IsValid (note_detection t d s)
unfolding note_detection
note_detection-IsValid t d s h =
    if-IsValid (not (contains s.seen_det d.id) && is_open d) _ _
      (if-IsValid (is_alarming d) _ _ h h) h

module _ (locale_before : String → String → Bool) where
  step-IsValid : (s : State) (i : Input) → IsFair i → IsValid s → IsValid (step locale_before s i)
  unfolding step on_agent on_detection on_response
  step-IsValid s (Input.overview_reply o) f h = h
  step-IsValid s (Input.agents_reply a) f h = (f, h.1)
  step-IsValid s (Input.events_reply e) f (a, (d, (r, (c, e0)))) = (a, (d, (r, (c, f))))
  step-IsValid s (Input.detections_reply d) f (a, (d0, rest)) = (a, (f, rest))
  step-IsValid s (Input.responses_reply r) f (a, (d, (r0, rest))) = (a, (d, (f, rest)))
  step-IsValid s (Input.cases_reply c) f (a, (d, (r, (c0, e)))) = (a, (d, (r, (f, e))))
  step-IsValid s (Input.toast id text crit) f h = h
  step-IsValid s (Input.dismiss id) f h = h
  step-IsValid s (Input.live t (Message.event e)) f (a, (d, (r, (c, e0)))) =
      (a, (d, (r, (c, length-take-le cap (e ∷ s.events)))))
  step-IsValid s (Input.live t (Message.detection d)) f (a, (d0, rest)) =
      note_detection-IsValid t d _ (a, (IsList-put (λ d. d.id) d s.detections d0, rest))
  step-IsValid s (Input.live t (Message.response r)) f (a, (d, (r0, rest))) =
      if-IsValid (r.status === "completed") _ _
        (a, (d, (IsList-put (λ r. r.id) r s.responses r0, rest)))
        (a, (d, (IsList-put (λ r. r.id) r s.responses r0, rest)))
  step-IsValid s (Input.live t (Message.agent x)) f (a, rest) = (
    Unique-sort (λ a. a.id) (by_hostname locale_before) _ (Unique-replace (λ a. a.id) x s.agents a),
    rest,
  )
  step-IsValid s (Input.live t (Message.case_ x)) f (a, (d, (r, (c, e)))) =
      (a, (d, (r, (Unique-put (λ c. c.id) x s.cases c, e))))
  step-IsValid s (Input.live t Message.stats) f h = h

  run-IsValid_of :
      (s : State) (is : List Input) → All IsFair is → IsValid s → IsValid (run locale_before s is)
  run-IsValid_of s [] f h = h
  run-IsValid_of s (i ∷ is) f h =
      run-IsValid_of (step locale_before s i) is f.1 (step-IsValid s i f.0 h)

-- From the start of the console on, whatever replies, live messages and toasts come in whatever
-- order, no list of agents, detections, responses or cases holds an id twice, and events,
-- detections and responses stay within the cap, if no reply holds an id twice or is longer.
pub run-IsValid_start :
    (locale_before : String → String → Bool) (is : List Input)
    → All IsFair is
    → IsValid (run locale_before initial is)
run-IsValid_start locale_before is f =
    run-IsValid_of locale_before initial is f
      (tt, ((tt, omega arith), ((tt, omega arith), (tt, omega arith))))

-- An agent's message takes the place of the agent's row, leaves the other agents as they are, and
-- orders the list by host name, where the collation is total and transitive and no id stands
-- twice in the list.
pub on_agent-upsert :
    (locale_before : String → String → Bool)
    → ((x y : String) → locale_before x y ≡ false → locale_before y x ≡ true)
    → ((x y z : String)
        → locale_before x y ≡ true
        → locale_before y z ≡ true
        → locale_before x z ≡ true)
    → (a : Agent) (s : State) → Unique (λ x. x.id) s.agents
    → ((i : String)
        → find (is (λ x. x.id) i) (on_agent locale_before a s).agents
          ≡ (if a.id === i then some a else find (is (λ x. x.id) i) s.agents))
      × IsSorted (by_hostname locale_before) (on_agent locale_before a s).agents
unfolding on_agent
on_agent-upsert locale_before total trans a s u = (
  λ i.
      find-sort (λ x. x.id) (by_hostname locale_before) i _
        (Unique-replace (λ x. x.id) a s.agents u)
      ∙ find-replace (λ x. x.id) i a s.agents,
  sort-IsSorted (by_hostname locale_before) (λ x y. total x.hostname y.hostname)
      (λ x y z. trans x.hostname y.hostname z.hostname)
      (filter (λ x. not (x.id === a.id)) s.agents ++ a ∷ []),
)
