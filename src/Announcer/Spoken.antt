-- ===== src/Announcer/Spoken.antt =====
-- What the live regions hold after a frame.
use sentinel_edr.Common.{
  ◌≡◌, refl, Bool, true, false, List, [], ◌∷◌, ◌++◌, append_assoc, append-nil, Bool-cases, inl, inr,
  if◌then◌else◌, ap, sym, ◌∙◌,
}
use sentinel_edr.Common.Text.{Text}
use sentinel_edr.Announcer.{
  Level, polite, assertive, State, region, set_region, announce, run_frames, frame, announce_all,
}

abbrev pub same_level : Level → Level → Bool
same_level polite polite = true
same_level assertive assertive = true
same_level _ _ = false

-- The last message of a level, or `t` if there is none.
abbrev pub last_of : Level → List (Level × Text) → Text → Text
last_of l [] t = t
last_of l ((k, m) ∷ ms) t = last_of l ms (if same_level k l then m else t)

-- The same, where a message empties the region before it is said.
abbrev emptied : Level → List (Level × Text) → Text → Text
emptied l [] t = t
emptied l ((k, m) ∷ ms) t = emptied l ms (if same_level k l then [] else t)

region_set :
    (l k : Level) (m : Text) (s : State)
    → region l (set_region k m s) ≡ (if same_level k l then m else region l s)
region_set polite polite m s = refl
region_set polite assertive m s = refl
region_set assertive polite m s = refl
region_set assertive assertive m s = refl

region-run_frames :
    (l : Level) (ms : List (Level × Text)) (s : State)
    → region l (run_frames ms s) ≡ last_of l ms (region l s)
unfolding run_frames
region-run_frames l [] s = refl
region-run_frames l ((k, m) ∷ ms) s =
    region-run_frames l ms (set_region k m s) ∙ ap (last_of l ms) (region_set l k m s)

last_of-emptied :
    (l : Level) (ms : List (Level × Text)) (t : Text)
    → last_of l ms (emptied l ms t) ≡ last_of l ms t
last_of-emptied l [] t = refl
last_of-emptied l ((k, m) ∷ ms) t = elim (Bool-cases (same_level k l)) [
  | inl e ↦ rw e refl
  | inr e ↦ rw e (last_of-emptied l ms t)
]

-- The regions are mounted, and these callbacks wait.
abbrev pub IsWaiting : List (Level × Text) → State → Type 0
IsWaiting ms s = (s.mounted ≡ true) × (s.frames ≡ ms)

-- What a message does to mounted regions.
announce_mounted :
    (m : Level × Text) (s : State)
    → s.mounted ≡ true
    → announce m s ≡ set_region m.0 [] (record s { frames = s.frames ++ m ∷ [] })
unfolding announce
announce_mounted m s h =
    ap (λ b. if b then set_region m.0 [] (record s { frames = s.frames ++ m ∷ [] }) else s) h

announce-IsWaiting :
    (m : Level × Text) (ms : List (Level × Text)) (s : State)
    → IsWaiting ms s
    → IsWaiting (ms ++ m ∷ []) (announce m s)
announce-IsWaiting (polite, m) ms s h =
    let e = announce_mounted (polite, m) s h.0 in
    (ap (λ t. t.mounted) e ∙ h.0, ap (λ t. t.frames) e ∙ ap (λ fs. fs ++ (polite, m) ∷ []) h.1)
announce-IsWaiting (assertive, m) ms s h =
    let e = announce_mounted (assertive, m) s h.0 in
    (ap (λ t. t.mounted) e ∙ h.0, ap (λ t. t.frames) e ∙ ap (λ fs. fs ++ (assertive, m) ∷ []) h.1)

region_frames :
    (l : Level) (fs : List (Level × Text)) (s : State)
    → region l (record s { frames = fs }) ≡ region l s
region_frames polite fs s = refl
region_frames assertive fs s = refl

region-announce :
    (l : Level) (m : Level × Text) (s : State)
    → s.mounted ≡ true
    → region l (announce m s) ≡ (if same_level m.0 l then [] else region l s)
region-announce l m s h =
    ap (region l) (announce_mounted m s h)
    ∙ region_set l m.0 [] (record s { frames = s.frames ++ m ∷ [] })
    ∙ ap (λ t. if same_level m.0 l then [] else t) (region_frames l (s.frames ++ m ∷ []) s)

announce_all-IsWaiting :
    (ms ns : List (Level × Text)) (s : State)
    → IsWaiting ms s
    → IsWaiting (ms ++ ns) (announce_all ns s)
unfolding announce_all
announce_all-IsWaiting ms [] s h = (h.0, h.1 ∙ sym (append-nil ms))
announce_all-IsWaiting ms (n ∷ ns) s h =
    let k = announce_all-IsWaiting (ms ++ n ∷ []) ns (announce n s) (announce-IsWaiting n ms s h) in
    (k.0, k.1 ∙ append_assoc ms (n ∷ []) ns)

region-announce_all :
    (l : Level) (ms ns : List (Level × Text)) (s : State)
    → IsWaiting ms s
    → region l (announce_all ns s) ≡ emptied l ns (region l s)
unfolding announce_all
region-announce_all l ms [] s h = refl
region-announce_all l ms (n ∷ ns) s h =
    region-announce_all l (ms ++ n ∷ []) ns (announce n s) (announce-IsWaiting n ms s h)
    ∙ ap (emptied l ns) (region-announce l n s h.0)

-- While the regions are mounted and no callback waits: after any messages and a frame, each region
-- holds the last message of its level, or what it held before if there was none.
pub frame-announce_all :
    (l : Level) (ms : List (Level × Text)) (s : State)
    → IsWaiting [] s
    → region l (frame (announce_all ms s)) ≡ last_of l ms (region l s)
unfolding frame
frame-announce_all l ms s h =
    let t = announce_all ms s in
    let w = announce_all-IsWaiting [] ms s h in
    region-run_frames l t.frames (record t { frames = [] })
    ∙ ap (λ fs. last_of l fs (region l (record t { frames = [] }))) w.1
    ∙ ap (last_of l ms) (region_frames l [] t ∙ region-announce_all l [] ms s h)
    ∙ last_of-emptied l ms (region l s)
