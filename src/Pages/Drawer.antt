-- ===== src/Pages/Drawer.antt =====
-- The drawer of the detections page over every order of polls and clicks.
use sentinel_edr.Common.{
  ◌≡◌, refl, true, false, Option, none, some, List, [], ◌∷◌, arith, ◌===◌, string_same, Bool-cases,
  Option-cases, inl, inr, String, sym, ap, subst, ◌∙◌,
}
use sentinel_edr.Model.{Detection, DetectionStatus}
use sentinel_edr.Pages.Detections.{
  State, Input, polled, choose, close_drawer, set_status, set_sev, ask, dismiss, step, run, refresh,
  deep_link, with_id, same_status, updated, open_found, list_effects,
}

-- If the open detection is in the list, then it is shown with the status it has there.
abbrev pub Agrees : Option Detection → Detection → Type 0
Agrees none d = Unit
Agrees (some fresh) d = same_status fresh.status d.status ≡ true

abbrev pub InList : Option (List Detection) → Detection → Type 0
InList none d = Unit
InList (some ds) d = Agrees (with_id d.id ds) d

abbrev pub Fresh : Option Detection → Option (List Detection) → Type 0
Fresh none all = Unit
Fresh (some d) all = InList all d

-- The drawer shows no status that the list contradicts.
abbrev pub IsFresh : State → Type 0
IsFresh s = Fresh s.sel s.all

same_status_refl : (t : DetectionStatus) → same_status t t ≡ true
same_status_refl DetectionStatus.open_ = refl
same_status_refl DetectionStatus.acknowledged = refl
same_status_refl DetectionStatus.closed = refl

with_id_found :
    (i : String) (ds : List Detection) (f : Detection) → with_id i ds ≡ some f → f.id ≡ i
with_id_found i [] f h = cc
with_id_found i (d ∷ ds) f h = elim (Bool-cases (d.id === i)) [
  | inr e ↦ with_id_found i ds f (rw e at h)
  | inl e ↦
      let same : d ≡ f = ground arith in
      sym (ap (λ g. g.id) same) ∙ (string_same.same_iff d.id i).0 e
]

listed :
    {sel : Option Detection} {all : Option (List Detection)} {d : Detection} {ds : List Detection}
    → sel ≡ some d
    → all ≡ some ds
    → Agrees (with_id d.id ds) d
    → Fresh sel all
listed {sel} {all} {d} {ds} e a h =
    subst (λ o. Fresh o all) (sym e) (subst (λ o. InList o d) (sym a) h)

updated-Fresh :
    (d : Detection) (ds : List Detection) (found : Option Detection) (s : State)
    → with_id d.id ds ≡ found
    → s.sel ≡ some d
    → s.all ≡ some ds
    → IsFresh (open_found (updated d found) s)
updated-Fresh d ds none s e sel all = listed sel all (rw e tt)
updated-Fresh d ds (some f) s e sel all = elim (Bool-cases (same_status f.status d.status)) [
  | inl same ↦ rw same (listed sel all (rw e same))
  | inr other ↦
      let id : f.id ≡ d.id = with_id_found d.id ds f e in
      let found : with_id f.id ds ≡ some f = subst (λ i. with_id i ds ≡ some f) (sym id) e in
      rw other (listed refl all (rw found (same_status_refl f.status)))
]

refresh-IsFresh : (s : State) → IsFresh (refresh s)
unfolding refresh
refresh-IsFresh s = elim (Option-cases s.sel) [
  | inl e ↦ rw e tt
  | inr (d, e) ↦ elim (Option-cases s.all) [
    | inl n ↦ rw e (rw n tt)
    | inr (ds, a) ↦ rw e (
        rw a (
          updated-Fresh d ds (with_id d.id ds) (record s { sel = some d; all = some ds }) refl refl
            refl))
  ]
]

step-IsFresh : (i : Input) (s : State) → IsFresh s → IsFresh (step i s)
unfolding step
step-IsFresh (polled ds) s h = refresh-IsFresh (list_effects (record s { all = some ds }))
step-IsFresh (choose d) s h = refresh-IsFresh (record s { sel = some d })
step-IsFresh close_drawer s h = tt
step-IsFresh (set_status t) s h = h
step-IsFresh (set_sev t) s h = h
step-IsFresh (ask p) s h = h
step-IsFresh dismiss s h = h

-- Over every order of polls and clicks: once the effects of the last one have run, the open drawer
-- shows no status that the last list contradicts. (The render before the effects may show the old
-- one.)
pub run-IsFresh : (is : List Input) (s : State) → IsFresh s → IsFresh (run is s)
unfolding run
run-IsFresh [] s h = h
run-IsFresh (i ∷ is) s h = run-IsFresh is (step i s) (step-IsFresh i s h)

deep_link_found :
    (s : State) (i : String) (ds : List Detection) (d : Detection)
    → s.link ≡ some i
    → (i === "") ≡ false
    → with_id i ds ≡ some d
    → deep_link (record s { all = some ds }) ≡ record s { sel = some d; all = some ds }
unfolding deep_link
deep_link_found s i ds d l n h = ground arith

refresh_chosen :
    (s : State) (ds : List Detection) (d : Detection)
    → with_id d.id ds ≡ some d
    → refresh (record s { sel = some d; all = some ds }) ≡ record s { sel = some d; all = some ds }
unfolding refresh
refresh_chosen s ds d h = rw h (rw (same_status_refl d.status))

-- On a page that was opened by a link, closing the drawer lasts until the next list: if the linked
-- detection is in it, the drawer opens again.
pub closed_drawer_reopened :
    (s : State) (i : String) (ds : List Detection) (d : Detection)
    → s.link ≡ some i
    → (i === "") ≡ false
    → with_id i ds ≡ some d
    → ((step close_drawer s).sel ≡ none) × ((step (polled ds) (step close_drawer s)).sel ≡ some d)
unfolding step list_effects
closed_drawer_reopened s i ds d l n h = (
  refl,
  rw (deep_link_found (record s { sel = none }) i ds d l n h) (
      rw (
        refresh_chosen s ds d
          (subst (λ j. with_id j ds ≡ some d) (sym (with_id_found i ds d h)) h))),
)
