-- ===== src/Table/Views.antt =====
-- The saved view of the data table over a reload.
use sentinel_edr.Common.{
  ◌≡◌, ◌≢◌, refl, Bool, true, false, Option, some, List, [], ◌∷◌, All, ap, ◌∙◌,
}
use sentinel_edr.Common.Text.{Text}
use sentinel_edr.Table.{
  Density, comfortable, compact, density_name, View, Parsed, State, density_or, parsed_view,
  restore_view, save, mount, change, run,
}

density_or-density_name : (d e : Density) → density_or (some (density_name d)) e ≡ d
density_or-density_name comfortable e = refl
density_or-density_name compact e = refl

module _ {S V : Type 0} (stringify : View S V → Text) (parse : Text → Option (Parsed S V)) where
  -- JSON reads back what it wrote, and writes no empty text.
  pub record IsJson : Type 0 where
    pub reads :
        (v : View S V)
        → parse (stringify v)
          ≡ some (record {
            sorting = some v.sorting;
            visibility = some v.visibility;
            density = some (density_name v.density);
          })
    pub writes : (v : View S V) → stringify v ≢ []

  -- The storage takes the text of the change.
  abbrev pub HasRoom : Bool × View S V → Type 0
  HasRoom c = c.0 ≡ true

  -- The view is in the storage.
  abbrev pub IsSaved : State S V → Type 0
  IsSaved s = (s.restored ≡ true) × (s.saved ≡ some (stringify s.view))

  change-IsSaved :
      (c : Bool × View S V) (s : State S V)
      → HasRoom c
      → IsSaved s
      → IsSaved (change stringify parse c.0 c.1 s)
  unfolding change save
  change-IsSaved (room, v) s r h = rw h.0 (rw r (refl, refl))

  run-IsSaved :
      (changes : List (Bool × View S V)) (s : State S V)
      → All HasRoom changes
      → IsSaved s
      → IsSaved (run stringify parse changes s)
  unfolding run
  run-IsSaved [] s r h = h
  run-IsSaved (c ∷ changes) s r h =
      run-IsSaved changes (change stringify parse c.0 c.1 s) r.1 (change-IsSaved c s r.0 h)

  mount-IsSaved : (v : View S V) (o : Option Text) → IsSaved (mount stringify parse true v o)
  unfolding mount save
  mount-IsSaved v o = (refl, refl)

  mount_view :
      (room : Bool) (v : View S V) (o : Option Text)
      → (mount stringify parse room v o).view ≡ restore_view stringify parse o v
  unfolding mount save
  mount_view true v o = refl
  mount_view false v o = refl

  module _ (json : IsJson) where
    restore_read :
        (t : Text) (v w : View S V)
        → t ≢ []
        → parse t
          ≡ some (record {
            sorting = some v.sorting;
            visibility = some v.visibility;
            density = some (density_name v.density);
          })
        → restore_view stringify parse (some t) w ≡ v
    unfolding restore_view
    restore_read [] v w n h = absurd (n refl)
    restore_read (c ∷ t) v w n h =
        ap (λ o. parsed_view o w) h
        ∙ ap (λ d. record { sorting = v.sorting; visibility = v.visibility; density = d })
            (density_or-density_name v.density w.density)

    -- A view that was in the storage when the page was left stands in the table again after a
    -- reload, whatever view the table starts with.
    pub mount-run :
        (changes : List (Bool × View S V)) (initial again : View S V) (before : Option Text)
        (room : Bool)
        → All HasRoom changes
        → (mount stringify parse room again
            (run stringify parse changes (mount stringify parse true initial before)).saved).view
          ≡ (run stringify parse changes (mount stringify parse true initial before)).view
    mount-run changes initial again before room r =
        let s = run stringify parse changes (mount stringify parse true initial before) in
        let h : IsSaved s =
          run-IsSaved changes (mount stringify parse true initial before) r
            (mount-IsSaved initial before) in
        mount_view room again s.saved
        ∙ ap (λ o. restore_view stringify parse o again) h.1
        ∙ restore_read (stringify s.view) s.view again (json.writes s.view) (json.reads s.view)
