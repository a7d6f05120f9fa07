-- ===== src/Pages/Selection.antt =====
-- The drawer of the cases page over every order of clicks and replies.
use sentinel_edr.Common.{
  ◌≡◌, refl, Option, none, some, List, [], ◌∷◌, All, String, Option-cases, inl, inr,
}
use sentinel_edr.Model.{Case}
use sentinel_edr.Pages.Cases.{
  Drawer, Input, choose, close_drawer, cases_changed, loaded, written, step, run, load, shown,
}

-- The input is not the reply to a change or a note.
abbrev pub IsRead : Input → Type 0
IsRead (written c) = ⊥
IsRead _ = Unit

-- With nothing selected nothing is shown and no reply is wanted.
abbrev pub NothingShown : Option String → Option Case → Option String → Type 0
NothingShown none detail on = (detail ≡ none) × (on ≡ none)
NothingShown (some i) detail on = Unit

abbrev pub IsClosed : Drawer → Type 0
IsClosed d = NothingShown d.sel_id d.detail d.on

load-IsClosed : (d : Drawer) → IsClosed (load d)
unfolding load
load-IsClosed d = elim (Option-cases d.sel_id) [ inl e ↦ rw e (refl, refl) | inr (i, e) ↦ rw e tt ]

shown-IsClosed :
    (sel on : Option String) (detail c : Option Case)
    → NothingShown sel detail on
    → IsClosed (shown on c (record { sel_id = sel; detail = detail; on = on }))
shown-IsClosed (some i) none detail c h = tt
shown-IsClosed (some i) (some j) detail none h = tt
shown-IsClosed (some i) (some j) detail (some c) h = tt
shown-IsClosed none none detail c h = h
shown-IsClosed none (some j) detail c h = cc (h.1)

step-IsClosed : (i : Input) (d : Drawer) → IsRead i → IsClosed d → IsClosed (step i d)
unfolding step
step-IsClosed (choose i) d r h = load-IsClosed (record d { sel_id = some i })
step-IsClosed close_drawer d r h = load-IsClosed (record d { sel_id = none })
step-IsClosed cases_changed d r h = load-IsClosed d
step-IsClosed (loaded c) d r h = shown-IsClosed d.sel_id d.on d.detail c h
step-IsClosed (written c) d r h = absurd r

-- Over every order of clicks, new lists and replies to the drawer's own requests, a drawer with no
-- case selected shows none, and waits for none.
pub run-IsClosed : (is : List Input) (d : Drawer) → All IsRead is → IsClosed d → IsClosed (run is d)
unfolding run
run-IsClosed [] d r h = h
run-IsClosed (i ∷ is) d r h = run-IsClosed is (step i d) r.1 (step-IsClosed i d r.0 h)

-- The reply to a change that comes after the drawer was closed is shown when the next case is
-- opened, whichever it is, until that case is there.
pub late_write_shown :
    (d : Drawer) (c : Case) (i : String)
    → run (close_drawer ∷ written c ∷ choose i ∷ []) d
      ≡ record { sel_id = some i; detail = some c; on = some i }
unfolding run
late_write_shown d c i = refl
