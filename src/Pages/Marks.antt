-- ===== src/Pages/Marks.antt =====
-- Which confirmation dialogs look destructive, against the table of destructive verbs
-- (dashboard/lib/response-actions.ts).
use sentinel_edr.Common.{
  ◌≡◌, refl, true, false, Bool, [], ◌∷◌, All, contains, nat_same, list_same, Bool-cases, inl, inr,
  ℕ, zero, suc, All-append, ◌===◌, ◌&&◌, not, Option,
}
use sentinel_edr.Common.Text.{Text, codes}
use sentinel_edr.Format.{destructive}
use sentinel_edr.Calls.{Json}
use sentinel_edr.Model.{Detection, Event, Agent}
use sentinel_edr.Pages.{Pending, text_of, is_there}
use sentinel_edr.Pages.Detections
use sentinel_edr.Pages.Events.{
  Offer, event_actions, kill_offers, pid_of, quarantine_offer, path_of, hash_of, disable_offer,
}
use sentinel_edr.Pages.Endpoints

abbrev pub Marked : Text → Bool → Type 0
Marked verb mark = mark ≡ contains destructive verb

abbrev pub PendingMarked : Pending Detection → Type 0
PendingMarked p = Marked p.type_ p.destructive

abbrev pub ItemMarked : Endpoints.Item → Type 0
ItemMarked i = Marked i.0 i.2

-- The dialog of the events page is always destructive.
abbrev pub OfferMarked : Offer → Type 0
OfferMarked o = Marked o.0 true

disable_item-Marked : (d : Detection) (u : Text) → All PendingMarked (Detections.disable_item d u)
disable_item-Marked d u = elim (Bool-cases (is_there u && not (u === codes "root"))) [
  | inl e ↦ rw e (refl, tt)
  | inr e ↦ rw e tt
]

disable_offer-Marked : (u : Text) → All OfferMarked (disable_offer u)
disable_offer-Marked u = elim (Bool-cases (is_there u && not (u === codes "root"))) [
  | inl e ↦ rw e (refl, tt)
  | inr e ↦ rw e tt
]

quarantine_offer-Marked :
    (path : Text) (hash : Option Json) → All OfferMarked (quarantine_offer path hash)
quarantine_offer-Marked [] hash = tt
quarantine_offer-Marked (c ∷ path) hash = (refl, tt)

kill_offers-Marked : (pid : ℕ) → All OfferMarked (kill_offers pid)
kill_offers-Marked zero = tt
kill_offers-Marked (suc n) = (refl, (refl, tt))

isolation_item-Marked : (b : Bool) → ItemMarked (Endpoints.isolation_item b)
isolation_item-Marked true = refl
isolation_item-Marked false = refl

offers-Marked : (e : Event) → All OfferMarked (event_actions e)
unfolding event_actions
offers-Marked e =
    All-append OfferMarked (kill_offers (pid_of e.process)) _
      (kill_offers-Marked (pid_of e.process))
      (All-append OfferMarked (quarantine_offer (path_of e.file) (hash_of e.file)) _
        (quarantine_offer-Marked (path_of e.file) (hash_of e.file))
        (disable_offer-Marked (text_of e.user)))

-- Whatever the detections, the endpoints and the events page ask about, the dialog is marked as
-- destructive exactly if the verb is in the table of destructive verbs.
pub dialogs-Marked :
    (d : Detection) (a : Agent) (e : Event)
    → All PendingMarked (Detections.menu d)
      × All ItemMarked (Endpoints.menu a)
      × All OfferMarked (event_actions e)
unfolding Detections.menu Endpoints.menu
dialogs-Marked d a e = (
  (
    refl,
    All-append PendingMarked (Detections.disable_item d (text_of d.user)) _
        (disable_item-Marked d (text_of d.user)) (refl, tt),
  ),
  (
    isolation_item-Marked (Endpoints.is_isolated a.status),
    (refl, (refl, (refl, (refl, (refl, (refl, tt)))))),
  ),
  offers-Marked e,
)
