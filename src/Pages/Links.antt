-- ===== src/Pages/Links.antt =====
-- The filters of the events page, its links and its query.
use sentinel_edr.Common.{
  ℕ, String, Option, some, ap, ◌∙◌, take, contains, string_same, ◌≡◌, ◌≢◌, refl, Bool, true, false,
  ◌&&◌, ◌||◌, all, not, if◌then◌else◌, append-nil, sym, [], ◌∷◌, ◌++◌, arith, ◌===◌, list_same,
  nat_same, list_beq_iff, Bool-cases, inl, inr,
}
use sentinel_edr.Common.Text.{Text, codes}
use sentinel_edr.LiveList.{Row, State, push}
use sentinel_edr.Model.{Event}
use sentinel_edr.Pages.{severity_name, is_there}
use sentinel_edr.Pages.Events.{
  Filters, Params, params, hydrate, no_filters, is_pushed, push_filter, all_, unless_all, if_there,
  param, or_old,
}

param-unless_all :
    (n m v : Text) (rest : Params)
    → param n (unless_all m v ++ rest) ≡ (if m === n && not (v === all_) then v else param n rest)
param-unless_all n m v rest = elim (Bool-cases (v === all_)) [
  | inl e ↦ rw e (ground arith)
  | inr e ↦ rw e (ground arith)
]

param-if_there :
    (n m v : Text) (rest : Params)
    → param n (if_there m v ++ rest) ≡ (if m === n && is_there v then v else param n rest)
param-if_there n m [] rest = ground arith
param-if_there n m (c ∷ v) rest = ground arith

-- The value of a name in the query.
abbrev found : Text → Filters → Text
found n f =
    if codes "category" === n && not (f.cat === all_)
    then f.cat
    else if codes "severity" === n && not (f.sev === all_)
    then f.sev
    else if codes "q" === n && is_there f.q
    then f.q
    else if codes "agent_id" === n && is_there f.agent_id
    then f.agent_id
    else if codes "user" === n && is_there f.user
    then f.user
    else []

param-params : (n : Text) (f : Filters) → param n (params f) ≡ found n f
unfolding params
param-params n f = rw (param-unless_all n (codes "category") f.cat _) (
    rw (param-unless_all n (codes "severity") f.sev _) (
      rw (param-if_there n (codes "q") f.q _) (
        rw (param-if_there n (codes "agent_id") f.agent_id _) (
          rw (sym (append-nil (if_there (codes "user") f.user)))
            (rw (param-if_there n (codes "user") f.user []))))))

kept : (v : Text) → or_old (if is_there v then v else []) [] ≡ v
kept [] = refl
kept (c ∷ v) = refl

kept_all : (v : Text) → v ≢ [] → or_old (if not (v === all_) then v else []) all_ ≡ v
kept_all [] n = absurd (n refl)
kept_all (c ∷ v) n = elim (Bool-cases ((c ∷ v) === all_)) [
  | inl e ↦ rw e (sym ((list_beq_iff nat_same (c ∷ v) all_).0 e))
  | inr e ↦ rw e
]

-- A page that is opened with the parameters of another's query has the same filters.
pub hydrate-params : (f : Filters) → f.cat ≢ [] → f.sev ≢ [] → hydrate (params f) no_filters ≡ f
unfolding hydrate
hydrate-params f c s = rw (param-params (codes "category") f) (
    rw (param-params (codes "severity") f) (
      rw (param-params (codes "q") f) (
        rw (param-params (codes "agent_id") f) (
          rw (param-params (codes "user") f) (
            rw (kept_all f.cat c)
              (rw (kept_all f.sev s) (rw (kept f.q) (rw (kept f.agent_id) (rw (kept f.user))))))))))

-- The server's reading of a parameter, for those that the page can test itself.
abbrev pub holds : Event → Text × Text → Bool
holds e p =
    if p.0 === codes "category"
    then codes e.category === p.1
    else if p.0 === codes "severity"
    then severity_name e.severity === p.1
    else false

all-unless_all :
    (e : Event) (m v : Text) (rest : Params)
    → all (holds e) (unless_all m v ++ rest) ≡ (v === all_ || holds e (m, v)) && all (holds e) rest
all-unless_all e m v rest = elim (Bool-cases (v === all_)) [ inl h ↦ rw h | inr h ↦ rw h ]

not_there :
    (f : Filters)
    → is_pushed f ≡ true
    → (is_there f.q ≡ false) × (is_there f.agent_id ≡ false) × (is_there f.user ≡ false)
unfolding is_pushed
not_there f h = ground arith

and_true : (b c : Bool) → b && c ≡ b && (c && true)
and_true b c = ground arith

push_filter-holds :
    (f : Filters) (e : Event) → is_pushed f ≡ true → push_filter f e ≡ all (holds e) (params f)
unfolding push_filter params
push_filter-holds f e h =
    let (q, a, u) = not_there f h in
    rw (all-unless_all e (codes "category") f.cat _) (
      rw (all-unless_all e (codes "severity") f.sev _) (
        rw q (
          rw a (
            rw u (
              and_true (f.cat === all_ || codes e.category === f.cat)
                (f.sev === all_ || severity_name e.severity === f.sev))))))

-- The row of the live list that an event is.
abbrev pub row_of : Event → Row
row_of e = record { id = e.id; ts = e.ts }

items_if :
    (known keeps : Bool) (next s : State)
    → (if known then s else if not keeps then s else next).items
      ≡ (if not known && keeps then next.items else s.items)
items_if true keeps next s = refl
items_if false true next s = refl
items_if false false next s = refl

-- While the page has events pushed, and the hook filters them by the page's test, a pushed event
-- is prepended exactly if it has an id that is not yet known and every parameter of the page's
-- query holds of it; otherwise the list stays as it is.
pub push_filter-params :
    (date_parse : String → Option ℕ) (cap : ℕ) (f : Filters) (keep : Row → Bool) (e : Event)
    (s : State)
    → is_pushed f ≡ true
    → keep (row_of e) ≡ push_filter f e
    → (push date_parse cap keep (some (row_of e)) s).items ≡ (
        if not (e.id === "" || contains s.seen e.id) && all (holds e) (params f)
        then take cap (row_of e ∷ s.items)
        else s.items)
unfolding push
push_filter-params date_parse cap f keep e s h k =
    let known = e.id === "" || contains s.seen e.id in
    items_if known (keep (row_of e)) _ s
    ∙ ap (λ b. if not known && b then take cap (row_of e ∷ s.items) else s.items)
        (k ∙ push_filter-holds f e h)
