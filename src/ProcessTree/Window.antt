-- ===== src/ProcessTree/Window.antt =====
-- The processes of the window, by their ids.
use sentinel_edr.Common.{
  ℕ, ◌≡◌, refl, not, ◌&&◌, ◌||◌, Option, none, some, List, [], ◌∷◌, is_some, contains, Distinct,
  Bool-cases, inl, inr, if◌then◌else◌, ◌===◌, nat_same, string_same, arith, String,
}
use sentinel_edr.Model.{Event}
use sentinel_edr.ProcessTree.{
  ByPid, keys, get, set, pid_of, observe, observe_at, better, focus_at, event_at, by_pid, ancestry,
}
use sentinel_edr.ProcessTree.Ancestry.{IsKeyed, Found, ancestry-Found}

pub get-set :
    (p : ℕ) (e : Event) (m : ByPid) (q : ℕ)
    → get q (set p e m) ≡ (if p === q then some e else get q m)
unfolding get set
get-set p e [] q = refl
get-set p e ((k, f) ∷ m) q = ground (arith, get-set p e m q)

contains-keys-set :
    (p : ℕ) (e : Event) (m : ByPid) (q : ℕ)
    → contains (keys (set p e m)) q ≡ (p === q) || contains (keys m) q
unfolding set
contains-keys-set p e [] q = refl
contains-keys-set p e ((k, f) ∷ m) q = ground (arith, contains-keys-set p e m q)

set-Distinct : (p : ℕ) (e : Event) (m : ByPid) → Distinct (keys m) → Distinct (keys (set p e m))
unfolding set
set-Distinct p e [] d = (refl, tt)
set-Distinct p e ((k, f) ∷ m) d = ground (arith, set-Distinct p e m d.1, contains-keys-set p e m k)

set-IsKeyed : (p : ℕ) (e : Event) (m : ByPid) → pid_of e ≡ some p → IsKeyed m → IsKeyed (set p e m)
unfolding set
set-IsKeyed p e [] i k = (i, tt)
set-IsKeyed p e ((q, f) ∷ m) i k = elim (Bool-cases (q === p)) [
  | inl y ↦ rw y (ground arith, k.1)
  | inr n ↦ rw n (k.0, set-IsKeyed p e m i k.1)
]

-- Each process id once, and each event under its own.
pub record IsWindow (m : ByPid) : Type 0 where
  pub keyed : IsKeyed m
  pub distinct : Distinct (keys m)

set-IsWindow :
    (p : ℕ) (e : Event) (m : ByPid) → pid_of e ≡ some p → IsWindow m → IsWindow (set p e m)
set-IsWindow p e m i w = record {
  keyed = set-IsKeyed p e m i w.keyed;
  distinct = set-Distinct p e m w.distinct;
}

observe_at-IsWindow :
    (host : String) (e : Event) (m : ByPid) (o : Option ℕ)
    → pid_of e ≡ o
    → IsWindow m
    → IsWindow (observe_at o host e m)
observe_at-IsWindow host e m none i w = w
observe_at-IsWindow host e m (some p) i w =
    elim (Bool-cases (not (host === "") && not (e.hostname === host))) [
      | inl y ↦ rw y w
      | inr n ↦ elim (Bool-cases (better (get p m) e)) [
        | inl b ↦ rw (n, b) (set-IsWindow p e m i w)
        | inr c ↦ rw (n, c) w
      ]
    ]

observe-IsWindow :
    (host : String) (es : List Event) (m : ByPid) → IsWindow m → IsWindow (observe host es m)
unfolding observe
observe-IsWindow host [] m w = w
observe-IsWindow host (e ∷ es) m w =
    observe-IsWindow host es _ (observe_at-IsWindow host e m (pid_of e) refl w)

focus_at-IsWindow :
    (e : Event) (m : ByPid) (o : Option ℕ) → pid_of e ≡ o → IsWindow m → IsWindow (focus_at o e m)
focus_at-IsWindow e m none i w = w
focus_at-IsWindow e m (some p) i w = set-IsWindow p e m i w

event_at-IsWindow :
    (e : Event) (m : ByPid) (o : Option ℕ) → pid_of e ≡ o → IsWindow m → IsWindow (event_at o e m)
event_at-IsWindow e m none i w = w
event_at-IsWindow e m (some p) i w = elim (Bool-cases (is_some (get p m))) [
  | inl y ↦ rw y w
  | inr n ↦ rw n (set-IsWindow p e m i w)
]

-- Whatever the stream holds, the window has each process id once, under the id of its event.
pub by_pid-IsWindow :
    (events : List Event) (event focus : Event) → IsWindow (by_pid events event focus)
unfolding by_pid
by_pid-IsWindow events event focus = event_at-IsWindow event _ (pid_of event) refl (
    focus_at-IsWindow focus _ (pid_of focus) refl
      (observe-IsWindow event.hostname events [] (record { keyed = tt; distinct = tt })))

event_at_keeps :
    (o : Option ℕ) (e : Event) (m : ByPid) (p : ℕ) (f : Event)
    → get p m ≡ some f
    → get p (event_at o e m) ≡ some f
event_at_keeps none e m p f h = h
event_at_keeps (some q) e m p f h = ground (arith, get-set q e m p)

-- The focused event itself stands in the window, whatever other events its process has.
pub by_pid-focus :
    (events : List Event) (event focus : Event) (p : ℕ)
    → pid_of focus ≡ some p
    → get p (by_pid events event focus) ≡ some focus
unfolding by_pid
by_pid-focus events event focus p i =
    let m = observe event.hostname events [] in
    event_at_keeps (pid_of event) event _ p focus (rw i (ground (arith, get-set p focus m p)))

-- For a focus with a process id the tree is found, whatever the stream holds: the walk up the
-- parents ends, also where their links form a cycle, with a chain of events of the window that
-- ends in the focus, in which each is the parent of the next and no process id stands twice, and
-- whose first event has no known parent, or one that is in the chain already.
pub tree-Found :
    (events : List Event) (event focus : Event) (p : ℕ)
    → pid_of focus ≡ some p
    → (c : List Event) × (ancestry (by_pid events event focus) (some p) ≡ some c)
      × Found (by_pid events event focus) (focus ∷ []) c
tree-Found events event focus p i =
    ancestry-Found (by_pid events event focus) p focus (by_pid-IsWindow events event focus).keyed
      (by_pid-focus events event focus p i)
