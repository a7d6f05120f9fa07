-- ===== src/StreamHub/Lifetime.antt =====
-- The connection, the references and the handlers, while components come and go.
use sentinel_edr.Common.{
  ℕ, ◌+◌, ◌<◌, ◌≡◌, refl, ◌↔◌, ◌⊎◌, inr, String, Bool, true, false, ◌&&◌, List, [], ◌∷◌, arith,
  contains, Distinct, erase, length, length-erase, contains-erase, Distinct-erase, if◌then◌else◌,
  StrictEq, nat_same, string_same,
}
use sentinel_edr.StreamHub.{
  Hub, initial, get, subscribe, unsubscribe, watch_status, unwatch_status, timer_fired,
  set_connected,
}
use sentinel_edr.StreamHub.Handlers.{
  get-add_handler, get-delete_handler, AreSets, add_handler-AreSets, delete_handler-AreSets,
}

-- A mounted subscription: of a handler to a type, or of a status callback.
pub data Sub : Type 0 where
  handler : String → ℕ → Sub
  status : ℕ → Sub

abbrev pub sub_beq : Sub → Sub → Bool
sub_beq (handler t h) (handler u k) = string_same.same t u && nat_same.same h k
sub_beq (status c) (status d) = nat_same.same c d
sub_beq _ _ = false

pub sub_beq_iff : (a b : Sub) → (sub_beq a b ≡ true) ↔ (a ≡ b)
sub_beq_iff (handler t h) (handler u k) = ground (arith, string_same.same_iff t u)
sub_beq_iff (handler t h) (status d) = ground arith
sub_beq_iff (status c) (handler u k) = ground arith
sub_beq_iff (status c) (status d) = ground arith

instance abbrev pub sub_eq : StrictEq Sub
sub_eq = record { same = sub_beq; same_iff = sub_beq_iff }

unfoldable pub mount : Sub → Hub → Hub
unfolding subscribe watch_status
mount (handler t h) hub = subscribe t h hub
mount (status cb) hub = (watch_status cb hub).0

unfoldable pub unmount : Sub → Hub → Hub
unfolding unsubscribe unwatch_status
unmount (handler t h) hub = unsubscribe t h hub
unmount (status cb) hub = unwatch_status cb hub

-- One thing that happens, to the hub and to the list of mounted subscriptions. Every subscription
-- has a closure of its own, and is unmounted once; a source reports only while it is open.
pub data Step (hub : Hub) (live : List Sub) : Hub → List Sub → Type 0 where
  mounts : (s : Sub) → contains live s ≡ false → Step hub live (mount s hub) (s ∷ live)
  unmounts : (s : Sub) → contains live s ≡ true → Step hub live (unmount s hub) (erase s live)
  timer : 0 < hub.pending → Step hub live (timer_fired hub).0 live
  reports : (c : Bool) → hub.es ≡ true → Step hub live (set_connected c hub).0 live

pub data Reach : Hub → List Sub → Type 0 where
  start : Reach initial []
  next :
      {hub hub' : Hub} {live live' : List Sub}
      → Reach hub live
      → Step hub live hub' live'
      → Reach hub' live'

pub record Inv (hub : Hub) (live : List Sub) : Type 0 where
  pub refs : hub.refs ≡ length live
  pub open_while_used : 0 < hub.refs → hub.es ≡ true
  pub closing : hub.es ≡ true → (0 < hub.refs) ⊎ (0 < hub.pending)
  pub online : hub.connected ≡ true → hub.es ≡ true
  pub one_source : hub.sources ≡ hub.closed + (if hub.es then 1 else 0)
  pub distinct : Distinct live
  pub sets : AreSets hub.handlers
  pub heard : (t : String) (j : ℕ) → contains (get t hub.handlers) j ≡ contains live (handler t j)

start-Inv : Inv initial []
unfolding initial get
start-Inv = record {
  refs = refl;
  open_while_used = λ h. absurd (omega arith);
  closing = λ h. cc;
  online = λ h. cc;
  one_source = refl;
  distinct = tt;
  sets = tt;
  heard = λ t j. refl;
}

mounts-Inv :
    (hub : Hub) (live : List Sub) (s : Sub)
    → contains live s ≡ false
    → Inv hub live
    → Inv (mount s hub) (s ∷ live)
unfolding mount
mounts-Inv hub live (handler t h) new v = record {
  refs = ground (arith, v.refs);
  open_while_used = ground arith;
  closing = ground (arith, v.closing);
  online = ground (arith, v.online);
  one_source = ground (arith, v.one_source);
  distinct = (new, v.distinct);
  sets = ground (arith, add_handler-AreSets t h hub.handlers v.sets);
  heard = λ u j. ground (arith, get-add_handler t h hub.handlers u j, v.heard u j);
}
mounts-Inv hub live (status cb) new v = record {
  refs = ground (arith, v.refs);
  open_while_used = ground arith;
  closing = ground (arith, v.closing);
  online = ground (arith, v.online);
  one_source = ground (arith, v.one_source);
  distinct = (new, v.distinct);
  sets = ground (arith, v.sets);
  heard = λ u j. ground (arith, v.heard u j);
}

unmounts-Inv :
    (hub : Hub) (live : List Sub) (s : Sub)
    → contains live s ≡ true
    → Inv hub live
    → Inv (unmount s hub) (erase s live)
unfolding unmount
unmounts-Inv hub live (handler t h) known v =
    let fewer = length-erase (handler t h) live known in
    record {
      refs = omega (arith, v.refs);
      open_while_used = λ p. v.open_while_used (omega arith);
      closing = λ p. inr (omega arith);
      online = v.online;
      one_source = v.one_source;
      distinct = Distinct-erase (handler t h) live v.distinct;
      sets = delete_handler-AreSets t h hub.handlers v.sets;
      heard = λ u j. ground (
        arith,
        get-delete_handler t h hub.handlers u j,
        v.heard u j,
        contains-erase (handler t h) live (handler u j) v.distinct,
      );
    }
unmounts-Inv hub live (status cb) known v =
    let fewer = length-erase (status cb) live known in
    record {
      refs = omega (arith, v.refs);
      open_while_used = λ p. v.open_while_used (omega arith);
      closing = λ p. inr (omega arith);
      online = v.online;
      one_source = v.one_source;
      distinct = Distinct-erase (status cb) live v.distinct;
      sets = v.sets;
      heard = λ u j.
          ground (arith, v.heard u j, contains-erase (status cb) live (handler u j) v.distinct);
    }

timer-Inv :
    (hub : Hub) (live : List Sub) → 0 < hub.pending → Inv hub live → Inv (timer_fired hub).0 live
unfolding timer_fired
timer-Inv hub live p v = record {
  refs = ground (arith, v.refs);
  open_while_used = ground (arith, v.open_while_used);
  closing = ground (arith, v.closing);
  online = ground (arith, v.online);
  one_source = ground (arith, v.one_source);
  distinct = v.distinct;
  sets = ground (arith, v.sets);
  heard = λ u j. ground (arith, v.heard u j);
}

reports-Inv :
    (hub : Hub) (live : List Sub) (c : Bool)
    → hub.es ≡ true
    → Inv hub live
    → Inv (set_connected c hub).0 live
unfolding set_connected
reports-Inv hub live c e v = record {
  refs = ground (arith, v.refs);
  open_while_used = ground (arith, v.open_while_used);
  closing = ground (arith, v.closing);
  online = ground (arith, v.online);
  one_source = ground (arith, v.one_source);
  distinct = v.distinct;
  sets = ground (arith, v.sets);
  heard = λ u j. ground (arith, v.heard u j);
}

Step-Inv :
    {hub hub' : Hub} {live live' : List Sub}
    → Step hub live hub' live'
    → Inv hub live
    → Inv hub' live'
Step-Inv {hub} {live} (mounts s new) v = mounts-Inv hub live s new v
Step-Inv {hub} {live} (unmounts s known) v = unmounts-Inv hub live s known v
Step-Inv {hub} {live} (timer p) v = timer-Inv hub live p v
Step-Inv {hub} {live} (reports c e) v = reports-Inv hub live c e v

-- In every reachable state there is at most one open EventSource, one is open while a component
-- is subscribed, `refs` counts the subscriptions, and the handlers of a type are those of the
-- mounted subscriptions, each once.
pub Reach-Inv : {hub : Hub} {live : List Sub} → Reach hub live → Inv hub live
Reach-Inv start = start-Inv
Reach-Inv (next r s) = Step-Inv s (Reach-Inv r)

-- No connection outlives its use: when nothing is mounted and no timer is left, every EventSource
-- that was made has been closed, and the status is "not connected".
pub idle_closed :
    (hub : Hub)
    → Reach hub []
    → hub.pending ≡ 0
    → (hub.es ≡ false) × (hub.connected ≡ false) × (hub.sources ≡ hub.closed)
idle_closed hub r p =
    let v = Reach-Inv r in ground (arith, v.refs, v.closing, v.online, v.one_source)
