-- ===== src/Screens/Confirm.antt =====
-- The components of web/src/components.tsx that keep a state: the two-step confirmation, the copied
-- mark and the drawer's key.
use sentinel_edr.Common.{
  ℕ, zero, suc, Bool, true, false, List, [], ◌∷◌, String, if◌then◌else◌, ◌===◌, string_same,
}

pub record State : Type 0 where
  pub armed : Bool
  -- the timer that disarms is running
  pub timer : Bool

pub data Input : Type 0 where
  arm confirm cancel fired : Input

abbrev pub initial : State
initial = record { armed = false; timer = false }

-- The effect runs when the state has changed: it clears the old timer, and sets one if armed.
unfoldable pub set_armed : Bool → State → State
set_armed b s = elim s.armed [
  | true ↦ if b then s else record { armed = false; timer = false }
  | false ↦ if b then record { armed = true; timer = true } else s
]

-- A click reaches a button only while it is shown. The timer fires only while it runs.
unfoldable pub step : Input → State → State
unfolding set_armed
step arm s = if s.armed then s else set_armed true s
step confirm s = if s.armed then set_armed false s else s
step cancel s = if s.armed then set_armed false s else s
step fired s = if s.timer then set_armed false (record s { timer = false }) else s

-- Whether the input runs the action.
unfoldable pub acts : Input → State → Bool
acts confirm s = s.armed
acts _ s = false

-- How often the action runs.
unfoldable pub runs : List Input → State → ℕ
unfolding step acts
runs [] s = 0
runs (i ∷ is) s = let rest = runs is (step i s) in if acts i s then suc rest else rest

-- The mark of what was copied: every copy sets a timer that takes the mark away.
pub record Copied : Type 0 where
  pub done : Bool
  pub timers : ℕ

pub data Copy : Type 0 where
  written refused expired : Copy

unfoldable pub copy_step : Copy → Copied → Copied
copy_step written s = record { done = true; timers = suc s.timers }
copy_step refused s = s
copy_step expired s = elim s.timers [ zero ↦ s | suc n ↦ record { done = false; timers = n } ]

-- The key that closes the drawer.
unfoldable pub closes : String → Bool
closes key = key === "Escape"

-- The keys that copy, and those that open a row (web/src/ui.tsx).
unfoldable pub activates : String → Bool
activates key = if key === "Enter" then true else key === " "
