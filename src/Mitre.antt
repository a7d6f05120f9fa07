-- ===== src/Mitre.antt =====
-- MITRE ATT&CK enrichment (dashboard/lib/mitre.ts) and its presentation, the technique chips and
-- the kill-chain strip (dashboard/components/mitre.tsx). A technique id is a text. The table is an
-- association list: a key is in upper case, and no inherited property of an object is.
pub mod Table
pub mod Lookup
pub mod Stages
pub mod Window
pub mod Strip
mod Tests
use sentinel_edr.Common.Text.{Text, codes, to_upper, to_lower, trim, split}
use sentinel_edr.Common.{
  ℕ, String, ◌+◌, ◌-◌, ◌≡◌, refl, Bool, true, false, not, ◌&&◌, ◌||◌, Option, none, some, List, [],
  ◌∷◌, ◌++◌, map, if◌then◌else◌, StrictEq, ◌===◌, list_same, nat_same, contains, filter, any, take,
  drop, length, find_index, find, reverse, get_or, ltb,
}
use sentinel_edr.Mitre.Table.{
  Tactic, tactics, tactic_short, tactic_name, tactic_same, Technique, techniques,
}

-- `TECHNIQUES[key]`
unfoldable pub lookup : Text → List (Text × Technique) → Option Technique
lookup key [] = none
lookup key (t ∷ ts) = let rest = lookup key ts in if t.0 === key then some t.1 else rest

-- `key.split(".")[0]`, which every text has
abbrev pub base : List Text → Text
base [] = []
base (p ∷ ps) = p

unfoldable pub key_of : Text → Text
key_of id = to_upper (trim id)

abbrev pub or_else : Option Technique → Option Technique → Option Technique
or_else (some t) other = some t
or_else none other = other

unfoldable pub technique : Text → Option Technique
technique id =
    or_else (lookup (key_of id) techniques) (lookup (base (split b'.' (key_of id))) techniques)

abbrev pub name_of : Text → Option Technique → Text
name_of id none = id
name_of id (some t) = t.name

abbrev pub technique_name : Text → Text
technique_name id = name_of id (technique id)

abbrev pub tactic_of : Option Technique → Option Tactic
tactic_of none = none
tactic_of (some t) = some t.tactic

abbrev pub technique_tactic : Text → Option Tactic
technique_tactic id = tactic_of (technique id)

abbrev pub url_of : List Text → Text
url_of [] = []
url_of (b ∷ []) = codes "https://attack.mitre.org/techniques/" ++ (b ++ codes "/")
url_of (b ∷ [] ∷ ps) = codes "https://attack.mitre.org/techniques/" ++ (b ++ codes "/")
url_of (b ∷ (c ∷ sub) ∷ ps) =
    codes "https://attack.mitre.org/techniques/" ++ (b ++ (codes "/" ++ ((c ∷ sub) ++ codes "/")))

abbrev pub attack_url : Text → Text
attack_url id = url_of (split b'.' (key_of id))

-- The set that the loop fills: a tactic that is in it already is not added again.
abbrev pub add_tactic : Option Tactic → List Tactic → List Tactic
add_tactic none set = set
add_tactic (some t) set = if contains set t then set else set ++ t ∷ []

abbrev pub observe : List Text → List Tactic → List Tactic
observe [] set = set
observe (id ∷ ids) set = observe ids (add_tactic (technique_tactic id) set)

unfoldable pub tactics_from_techniques : List Text → List Tactic
tactics_from_techniques ids = filter (λ t. contains (observe ids []) t) tactics

pub record Chip : Type 0 where
  pub id : Text
  pub href : Text
  pub title : Text
  pub name : Text

pub data Chips : Type 0 where
  dash : Chips
  chips : List Chip → Option ℕ → Chips

abbrev pub in_brackets : Option Tactic → Text
in_brackets none = []
in_brackets (some t) = codes " (" ++ (tactic_name t ++ codes ")")

abbrev pub chip : Text → Chip
chip id = record {
  id = id;
  href = attack_url id;
  title = id ++ (codes " · " ++ (technique_name id ++ in_brackets (technique_tactic id)));
  name = technique_name id;
}

-- `max` is falsy when it is absent or 0 (a 0, which no caller passes, would also be shown).
abbrev pub shown : Option ℕ → List Text → List Text
shown none ids = ids
shown (some max) ids = if max === 0 then ids else take max ids

abbrev pub more : Option ℕ → List Text → Option ℕ
more none ids = none
more (some max) ids =
    if not (max === 0) && ltb max (length ids) then some (length ids - max) else none

unfoldable pub mitre_chips : Option (List Text) → Option ℕ → Chips
mitre_chips none max = Chips.dash
mitre_chips (some []) max = Chips.dash
mitre_chips (some (id ∷ ids)) max =
    Chips.chips (map chip (shown max (id ∷ ids))) (more max (id ∷ ids))

-- The name of a tactic that the server sent as free text. An empty one is no tactic.
abbrev pub add_named : Option Text → List Tactic → List Tactic
add_named none set = set
add_named (some []) set = set
add_named (some (c ∷ tactic)) set =
    add_tactic (find (λ t. to_lower (tactic_name t) === to_lower (c ∷ tactic)) tactics) set

unfoldable pub observed : List Text → Option Text → List Tactic
observed ids tactic = add_named tactic (tactics_from_techniques ids)

-- `Math.max(0, firstIdx - 1)`, where an index of -1 is `none`
abbrev pub window_start : Option ℕ → ℕ
window_start none = 0
window_start (some first) = first - 1

-- `Math.min(n, lastIdx + 2)`, from the index in the reversed list
abbrev pub window_end : ℕ → Option ℕ → ℕ
window_end n none = n
window_end n (some last) = let end = n - 1 - last + 2 in if ltb n end then n else end

unfoldable pub window {ℓ} : {A : Type ℓ} → (A → Bool) → List A → List A
window p xs =
    drop (window_start (find_index p xs))
      (take (window_end (length xs) (find_index p (reverse xs))) xs)

pub record Stage : Type 0 where
  pub title : Tactic
  pub label : String
  pub hot : Bool

abbrev pub stage : List Tactic → Tactic → Stage
stage seen t = record { title = t; label = tactic_short t; hot = contains seen t }

abbrev pub strip_of : List Tactic → Option (List Stage)
strip_of [] = none
strip_of (t ∷ ts) = some (map (stage (t ∷ ts)) (window (contains (t ∷ ts)) tactics))

unfoldable pub kill_chain_strip : Option (List Text) → Option Text → Option (List Stage)
kill_chain_strip ids tactic = strip_of (observed (get_or ids []) tactic)
