-- ===== src/Mitre/Lookup.antt =====
-- How an id finds its technique.
use sentinel_edr.Common.{◌≡◌, refl, Option, some, none, ◌∷◌, ◌++◌, sym}
use sentinel_edr.Common.Text.{Text, split-append_sep, split_of_Lacks, Lacks}
use sentinel_edr.Mitre.Table.{Technique, techniques}
use sentinel_edr.Mitre.{lookup, key_of, technique, or_else}

or_else_same : (o : Option Technique) → or_else o o ≡ o
or_else_same none = refl
or_else_same (some t) = refl

-- A sub-technique that the table does not list is its parent: where the key of an id is `p.s`, `p`
-- is a key without a dot, and `p.s` is not in the table, the id's technique is that of `p`.
pub technique-sub_technique :
    (id p s : Text)
    → key_of id ≡ p ++ b'.' ∷ s
    → key_of p ≡ p
    → Lacks b'.' p
    → lookup (p ++ b'.' ∷ s) techniques ≡ none
    → technique id ≡ technique p
unfolding technique
technique-sub_technique id p s key parent plain unlisted =
    rw (key, unlisted, parent, split-append_sep b'.' p s plain, split_of_Lacks b'.' p plain)
      (sym (or_else_same (lookup p techniques)))
