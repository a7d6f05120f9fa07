-- ===== src/Pages/Cases.antt =====
-- dashboard/app/(app)/cases/page.tsx: the drawer with its requests, the changes and notes, and the
-- form of a new case.
use sentinel_edr.Common.{
  not, Option, none, some, List, [], ◌∷◌, if◌then◌else◌, ◌===◌, string_same, list_same, nat_same,
  String,
}
use sentinel_edr.Common.Text.{Text, codes, trim}
use sentinel_edr.Model.{Case}
use sentinel_edr.Calls.{
  Json, text, array, object, field, no_fields, no_items, Fields, optional, Call, Reply, is_ok, M,
  ◌>>=◌, ◌>>◌, emit, pure, read_json, fetch, post_json, post_call, case_path, notes_path, success,
  error, show, created, close_form, Effect, ActionResult,
}
use sentinel_edr.Pages.{is_there, with_status}
use sentinel_edr.Pages.Rules.{emit_all, failed_text}

-- The toast, and then the record in the reply; a body that is no JSON ends the handler here.
abbrev pub show_read : Reply → Text → M (Unit {0}) → M (Unit {0})
show_read r ok more = do emit (success ok); j ← read_json r; emit (show j); more

abbrev pub show_reply : Reply → Text → M (Unit {0}) → Text → M (Unit {0})
show_reply r ok more failed = if is_ok r.status then show_read r ok more else emit (error failed)

unfoldable pub update : Text → Json → Text → M (Unit {0})
unfolding fetch case_path
update id body ok = do
  r ← fetch (post_call (case_path id) body)
  show_reply r ok (pure tt) (failed_text r.status)

-- A note of white space is not sent; another is sent as it was typed.
unfoldable pub add_note : Text → Text → M (Unit {0})
unfolding fetch notes_path
add_note id note = if not (is_there (trim note)) then pure tt else do
  r ← fetch (post_call (notes_path id) (object (field (codes "body") (text note) no_fields)))
  show_reply r (codes "Note added") (emit close_form) (codes "Failed to add note")

abbrev pub nonempty : Text → Option Json
nonempty [] = none
nonempty (c ∷ s) = some (text (c ∷ s))

-- The field `id` of what was created, where it is a text with something in it.
abbrev pub text_field : Text → Fields → Text
text_field name no_fields = []
text_field name (field n (text t) fs) =
    let rest = text_field name fs in if n === name then t else rest
text_field name (field n v fs) = text_field name fs

abbrev pub id_in : Option Json → Text
id_in (some (object fs)) = text_field (codes "id") fs
id_in _ = []

abbrev pub created_part : Text → List Effect
created_part [] = []
created_part (c ∷ id) = created (c ∷ id) ∷ []

-- `submit` of NewCase: title, severity and host.
unfoldable pub open_new : Text → Text → Text → M (Unit {0})
unfolding post_json
open_new title severity hostname =
    if not (is_there (trim title)) then emit (error (codes "Title required")) else do
      r ← post_json (codes "cases") (
          object (
            field (codes "title") (text (trim title)) (
              field (codes "severity") (text severity) (
                optional (codes "hostname") (nonempty (trim hostname))
                  (field (codes "detection_ids") (array no_items) no_fields)))))
      emit_all (
          if r.ok
          then success (codes "Case opened") ∷ close_form ∷ created_part (id_in r.json)
          else error
              (sentinel_edr.Calls.error_or r (with_status (codes "Could not create case") r.status))
            ∷ [])

-- The drawer: the case that is selected, the one that is shown, and the id of the one that has been
-- asked for and whose reply is still wanted.
pub record Drawer : Type 0 where
  pub sel_id : Option String
  pub detail : Option Case
  pub on : Option String

pub data Input : Type 0 where
  choose : String → Input
  close_drawer : Input
  -- the list of cases changed, and the effect runs again
  cases_changed : Input
  -- the wanted reply is there; `none` is an error, which keeps what is shown
  loaded : Option Case → Input
  -- the reply to a change or a note
  written : Case → Input

-- The effect: with a selection it asks for the case, and drops the replies to what it asked before.
unfoldable pub load : Drawer → Drawer
load d = elim d.sel_id [
  | none ↦ record d { detail = none; on = none }
  | some i ↦ record d { on = some i }
]

abbrev pub shown : Option String → Option Case → Drawer → Drawer
shown none c d = d
shown (some i) none d = record d { on = none }
shown (some i) (some c) d = record d { detail = some c; on = none }

unfoldable pub step : Input → Drawer → Drawer
unfolding load
step (choose i) d = load (record d { sel_id = some i })
step close_drawer d = load (record d { sel_id = none })
step cases_changed d = load d
step (loaded c) d = shown d.on c d
step (written c) d = record d { detail = some c }

unfoldable pub run : List Input → Drawer → Drawer
unfolding step
run [] d = d
run (i ∷ is) d = run is (step i d)
