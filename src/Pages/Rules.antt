-- ===== src/Pages/Rules.antt =====
-- dashboard/app/(app)/rules/page.tsx: the counts, the switches of rules, and the suppressions.
use sentinel_edr.Common.{
  ℕ, Bool, not, Option, List, [], ◌∷◌, ◌++◌, length, map, filter, any, contains, if◌then◌else◌,
  nat_beq, list_same, nat_same,
}
use sentinel_edr.Common.Text.{Text, codes, decimal, trim}
use sentinel_edr.Calls.{
  Json, text, flag, object, field, no_fields, Call, Reply, is_ok, M, ◌>>=◌, ◌>>◌, emit, fetch,
  fetch_all, post_call, delete_call, toggle_path, suppression_path, success, error, clear, reload,
  close_form, Effect,
}
use sentinel_edr.Pages.{is_there}

pub record Rule : Type 0 where
  pub id : Text
  pub title : Text
  pub severity : Text
  pub category : Text
  pub tactic : Text
  pub description : Text
  pub auto_respond : Text
  pub mitre : Option (List Text)
  pub enabled : Bool

-- The elements of a `Set` that is made of a list.
abbrev pub distinct : List Text → List Text
distinct [] = []
distinct (t ∷ ts) = let rest = distinct ts in if contains rest t then rest else t ∷ rest

-- `withResp`, `tactics` and `disabled`
unfoldable pub with_response : List Rule → ℕ
with_response rs = length (filter (λ r. is_there r.auto_respond) rs)

unfoldable pub tactics : List Rule → ℕ
tactics rs = length (distinct (filter is_there (map (λ r. r.tactic) rs)))

unfoldable pub disabled : List Rule → ℕ
disabled rs = length (filter (λ r. not r.enabled) rs)

abbrev pub switched : Bool → Text
switched enabled = if enabled then codes "enabled" else codes "disabled"

abbrev pub toggle_call : Bool → Rule → Call
toggle_call enabled r =
    post_call (toggle_path r.id) (object (field (codes "enabled") (flag enabled) no_fields))

-- `Failed (${status})`
abbrev pub failed_text : ℕ → Text
failed_text status = codes "Failed (" ++ (decimal status ++ codes ")")

abbrev pub role_or_failed : Text → ℕ → Text
role_or_failed role status =
    if nat_beq status 403 then role ++ codes " role required" else failed_text status

-- `if (res.ok) { toast.success(a); ... } else toast.error(b)`
abbrev pub on_reply : ℕ → Text → List Effect → Text → List Effect
on_reply status a more b = if is_ok status then success a ∷ more else error b ∷ []

abbrev pub emit_all : List Effect → M (Unit {0})
emit_all es k = (sentinel_edr.Calls.done tt, record k { effects = k.effects ++ es })

unfoldable pub toggle : Rule → Bool → M (Unit {0})
unfolding fetch toggle_path
toggle r enabled = do
  res ← fetch (toggle_call enabled r)
  emit_all (
      on_reply res.status (r.title ++ (codes " " ++ switched enabled)) (reload ∷ [])
        (role_or_failed (codes "Admin") res.status))

unfoldable pub remove_supp : Text → M (Unit {0})
unfolding fetch suppression_path
remove_supp id = do
  res ← fetch (delete_call (suppression_path id))
  emit_all
      (on_reply res.status (codes "Suppression removed") (reload ∷ []) (failed_text res.status))

abbrev pub replies_ok : List Reply → ℕ
replies_ok rs = length (filter (λ r. is_ok r.status) rs)

abbrev pub plural : ℕ → Text
plural n = if nat_beq n 1 then [] else codes "s"

-- The toast after all switches have been answered.
unfoldable pub bulk_toast : ℕ → List Reply → Bool → Effect
bulk_toast all res enabled =
    let n = replies_ok res in
    if nat_beq n all
    then success (decimal n ++ (codes " rule" ++ (plural n ++ (codes " " ++ switched enabled))))
    else error (
        if any (λ r. nat_beq r.status 403) res
        then codes "Admin role required"
        else decimal n ++ (codes "/" ++ (decimal all ++ codes " updated")))

unfoldable pub bulk_toggle : List Rule → Bool → M (Unit {0})
unfolding toggle_path bulk_toast
bulk_toggle rows enabled = do
  res ← fetch_all (map (toggle_call enabled) rows)
  emit_all (bulk_toast (length rows) res enabled ∷ clear ∷ reload ∷ [])

-- The form of a new suppression. Its busy flag turns the button off, and stays on where the call
-- ends by an exception.
pub record NewSuppression : Type 0 where
  pub rule_id : Text
  pub field_ : Text
  pub op : Text
  pub value : Text
  pub reason : Text

abbrev pub suppression_body : NewSuppression → Json
suppression_body f = object (
    field (codes "rule_id") (text f.rule_id) (
      field (codes "field") (text f.field_) (
        field (codes "op") (text f.op) (
          field (codes "value") (text (trim f.value))
            (field (codes "reason") (text f.reason) no_fields)))))

unfoldable pub submit : NewSuppression → M (Unit {0})
unfolding fetch
submit f = if not (is_there (trim f.value)) then emit (error (codes "Value required")) else do
  r ← fetch (post_call (codes "suppressions") (suppression_body f))
  emit_all (
      on_reply r.status (codes "Suppression added") (close_form ∷ reload ∷ [])
        (role_or_failed (codes "Analyst") r.status))
