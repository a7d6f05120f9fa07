-- ===== src/Pages/Bulk.antt =====
-- The actions on many rows of the detections page.
use sentinel_edr.Common.{◌≡◌, List, [], ◌∷◌, ◌++◌, map, length, append_assoc}
use sentinel_edr.Common.Text.{Text}
use sentinel_edr.Model.{Detection}
use sentinel_edr.Calls.{Client, Call, done, clear, result_of, count_ok, ActionResult}
use sentinel_edr.Calls.Results.{answers, post_json_all_lem}
use sentinel_edr.Pages.Detections.{status_call, bulk_stat, bulk_toast, bulk_text}

abbrev pub results : Client → List Call → List ActionResult
results k cs = map result_of (answers k cs)

pub bulk_stat_lem :
    (rows : List Detection) (t : Text) (k : Client)
    → let cs = map (status_call t) rows in
      let n = count_ok (results k cs) in
      bulk_stat rows t k ≡ (
        done tt,
        record k {
          sent = k.sent ++ cs;
          effects =
              k.effects ++ bulk_toast n (length rows) (bulk_text n (length rows) t) ∷ clear ∷ [];
        },
      )
unfolding bulk_stat
bulk_stat_lem rows t k =
    rw (post_json_all_lem (map (status_call t) rows) k) (rw (append_assoc k.effects _ (clear ∷ [])))
