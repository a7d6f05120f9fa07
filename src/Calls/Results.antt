-- ===== src/Calls/Results.antt =====
-- What a handler gets of its calls, on every branch.
use sentinel_edr.Common.{
  ℕ, zero, suc, ◌≡◌, refl, ap, ◌∙◌, true, false, some, List, [], ◌∷◌, ◌++◌, arith, map, ◌⊎◌, inl,
  inr, Bool-cases, length, any, append_assoc, append-nil, length-append, Bool, get_or,
}
use sentinel_edr.Common.Text.{Text, codes, decimal}
use sentinel_edr.Calls.{
  Json, Call, Reply, Fetched, failed, replied, is_ok, ActionResult, Client, done, thrown, sending,
  next_reply, send_all, all_replies, fetch_all, or_text, post_call, result_of, post_json,
  post_json_all,
}

-- The result tells what came: a reply of the 2xx range with its body, another reply with a text
-- about it, or no reply.
pub data Tells (res : ActionResult) : Fetched → Type 0 where
  succeeded :
      (r : Reply)
      → is_ok r.status ≡ true
      → res.ok ≡ true
      → res.status ≡ r.status
      → res.json ≡ r.json
      → Tells res (replied r)
  refused :
      (r : Reply) (c : ℕ) (s : Text)
      → is_ok r.status ≡ false
      → res.ok ≡ false
      → res.status ≡ r.status
      → res.error ≡ some (c ∷ s)
      → Tells res (replied r)
  unreached :
      (c : ℕ) (s : Text)
      → res.ok ≡ false
      → res.status ≡ 0
      → res.error ≡ some (c ∷ s)
      → Tells res failed

nonempty : (t : Text) (c : ℕ) (d : Text) → (e : ℕ) × (u : Text) × (or_text t (c ∷ d) ≡ e ∷ u)
nonempty [] c d = (c, d, refl)
nonempty (x ∷ t) c d = (x, t, refl)

result_of-Tells : (f : Fetched) → Tells (result_of f) f
unfolding result_of
result_of-Tells failed = unreached _ _ refl refl refl
result_of-Tells (replied r) = elim (Bool-cases (is_ok r.status)) [
  | inl e ↦ rw e (succeeded r e refl refl refl)
  | inr e ↦
      let (c, s, n) = nonempty (get_or r.text []) b'H' (codes "TTP " ++ decimal r.status) in
      rw e (refused r c s e refl refl (ap some n))
]

-- `postJSON` never ends by an exception: it sends its one call and returns a result that tells what
-- came; a result that is not ok always carries a text to show.
pub post_json-Tells :
    (path : Text) (body : Json) (k : Client)
    → (res : ActionResult) × (post_json path body k
        ≡ (done res, sending (post_call path body ∷ []) k))
      × Tells res (next_reply k)
unfolding post_json
post_json-Tells path body k = (result_of (next_reply k), refl, result_of-Tells (next_reply k))

-- The replies to `n` calls from number `i` on.
abbrev pub replies_from : (ℕ → Fetched) → ℕ → ℕ → List Fetched
replies_from replies i zero = []
replies_from replies i (suc n) = replies i ∷ replies_from replies (suc i) n

abbrev pub answers : Client → List Call → List Fetched
answers k cs = replies_from k.replies (length k.sent) (length cs)

length_snoc : (cs : List Call) (c : Call) → length (cs ++ c ∷ []) ≡ suc (length cs)
length_snoc cs c = length-append cs (c ∷ []) ∙ omega arith

pub send_all_lem : (cs : List Call) (k : Client) → send_all cs k ≡ (answers k cs, sending cs k)
unfolding send_all
send_all_lem [] k = rw (append-nil k.sent)
send_all_lem (c ∷ cs) k =
    rw (send_all_lem cs (sending (c ∷ []) k))
      (rw (length_snoc k.sent c) (rw (append_assoc k.sent (c ∷ []) cs)))

-- All calls are sent, and each result is that of its own call.
pub post_json_all_lem :
    (cs : List Call) (k : Client)
    → post_json_all cs k ≡ (done (map result_of (answers k cs)), sending cs k)
unfolding post_json_all
post_json_all_lem cs k = rw (send_all_lem cs k)

abbrev pub is_failed : Fetched → Bool
is_failed failed = true
is_failed (replied r) = false

pub all_replies_lem :
    (fs : List Fetched)
    → ((rs : List Reply) × (all_replies fs ≡ done rs) × (fs ≡ map replied rs))
      ⊎ ((all_replies fs ≡ thrown) × (any is_failed fs ≡ true))
unfolding all_replies
all_replies_lem [] = inl ([], refl, refl)
all_replies_lem (failed ∷ fs) = inr (refl, refl)
all_replies_lem (replied r ∷ fs) = elim (all_replies_lem fs) [
  | inl (rs, e, m) ↦ inl (r ∷ rs, rw e, ap (λ l. replied r ∷ l) m)
  | inr (e, m) ↦ inr (rw e, m)
]

-- All calls are sent, whatever comes; the handler goes on with the replies, and ends by an
-- exception if one call of them got none.
pub fetch_all_cases :
    (cs : List Call) (k : Client)
    → ((rs : List Reply) × (fetch_all cs k ≡ (done rs, sending cs k))
        × (answers k cs ≡ map replied rs))
      ⊎ ((fetch_all cs k ≡ (thrown, sending cs k)) × (any is_failed (answers k cs) ≡ true))
unfolding fetch_all
fetch_all_cases cs k = elim (all_replies_lem (answers k cs)) [
  | inl (rs, e, m) ↦ inl (rs, rw (send_all_lem cs k) (rw e), m)
  | inr (e, m) ↦ inr (rw (send_all_lem cs k) (rw e), m)
]
