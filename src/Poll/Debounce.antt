-- ===== src/Poll/Debounce.antt =====
-- Bursts of pushes.
use sentinel_edr.Common.{
  ℕ, zero, suc, ◌+◌, ◌≡◌, refl, String, true, false, Option, [], ◌∷◌, ◌++◌, arith, replicate,
}
use sentinel_edr.Poll.{State, push, timer, step, run}

module _ {D : Type 0} (parse : String → Option D) where
  waiting :
      (n : ℕ) (s : State D)
      → s.mounted ≡ true
      → s.debounce ≡ true
      → run parse (replicate n push ++ timer ∷ []) s
        ≡ record s { debounce = false; fetches = s.fetches + 1 }
  unfolding run step
  waiting zero s m d = ground arith
  waiting (suc n) s m d = ground (arith, waiting n s m d)

  -- However many pushes arrive before the timer of the first one fires, they cost one request.
  pub burst_once :
      (n : ℕ) (s : State D)
      → s.mounted ≡ true
      → s.debounce ≡ false
      → run parse (replicate (suc n) push ++ timer ∷ []) s ≡ record s { fetches = s.fetches + 1 }
  unfolding run step
  burst_once n s m d = ground (arith, waiting n (record s { debounce = true }) m refl)
