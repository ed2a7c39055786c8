-- ===== src/RateLimiter/Samples.antt =====
-- Requests under a rule of two in a window, which the third of them exceeds.
use development_brain.Prelude.{ℕ, ◌≡◌, String, [], ◌∷◌, arith}
use development_brain.Prelude.Dict.{Dict}
use development_brain.RateLimiter.{RateLimitRule}
use development_brain.RateLimiter.Log.{Request, answers, answers_from}
use development_brain.RateLimiter.Window.{answers-answers_from}

abbrev rules : Dict String RateLimitRule
rules = ("execution", record { limit = 2; window_seconds = 60 }) ∷ []

abbrev at_time : ℕ → Request
at_time t = record { now = t; name = "alice"; operation = "execution" }

answers-answers_from_example :
    let requests = at_time 1 ∷ at_time 2 ∷ at_time 3 ∷ at_time 90 ∷ [] in
    answers 1 requests (record { rules = rules; buckets = [] }) ≡ answers_from 1 rules [] requests
answers-answers_from_example =
    answers-answers_from 1 rules (at_time 1 ∷ at_time 2 ∷ at_time 3 ∷ at_time 90 ∷ [])
      (omega arith, (omega arith, (omega arith, (omega arith, tt))))
