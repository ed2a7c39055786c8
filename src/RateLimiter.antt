-- ===== src/RateLimiter.antt =====
-- brain/application/rate_limiter.py: a sliding window of requests for each identity and operation.
-- `time.monotonic` is an argument, in ticks, of which a second has `second`; so that nothing is
-- subtracted, `t > now - window` is `now < t + window`.
pub mod Log
pub mod Window
mod Samples
use development_brain.Prelude.{
  ℕ, ◌+◌, ◌*◌, ◌≡◌, String, Bool, true, false, ◌&&◌, Option, none, some, List, [], ◌∷◌, ◌++◌, keep,
  length, ltb, leb, ◌↔◌, Eq, ◌==◌, string_eq, eq_iff, arith, if◌then◌else◌,
}
use development_brain.Prelude.Dict
use development_brain.Prelude.Dict.{Dict}

pub record RateLimitRule : Type 0 where
  pub limit : ℕ
  pub window_seconds : ℕ

abbrev pub default_rules : Dict String RateLimitRule
default_rules =
    ("project_analysis", record { limit = 10; window_seconds = 60 })
    ∷ ("context_build", record { limit = 20; window_seconds = 60 })
    ∷ ("execution", record { limit = 10; window_seconds = 60 })
    ∷ ("verification", record { limit = 10; window_seconds = 60 })
    ∷ []

-- The key of a bucket: the name of the identity, and the operation.
abbrev pub Key : Type 0
Key = String × String

abbrev key_beq : Key → Key → Bool
key_beq a b = (a.0 == b.0) && (a.1 == b.1)

pub key_beq_iff : (a b : Key) → (key_beq a b ≡ true) ↔ (a ≡ b)
key_beq_iff (a, x) (b, y) = ground (arith, eq_iff a b, eq_iff x y)

instance abbrev pub key_eq : Eq Key
key_eq = record { beq = key_beq; beq_iff = key_beq_iff }

pub record RateLimiter : Type 0 where
  pub rules : Dict String RateLimitRule
  pub buckets : Dict Key (List ℕ)

abbrev pub bucket : Option (List ℕ) → List ℕ
bucket none = []
bucket (some hits) = hits

-- The requests of the bucket that are in the window at `now`.
unfoldable pub hits_at : (second now : ℕ) → RateLimitRule → List ℕ → List ℕ
hits_at second now rule times = keep (λ t. ltb now (t + rule.window_seconds * second)) times

-- `check` at the time `now`: whether the request goes through (the exception is `false`).
unfoldable pub check :
    (second now : ℕ) → (name operation : String) → RateLimiter → Bool × RateLimiter
check second now name operation limiter = elim (Dict.get limiter.rules operation) [
  | none ↦ (true, limiter)
  | some rule ↦
      let key : Key = (name, operation) in
      let hits = hits_at second now rule (bucket (Dict.get limiter.buckets key)) in
      if leb rule.limit (length hits)
      then (false, limiter)
      else (true, record limiter { buckets = Dict.insert limiter.buckets key (hits ++ (now ∷ [])) })
]

unfoldable pub count : (name operation : String) → RateLimiter → ℕ
count name operation limiter = length (bucket (Dict.get limiter.buckets (name, operation)))
