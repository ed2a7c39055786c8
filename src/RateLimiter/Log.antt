-- ===== src/RateLimiter/Log.antt =====
-- The requests that went through, of which a limiter that forgets nothing keeps a log.
use development_brain.Prelude.{
  ℕ, ◌*◌, ◌+◌, ◌≡◌, ◌≤◌, refl, String, Bool, true, none, some, List, [], ◌∷◌, ◌++◌, keep,
  keep-append, length, leb, ltb, string_eq, arith, ◌==◌, if◌then◌else◌,
}
use development_brain.Prelude.Dict
use development_brain.Prelude.Dict.{Dict, get-insert}
use development_brain.RateLimiter.{RateLimitRule, RateLimiter, Key, key_eq, hits_at, check}

pub record Request : Type 0 where
  pub now : ℕ
  pub name : String
  pub operation : String

-- The answers of the limiter, and the limiter afterwards.
unfoldable pub answers : ℕ → List Request → RateLimiter → List Bool
answers second [] l = []
answers second (r ∷ rs) l =
    let (passed, l') = check second r.now r.name r.operation l in passed ∷ answers second rs l'

-- Each request comes at the time t or later, and not before the one in front of it.
abbrev pub IsOrdered : ℕ → List Request → Type 0
IsOrdered t [] = Unit
IsOrdered t (r ∷ rs) = (t ≤ r.now) × IsOrdered r.now rs

-- The times at which requests of the key went through.
unfoldable pub times_of : Key → List Request → List ℕ
times_of key [] = []
times_of key (r ∷ log) =
    let rest = times_of key log in
    let own : Key = (r.name, r.operation) in if own == key then r.now ∷ rest else rest

-- How many times lie in the window that ends at `now`.
unfoldable pub in_window : (second now : ℕ) → RateLimitRule → List ℕ → ℕ
in_window second now rule [] = 0
in_window second now rule (t ∷ ts) =
    let rest = in_window second now rule ts in
    if leb (t + rule.window_seconds * second) now then rest else 1 + rest

-- A request may pass if fewer than the limit passed in the window that ends at it.
unfoldable pub may_pass : ℕ → Dict String RateLimitRule → List Request → Request → Bool
may_pass second rules log r = elim (Dict.get rules r.operation) [
  | none ↦ true
  | some rule ↦ ltb (in_window second r.now rule (times_of (r.name, r.operation) log)) rule.limit
]

unfoldable pub answers_from :
    ℕ → Dict String RateLimitRule → (log : List Request) → List Request → List Bool
answers_from second rules log [] = []
answers_from second rules log (r ∷ rs) =
    let passed = may_pass second rules log r in
    let on = answers_from second rules (log ++ (r ∷ [])) rs in
    let off = answers_from second rules log rs in passed ∷ (if passed then on else off)

pub hits_at-append :
    (second now : ℕ) (rule : RateLimitRule) (xs ys : List ℕ)
    → hits_at second now rule (xs ++ ys) ≡ hits_at second now rule xs ++ hits_at second now rule ys
unfolding hits_at
hits_at-append second now rule xs ys = keep-append _ xs ys

-- What is out of the window stays out of it.
pub hits_at-later :
    (second now later : ℕ) (rule : RateLimitRule) (ts : List ℕ)
    → now ≤ later
    → hits_at second later rule (hits_at second now rule ts) ≡ hits_at second later rule ts
unfolding hits_at keep
hits_at-later second now later rule [] le = refl
hits_at-later second now later rule (t ∷ ts) le =
    let w = rule.window_seconds * second in
    ground (arith, le, hits_at-later second now later rule ts le)

pub length-hits_at :
    (second now : ℕ) (rule : RateLimitRule) (ts : List ℕ)
    → length (hits_at second now rule ts) ≡ in_window second now rule ts
unfolding hits_at keep in_window
length-hits_at second now rule [] = refl
length-hits_at second now rule (t ∷ ts) = ground (arith, length-hits_at second now rule ts)

pub times_of-append :
    (key : Key) (xs ys : List Request)
    → times_of key (xs ++ ys) ≡ times_of key xs ++ times_of key ys
unfolding times_of
times_of-append key [] ys = refl
times_of-append key (x ∷ xs) ys = ground (arith, times_of-append key xs ys)
