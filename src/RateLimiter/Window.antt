-- ===== src/RateLimiter/Window.antt =====
-- The limiter against one that forgets nothing: it keeps all requests that went through, in a log.
use development_brain.Prelude.{
  ℕ, ◌≡◌, ◌≤◌, ◌∙◌, refl, sym, ap, String, true, false, none, some, List, [], ◌∷◌, ◌++◌, length,
  leb, ltb, Option-cases, Bool-cases, inl, inr, string_eq, append-nil, beq_refl, arith,
  if◌then◌else◌,
}
use mathlib.Core.Path.{subst}
use development_brain.Prelude.Dict
use development_brain.Prelude.Dict.{Dict, get-insert}
use development_brain.RateLimiter.{
  RateLimitRule, RateLimiter, Key, key_beq_iff, key_eq, bucket, hits_at, check,
}
use development_brain.RateLimiter.Log.{
  Request, answers, IsOrdered, times_of, in_window, may_pass, answers_from, hits_at-append,
  hits_at-later, length-hits_at, times_of-append,
}

-- From the time t on, the buckets and the log have the same requests in each window.
abbrev Agrees : (second t : ℕ) → RateLimiter → List Request → Type 0
Agrees second t l log =
    (later : ℕ) (n o : String) (rule : RateLimitRule)
    → t ≤ later
    → Dict.get l.rules o ≡ some rule
    → hits_at second later rule (bucket (Dict.get l.buckets (n, o)))
      ≡ hits_at second later rule (times_of (n, o) log)

check-rules :
    (second now : ℕ) (name operation : String) (l : RateLimiter)
    → (check second now name operation l).1.rules ≡ l.rules
unfolding check
check-rules second now name operation l = ground arith

times_of-other :
    (key : Key) (log : List Request) (r : Request)
    → key_eq.beq (r.name, r.operation) key ≡ false
    → times_of key (log ++ (r ∷ [])) ≡ times_of key log
unfolding times_of
times_of-other key log r other =
    times_of-append key log (r ∷ []) ∙ rw other (append-nil (times_of key log))

times_of-own :
    (log : List Request) (r : Request)
    → times_of (r.name, r.operation) (log ++ (r ∷ []))
      ≡ times_of (r.name, r.operation) log ++ (r.now ∷ [])
unfolding times_of
times_of-own log r =
    let key : Key = (r.name, r.operation) in
    times_of-append key log (r ∷ []) ∙ rw (beq_refl key) refl

-- A request without a rule is in no window of a rule.
no_rule-Agrees :
    (second t : ℕ) (l : RateLimiter) (log : List Request) (r : Request)
    → t ≤ r.now
    → Dict.get l.rules r.operation ≡ none
    → Agrees second t l log
    → Agrees second r.now l (log ++ (r ∷ []))
no_rule-Agrees second t l log r le free agrees later n o rule after has =
    elim (Bool-cases (key_eq.beq (r.name, r.operation) (n, o))) [
      | inl same ↦
          let p = (key_beq_iff (r.name, r.operation) (n, o)).0 same in
          let q : Dict.get l.rules o ≡ none = sym (ap (λ k. Dict.get l.rules (k.1)) p) ∙ free in
          ground (arith, q, has)
      | inr other ↦
          agrees later n o rule (omega (arith, le, after)) has
          ∙ ap (hits_at second later rule) (sym (times_of-other (n, o) log r other))
    ]

passed-Agrees :
    (second t : ℕ) (l : RateLimiter) (log : List Request) (r : Request) (rule : RateLimitRule)
    → t ≤ r.now
    → Dict.get l.rules r.operation ≡ some rule
    → Agrees second t l log
    → let key : Key = (r.name, r.operation) in
      let hits = hits_at second r.now rule (bucket (Dict.get l.buckets key)) in
      Agrees second r.now
        (record l { buckets = Dict.insert l.buckets key (hits ++ (r.now ∷ [])) })
        (log ++ (r ∷ []))
passed-Agrees second t l log r rule le has agrees later n o rule' after has' =
    let key : Key = (r.name, r.operation) in
    let old = bucket (Dict.get l.buckets key) in
    let hits = hits_at second r.now rule old in
    rw get-insert (elim (Bool-cases (key_eq.beq (r.name, r.operation) (n, o))) [
      | inr other ↦ rw other (
          agrees later n o rule' (omega (arith, le, after)) has'
          ∙ ap (hits_at second later rule') (sym (times_of-other (n, o) log r other)))
      | inl same ↦
          let p = (key_beq_iff (r.name, r.operation) (n, o)).0 same in
          let same_rule : some rule ≡ some rule' =
            sym has ∙ (ap (λ k. Dict.get l.rules (k.1)) p ∙ has') in
          let q : rule ≡ rule' = cc in
          rw same (
            hits_at-append second later rule' hits (r.now ∷ [])
            ∙ (ap (λ xs. xs ++ hits_at second later rule' (r.now ∷ []))
                  (ap (λ x. hits_at second later rule' (hits_at second r.now x old)) q
                    ∙ (hits_at-later second r.now later rule' old after
                        ∙ (ap (λ k. hits_at second later rule' (bucket (Dict.get l.buckets k))) p
                            ∙ agrees later n o rule' (omega (arith, le, after)) has')))
                ∙ (sym (hits_at-append second later rule' (times_of (n, o) log) (r.now ∷ []))
                    ∙ ap (hits_at second later rule') (
                        subst (λ k. times_of k log ++ (r.now ∷ []) ≡ times_of k (log ++ (r ∷ []))) p
                          (sym (times_of-own log r))))))
    ])

-- The limiter answers as the log does, and goes on as it does.
check-may_pass :
    (second t : ℕ) (l : RateLimiter) (log : List Request) (r : Request)
    → t ≤ r.now
    → Agrees second t l log
    → let passed = may_pass second l.rules log r in
      ((check second r.now r.name r.operation l).0 ≡ passed)
      × Agrees second r.now
          (check second r.now r.name r.operation l).1
          (if passed then log ++ (r ∷ []) else log)
unfolding check may_pass
check-may_pass second t l log r le agrees = elim (Option-cases (Dict.get l.rules r.operation)) [
  | inl free ↦ rw (check, may_pass, free) (refl, no_rule-Agrees second t l log r le free agrees)
  | inr (rule, has) ↦
      let key : Key = (r.name, r.operation) in
      let hits = hits_at second r.now rule (bucket (Dict.get l.buckets key)) in
      let counted : length hits ≡ in_window second r.now rule (times_of key log) =
        ap length (agrees r.now r.name r.operation rule le has)
        ∙ length-hits_at second r.now rule (times_of key log) in
      elim (Bool-cases (leb rule.limit (length hits))) [
        | inl full ↦
            let shut : ltb (in_window second r.now rule (times_of key log)) rule.limit ≡ false =
              ground (arith, full, counted) in
            rw (check, may_pass, has)
              (rw (full, shut)
                (refl, λ later n o rule' after. agrees later n o rule' (omega (arith, le, after))))
        | inr room ↦
            let free : ltb (in_window second r.now rule (times_of key log)) rule.limit ≡ true =
              ground (arith, room, counted) in
            rw (check, may_pass, has)
              (rw (room, free) (refl, passed-Agrees second t l log r rule le has agrees))
      ]
]

answers-Agrees :
    (second t : ℕ) (rs : List Request) (l : RateLimiter) (log : List Request)
    → IsOrdered t rs
    → Agrees second t l log
    → answers second rs l ≡ answers_from second l.rules log rs
unfolding answers answers_from
answers-Agrees second t [] l log ordered agrees = refl
answers-Agrees second t (r ∷ rs) l log (le, ordered) agrees =
    let passed = may_pass second l.rules log r in
    let l' = (check second r.now r.name r.operation l).1 in
    let step = check-may_pass second t l log r le agrees in
    let rest =
      answers-Agrees second r.now rs l' (if passed then log ++ (r ∷ []) else log) ordered step.1 in
    let rules : l'.rules ≡ l.rules = check-rules second r.now r.name r.operation l in
    let on = answers_from second l.rules (log ++ (r ∷ [])) rs in
    let off = answers_from second l.rules log rs in
    (λ i. step.0 i ∷ rest i)
    ∙ (ap (λ xs. passed ∷ answers_from second xs (if passed then log ++ (r ∷ []) else log) rs) rules
        ∙ ap (λ xs. passed ∷ xs)
            (elim (Bool-cases passed) [ inl go ↦ rw go refl | inr stop ↦ rw stop refl ]))

-- A limiter without requests, asked by requests in the order of their times, lets one through exactly
-- if its operation has no rule, or if fewer requests of its identity and operation than the limit
-- went through in the window that ends at it, among all that went through before.
pub answers-answers_from :
    (second : ℕ) (rules : Dict String RateLimitRule) (rs : List Request)
    → IsOrdered 0 rs
    → answers second rs (record { rules = rules; buckets = [] }) ≡ answers_from second rules [] rs
unfolding times_of Dict.get
answers-answers_from second rules rs ordered =
    answers-Agrees second 0 rs (record { rules = rules; buckets = [] }) [] ordered
      (λ later n o rule after has. refl)
