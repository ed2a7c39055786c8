-- ===== src/Locks/Samples.antt =====
-- Two executions and one repository.
use development_brain.Prelude.{◌≡◌, refl, false, none, some, List, [], ◌∷◌, nat_eq}
use development_brain.Prelude.Dict
use development_brain.Locks.{WorkspaceLock, no_locks, held_by, acquire, try_acquire}
use development_brain.Locks.Exclusion.{Call, after_calls, gives_up, any_gives_up, try_acquire-held}

abbrev mine : WorkspaceLock
mine = record { repository_id = 5; owner_execution_id = 1; branch_name = "a"; acquired_at = 10 }

-- Another execution tries to acquire and to release the repository; the first one releases another.
abbrev others : List Call
others = Call.acquiring 5 2 "b" 11 ∷ Call.releasing 5 2 ∷ Call.releasing 6 1 ∷ []

got : (try_acquire 5 1 "a" 10 no_locks).0 ≡ some mine
unfolding try_acquire acquire Dict.get
got = refl

not_given_up : any_gives_up 5 1 others ≡ false
unfolding any_gives_up gives_up
not_given_up = refl

try_acquire-held_example :
    (held_by (after_calls others (try_acquire 5 1 "a" 10 no_locks).1) 5 ≡ some mine)
    × ((try_acquire 5 3 "c" 12 (after_calls others (try_acquire 5 1 "a" 10 no_locks).1)).0 ≡ none)
try_acquire-held_example =
    try_acquire-held 5 1 "a" 10 no_locks mine others 3 "c" 12 got not_given_up
