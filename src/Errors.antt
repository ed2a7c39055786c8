-- ===== src/Errors.antt =====
-- What a Python call that may raise comes back with. An exception is the name of its class and
-- its text, which is all that the program looks at.
use development_brain.Prelude.{◌++◌, ◌≡◌, refl, ◌⊎◌, inl, inr}
use development_brain.Prelude.Text.{Text, codes}

pub record PyException : Type 0 where
  pub type_name : Text
  pub text : Text

pub data Result (A : Type 0) : Type 0 where
  ok : A → Result A
  err : PyException → Result A

-- f"{type(exc).__name__}: {exc}"
unfoldable pub message : PyException → Text
message exc = exc.type_name ++ (codes ": " ++ exc.text)

-- To split on a result and keep the equation.
pub Result-cases :
    {A : Type 0} (r : Result A) → ((a : A) × (r ≡ ok a)) ⊎ ((exc : PyException) × (r ≡ err exc))
Result-cases (ok a) = inl (a, refl)
Result-cases (err exc) = inr (exc, refl)
