-- ===== src/Prelude/Object.antt =====
-- A Python `object` in a `dict[str, object]` that travels as JSON: command payloads, results.
use Prim.Native.Nat.{ℕ}
use Prim.Native.String.{String}
use mathlib.Core.Bool.{Bool}

mutual
  pub data Object : Type 0 where
    null : Object
    boolean : Bool → Object
    int : ℕ → Object
    str : String → Object
    items : Objects → Object
    dict : Fields → Object

  pub data Objects : Type 0 where
    nil : Objects
    cons : Object → Objects → Objects

  pub data Fields : Type 0 where
    end : Fields
    field : String → Object → Fields → Fields
