-- ===== src/Prelude/Json.antt =====
-- JSON-shaped Python values. A float is `decimal m k` for m / 10 ^ k.
use Prim.Native.Nat.{ℕ}
use Prim.Native.String.{String}
use text.Mathlib.Text.{◌==◌ as str_beq}
use mathlib.Core.Bool.{Bool}
use mathlib.Core.Option.{Option, none, some}
use mathlib.Core.List.{List, [], ◌∷◌}
use bambu_gateway.Prelude.Tests.{string_eq, if◌then◌else◌}
use bambu_gateway.Prelude.Int.{ℤ, pos, int_beq}
use bambu_gateway.Prelude.Dict
use bambu_gateway.Prelude.Dict.{Dict}

mutual
  pub data Json : Type 0 where
    null : Json
    bool : Bool → Json
    num : ℤ → Json
    decimal : ℤ → ℕ → Json
    str : String → Json
    arr : Items → Json
    obj : Fields → Json

  pub data Items : Type 0 where
    nil : Items
    cons : Json → Items → Items

  pub data Fields : Type 0 where
    end : Fields
    field : String → Json → Fields → Fields

-- The list and the dict that a value holds.
abbrev pub elements : Items → List Json
elements nil = []
elements (cons j js) = j ∷ elements js

abbrev pub entries : Fields → Dict String Json
entries end = []
entries (field k j fs) = (k, j) ∷ entries fs

-- `d.get(key)`; a missing key is `none`, a null is `some null`.
unfoldable pub member : String → Fields → Option Json
member k fs = Dict.lookup k (entries fs)

-- What `isinstance(value, int)` accepts: a bool is an int in Python.
unfoldable pub as_int : Json → Option ℤ
as_int (num n) = some n
as_int (bool Bool.true) = some (pos 1)
as_int (bool Bool.false) = some (pos 0)
as_int _ = none

-- What `bool(value)` is.
unfoldable pub truthy : Json → Bool
truthy null = Bool.false
truthy (bool b) = b
truthy (num n) = if int_beq n (pos 0) then Bool.false else Bool.true
truthy (decimal m k) = if int_beq m (pos 0) then Bool.false else Bool.true
truthy (str s) = if str_beq s "" then Bool.false else Bool.true
truthy (arr nil) = Bool.false
truthy (arr (cons j js)) = Bool.true
truthy (obj end) = Bool.false
truthy (obj (field k j fs)) = Bool.true
