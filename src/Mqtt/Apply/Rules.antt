-- ===== src/Mqtt/Apply/Rules.antt =====
-- What holds at every end of a chain of changes.
use bambu_gateway.Prelude.{String, Option, none, some, List, [], ◌∷◌, All, string_eq}
use bambu_gateway.Prelude.Json.{Json, Fields, member}
use bambu_gateway.Mqtt.Report.{Live, Applied, fine, raised, untyped, ◌>>=◌, Change, run, on_key}

module _ (P : Live → Type 0) where
  abbrev pub Always : Applied → Type 0
  Always (fine l) = P l
  Always (raised l) = P l
  Always (untyped l) = P l

  -- A change after which the property holds if it did before.
  abbrev pub Keeps : Change → Type 0
  Keeps f = (l : Live) → P l → Always (f l)

  then-Always : (m : Applied) (f : Change) → Always m → Keeps f → Always (m >>= f)
  then-Always (fine l) f h k = k l h
  then-Always (raised l) f h k = h
  then-Always (untyped l) f h k = h

  pub run-Keeps : (fs : List Change) → All Keeps fs → Keeps (run fs)
  unfolding run
  run-Keeps [] k l h = h
  run-Keeps (f ∷ fs) k l h = then-Always (f l) (run fs) (k.0 l h) (run-Keeps fs k.1)

  key_case :
      (o : Option Json) (f : Json → Change) (l : Live)
      → P l
      → ((j : Json) → Keeps (f j))
      → Always (elim o [ none ↦ fine l | some j ↦ f j l ])
  key_case none f l h k = h
  key_case (some j) f l h k = k j l h

  pub on_key-Keeps :
      (key : String) (fs : Fields) (f : Json → Change)
      → ((j : Json) → Keeps (f j))
      → Keeps (on_key key fs f)
  unfolding on_key
  on_key-Keeps key fs f k l h = key_case (member key fs) f l h k

  pub option_case :
      {A : Type 0} (o : Option A) (bad : Applied) (good : A → Live)
      → Always bad
      → ((a : A) → P (good a))
      → Always (elim o [ none ↦ bad | some a ↦ fine (good a) ])
  option_case none bad good h k = h
  option_case (some a) bad good h k = k a
