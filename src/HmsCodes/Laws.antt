-- ===== src/HmsCodes/Laws.antt =====
-- When there is an error to describe.
use bambu_gateway.Prelude.{
  ◌≡◌, ◌≢◌, ◌↔◌, refl, String, Bool, true, ◌||◌, ◌&&◌, none, some, List, [], ◌∷◌, arith, is_in,
  ◌==◌, string_eq, Option-cases, inl, inr,
}
use bambu_gateway.Prelude.Int.{ℤ, pos, int_eq}
use bambu_gateway.Printer.{HmsCode}
use bambu_gateway.HmsCodes.{Descriptions, current_error_description, first_new, attrs, pause_reason}

abbrev pub all_known : List String → List HmsCode → Bool
all_known prev [] = true
all_known prev (c ∷ cs) = is_in c.attr prev && all_known prev cs

first_new-all_known :
    (prev : List String) (cs : List HmsCode)
    → (first_new prev cs ≡ none) ↔ (all_known prev cs ≡ true)
unfolding first_new
first_new-all_known prev [] = (λ h. refl, λ h. refl)
first_new-all_known prev (c ∷ cs) =
    let (left, right) = first_new-all_known prev cs in
    (λ h. ground (arith, left), λ h. ground (arith, right))

-- A pause has no reason exactly when every code that is reported was reported before, and the print
-- error is zero or the one of before.
pub pause_reason-all_known :
    (t : Descriptions) (prev new : List HmsCode) (old err : ℤ)
    → (pause_reason t prev new old err ≡ none)
      ↔ ((all_known (attrs prev) new ≡ true) × ((err == pos 0 || err == old) ≡ true))
unfolding pause_reason
pause_reason-all_known t prev new old err =
    let (left, right) = first_new-all_known (attrs prev) new in
    elim (Option-cases (first_new (attrs prev) new)) [
      | inl e ↦ rw (e, pause_reason) (λ h. ground (arith, left), λ h. ground arith)
      | inr (c, e) ↦ rw (e, pause_reason) (λ h. cc, λ h. ground (arith, e, right))
    ]

-- Whatever gives a pause its reason is an error that the status shows as present.
pub current_error_description-pause_reason :
    (t : Descriptions) (prev new : List HmsCode) (old err : ℤ) (reason : String)
    → pause_reason t prev new old err ≡ some reason
    → current_error_description t new err ≢ none
unfolding pause_reason current_error_description first_new
current_error_description-pause_reason t prev [] old err reason h = λ k. ground (arith, h, k)
current_error_description-pause_reason t prev (c ∷ cs) old err reason h = λ k. cc
