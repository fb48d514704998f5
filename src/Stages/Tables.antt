-- ===== src/Stages/Tables.antt =====
-- The stage tables agree with each other.
use bambu_gateway.Prelude.{
  ℕ, ◌≤◌, ◌<◌, ◌≡◌, refl, Bool, true, false, none, List, [], ◌∷◌, arith, leb, is_in, All, nat_eq,
  holds_below, holds_below_at, Bool-cases, leb→le, leb→lt, String, inl, inr,
}
use bambu_gateway.Prelude.Int.{ℤ, pos, negsuc}
use bambu_gateway.Prelude.Dict
use bambu_gateway.Prelude.Dict.{Dict}
use bambu_gateway.Stages.{
  is_some, stage_names, stage_name, stage_category, prepare_stages, calibrate_stages, paused_stages,
  filament_stages, issue_stages,
}

same : Bool → Bool → Bool
same true b = b
same false true = false
same false false = true

agree : ℕ → Bool
agree n = same (is_some (stage_name (pos n))) (is_some (stage_category (pos n)))

all_agree : holds_below agree 78 ≡ true
unfolding holds_below agree same stage_name stage_category Dict.lookup
all_agree = refl

abbrev Below : List ℕ → Type 0
Below xs = All (λ x. x < 78) xs

not-is_in : (n : ℕ) (xs : List ℕ) → 78 ≤ n → Below xs → is_in n xs ≡ false
not-is_in n [] h b = refl
not-is_in n (x ∷ xs) h b = ground (arith, not-is_in n xs h b.1)

lookup_above :
    (n : ℕ) (m : Dict ℕ String)
    → 78 ≤ n
    → All (λ (e : ℕ × String). e.0 < 78) m
    → Dict.lookup n m ≡ none
unfolding Dict.lookup
lookup_above n [] h b = refl
lookup_above n ((k, v) ∷ m) h b = ground (arith, lookup_above n m h b.1)

above_name : (n : ℕ) → 78 ≤ n → stage_name (pos n) ≡ none
unfolding stage_name
above_name n h = lookup_above n stage_names h (omega arith)

above_category : (n : ℕ) → 78 ≤ n → stage_category (pos n) ≡ none
unfolding stage_category
above_category n h = rw (
  not-is_in n prepare_stages h (omega arith),
  not-is_in n calibrate_stages h (omega arith),
  not-is_in n paused_stages h (omega arith),
  not-is_in n filament_stages h (omega arith),
  not-is_in n issue_stages h (omega arith),
)

same_eq : (a b : Bool) → same a b ≡ true → a ≡ b
unfolding same
same_eq a b h = ground arith

-- A stage number has a display name exactly when it has a category.
pub stage_name-stage_category :
    (stg_cur : ℤ) → is_some (stage_name stg_cur) ≡ is_some (stage_category stg_cur)
stage_name-stage_category (negsuc n) = unfold stage_name stage_category in refl
stage_name-stage_category (pos n) = elim (Bool-cases (leb 78 n)) [
  | inl e ↦ rw (above_name n (leb→le _ _ e), above_category n (leb→le _ _ e))
  | inr e ↦ unfold agree in same_eq _ _ (holds_below_at agree 78 n (leb→lt _ _ e) all_agree)
]
