-- ===== src/Prelude/Latest.antt =====
-- A bounded queue that drops its oldest item for a new one, and the end of a list that it holds.
use Prim.Native.Nat.{ℕ, zero, suc, ◌+◌, ◌-◌, ◌≤◌}
use mathlib.Core.Path.{◌≡◌, refl, sym, ap, ◌∙◌}
use mathlib.Core.List.{List, [], ◌∷◌, ◌++◌}
use native.Mathlib.Omega.{arith}
use bambu_gateway.Prelude.Lists.{length, drop, length-append, length-drop, drop-append}

module _ {ℓ} {A : Type ℓ} where
  abbrev pub take_last : ℕ → List A → List A
  take_last n xs = drop (length xs - n) xs

  drop-nil : (n : ℕ) → drop {A = A} n [] ≡ []
  drop-nil zero = refl
  drop-nil (suc n) = refl

  drop-drop : (m n : ℕ) (xs : List A) → drop m (drop n xs) ≡ drop (n + m) xs
  drop-drop m zero xs = let e : zero + m ≡ m = omega arith in rw e
  drop-drop m (suc n) [] = let e : suc n + m ≡ suc (n + m) = omega arith in rw e (drop-nil m)
  drop-drop m (suc n) (x ∷ xs) =
      let e : suc n + m ≡ suc (n + m) = omega arith in rw e (drop-drop m n xs)

  pub take_last-take_last :
      (n : ℕ) (xs ys : List A) → take_last n (take_last n xs ++ ys) ≡ take_last n (xs ++ ys)
  take_last-take_last n xs ys =
      let k = length xs - n in
      let fits : k ≤ length xs = omega arith in
      let size : length (drop k xs ++ ys) ≡ length xs - k + length ys =
        omega (arith, length-append (drop k xs) ys, length-drop k xs) in
      let j = length (drop k xs ++ ys) - n in
      ap (drop j) (sym (drop-append k xs ys fits))
      ∙ drop-drop j k (xs ++ ys)
      ∙ ap (λ (t : ℕ). drop t (xs ++ ys))
          (let e : k + j ≡ length (xs ++ ys) - n = omega (arith, length-append xs ys) in e)

  pub take_last_short : (n : ℕ) (xs : List A) → length xs ≤ n → take_last n xs ≡ xs
  take_last_short n xs h = let e : length xs - n ≡ 0 = omega arith in rw e
