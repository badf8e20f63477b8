-- ===== src/Base/Lists.antt =====
-- Lists measured by native numbers, and predicates on all their members.
use Prim.Native.Nat.{ℕ, zero, suc, ◌+◌, ◌-◌, ◌≤◌}
use mathlib.Core.Path.{◌≡◌, refl, sym, ap, subst, ◌∙◌}
use mathlib.Core.List.{List, [], ◌∷◌, ◌++◌}
use mathlib.Core.Option.{Option, none, some}
use native.Mathlib.Omega.{arith}

module _ {ℓ} {A : Type ℓ} where
  abbrev pub length : List A → ℕ
  length [] = 0
  length (x ∷ xs) = suc (length xs)

  abbrev pub get_elem? : List A → ℕ → Option A
  get_elem? [] i = none
  get_elem? (x ∷ xs) zero = some x
  get_elem? (x ∷ xs) (suc i) = get_elem? xs i

  abbrev pub take : ℕ → List A → List A
  take zero xs = []
  take (suc n) [] = []
  take (suc n) (x ∷ xs) = x ∷ take n xs

  abbrev pub drop : ℕ → List A → List A
  drop zero xs = xs
  drop (suc n) [] = []
  drop (suc n) (x ∷ xs) = drop n xs

  unfoldable pub replicate : ℕ → A → List A
  replicate zero x = []
  replicate (suc n) x = x ∷ replicate n x

  pub length-replicate : (n : ℕ) (x : A) → length (replicate n x) ≡ n
  unfolding replicate
  length-replicate zero x = refl
  length-replicate (suc n) x = ap suc (length-replicate n x)

  pub length-append : (xs ys : List A) → length (xs ++ ys) ≡ length xs + length ys
  length-append [] ys = omega arith
  length-append (x ∷ xs) ys = omega (arith, length-append xs ys)

  pub length-drop : (n : ℕ) (xs : List A) → length (drop n xs) ≡ length xs - n
  length-drop zero xs = omega arith
  length-drop (suc n) [] = omega arith
  length-drop (suc n) (x ∷ xs) = omega (arith, length-drop n xs)

  pub length-take : (n : ℕ) (xs : List A) → n ≤ length xs → length (take n xs) ≡ n
  length-take zero xs h = refl
  length-take (suc n) [] h = absurd (omega (arith, h))
  length-take (suc n) (x ∷ xs) h = ap suc (length-take n xs (omega (arith, h)))

  pub take-nil : (n : ℕ) → take n [] ≡ []
  take-nil zero = refl
  take-nil (suc n) = refl

  pub drop-take : (n k : ℕ) (xs : List A) → drop n (take k xs) ≡ take (k - n) (drop n xs)
  drop-take zero k xs = ap (λ (i : ℕ). take i xs) (none_less k)
    where
      none_less : (k : ℕ) → k ≡ k - 0
      none_less k = omega arith
  drop-take (suc n) zero xs = ap (λ (i : ℕ). take i (drop (suc n) xs)) (none_left n)
    where
      none_left : (n : ℕ) → 0 ≡ 0 - suc n
      none_left n = omega arith
  drop-take (suc n) (suc k) [] = sym (take-nil (suc k - suc n))
  drop-take (suc n) (suc k) (x ∷ xs) =
      drop-take n k xs ∙ ap (λ (i : ℕ). take i (drop n xs)) (one_less k n)
    where
      one_less : (k n : ℕ) → k - n ≡ suc k - suc n
      one_less k n = omega arith

  pub take-append : (xs ys : List A) → take (length xs) (xs ++ ys) ≡ xs
  take-append [] ys = refl
  take-append (x ∷ xs) ys = ap (◌∷◌ x) (take-append xs ys)

  -- The first `n` of a list whose front has `n`.
  pub take_exactly : (n : ℕ) (xs ys : List A) → length xs ≡ n → take n (xs ++ ys) ≡ xs
  take_exactly n xs ys h = ap (λ (k : ℕ). take k (xs ++ ys)) (sym h) ∙ take-append xs ys

  pub drop-append : (xs ys : List A) → drop (length xs) (xs ++ ys) ≡ ys
  drop-append [] ys = refl
  drop-append (x ∷ xs) ys = drop-append xs ys

  -- As much of the front as there is, when that is all.
  pub drop_within : (n : ℕ) (xs ys : List A) → n ≤ length xs → drop n (xs ++ ys) ≡ drop n xs ++ ys
  drop_within zero xs ys h = refl
  drop_within (suc n) [] ys h = absurd (omega (arith, h))
  drop_within (suc n) (x ∷ xs) ys h = drop_within n xs ys (omega (arith, h))

  pub drop-nil : (n : ℕ) → drop n [] ≡ []
  drop-nil zero = refl
  drop-nil (suc n) = refl

  pub drop-drop : (m n : ℕ) (xs : List A) → drop m (drop n xs) ≡ drop (n + m) xs
  drop-drop m zero xs = ap (λ (k : ℕ). drop k xs) (none_more m)
    where
      none_more : (k : ℕ) → k ≡ 0 + k
      none_more k = omega arith
  drop-drop m (suc n) [] = drop-nil m ∙ sym (drop-nil (suc n + m))
  drop-drop m (suc n) (x ∷ xs) = drop-drop m n xs ∙ ap (λ (k : ℕ). drop k (x ∷ xs)) (one_more n m)
    where
      one_more : (a b : ℕ) → suc (a + b) ≡ suc a + b
      one_more a b = omega arith

  -- What is left behind a front of `w` and `n` more.
  pub drop_past : (w n : ℕ) (xs ys : List A) → length xs ≡ w → drop (w + n) (xs ++ ys) ≡ drop n ys
  drop_past w n xs ys h =
      sym (drop-drop n w (xs ++ ys))
      ∙ ap (drop n) (ap (λ (k : ℕ). drop k (xs ++ ys)) (sym h) ∙ drop-append xs ys)

  pub front_length : (xs ys : List A) → length (xs ++ ys) - length ys ≡ length xs
  front_length xs ys = omega (arith, length-append xs ys)

  pub take_front : (xs ys : List A) → take (length (xs ++ ys) - length ys) (xs ++ ys) ≡ xs
  take_front xs ys = ap (λ (n : ℕ). take n (xs ++ ys)) (front_length xs ys) ∙ take-append xs ys

module _ {ℓ κ} {A : Type ℓ} (P : A → Type κ) where
  abbrev pub All : List A → Type κ
  All [] = Unit
  All (x ∷ xs) = P x × All xs

  pub All-append : (xs ys : List A) → All xs → All ys → All (xs ++ ys)
  All-append [] ys _ hy = hy
  All-append (x ∷ xs) ys (px, hx) hy = (px, All-append xs ys hx hy)

  pub All-get_elem? : (xs : List A) (n : ℕ) (x : A) → All xs → get_elem? xs n ≡ some x → P x
  All-get_elem? [] n x h e = absurd (cc e)
  All-get_elem? (y ∷ xs) zero x h e = let same : y ≡ x = cc e in subst P same h.0
  All-get_elem? (y ∷ xs) (suc n) x h e = All-get_elem? xs n x h.1 e
