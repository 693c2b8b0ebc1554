-- ===== src/Prelude/Lists.antt =====
-- Lists measured and cut by native numbers, under the library's names.
use Prim.Native.Nat.{ℕ, zero, suc, ◌+◌, ◌-◌, min}
use mathlib.Core.Path.{◌≡◌, refl, ap}
use mathlib.Core.List.{List, [], ◌∷◌, ◌++◌, map}
use native.Mathlib.Omega.{arith}

module _ {ℓ} {A : Type ℓ} where
  abbrev pub length : List A → ℕ
  length [] = 0
  length (x ∷ xs) = suc (length xs)

  abbrev pub take : ℕ → List A → List A
  take zero xs = []
  take (suc n) [] = []
  take (suc n) (x ∷ xs) = x ∷ take n xs

  abbrev pub drop : ℕ → List A → List A
  drop zero xs = xs
  drop (suc n) [] = []
  drop (suc n) (x ∷ xs) = drop n xs

  pub length-append : (xs ys : List A) → length (xs ++ ys) ≡ length xs + length ys
  length-append [] ys = omega arith
  length-append (x ∷ xs) ys = omega (arith, length-append xs ys)

  pub length-take : (n : ℕ) (xs : List A) → length (take n xs) ≡ min n (length xs)
  length-take zero xs = omega arith
  length-take (suc n) [] = omega arith
  length-take (suc n) (x ∷ xs) = omega (arith, length-take n xs)

  pub length-drop : (n : ℕ) (xs : List A) → length (drop n xs) ≡ length xs - n
  length-drop zero xs = omega arith
  length-drop (suc n) [] = omega arith
  length-drop (suc n) (x ∷ xs) = omega (arith, length-drop n xs)

  pub take-append : (xs ys : List A) → take (length xs) (xs ++ ys) ≡ xs
  take-append [] ys = refl
  take-append (x ∷ xs) ys = ap (λ t. x ∷ t) (take-append xs ys)

  pub drop-append : (xs ys : List A) → drop (length xs) (xs ++ ys) ≡ ys
  drop-append [] ys = refl
  drop-append (x ∷ xs) ys = drop-append xs ys

  -- A predicate of every entry, which computes to a tuple.
  abbrev pub All {κ} : (A → Type κ) → List A → Type κ
  All P [] = Unit
  All P (x ∷ xs) = P x × All P xs

module _ {ℓ κ} {A : Type ℓ} {S : Type κ} where
  -- `for _, x := range xs`, and with the position.
  unfoldable pub for_each : (A → S → S) → List A → S → S
  for_each f [] s = s
  for_each f (x ∷ xs) s = for_each f xs (f x s)

  unfoldable pub for_each_from : ℕ → (ℕ → A → S → S) → List A → S → S
  for_each_from i f [] s = s
  for_each_from i f (x ∷ xs) s = for_each_from (suc i) f xs (f i x s)

  pub for_each-keeps {μ} :
      (P : S → Type μ) (f : A → S → S)
      → ((x : A) (s : S) → P s → P (f x s))
      → (xs : List A) (s : S) → P s
      → P (for_each f xs s)
  unfolding for_each
  for_each-keeps P f step [] s h = h
  for_each-keeps P f step (x ∷ xs) s h = for_each-keeps P f step xs (f x s) (step x s h)

  pub for_each_from-keeps {μ} :
      (P : S → Type μ) (f : ℕ → A → S → S)
      → ((i : ℕ) (x : A) (s : S) → P s → P (f i x s))
      → (i : ℕ) (xs : List A) (s : S) → P s
      → P (for_each_from i f xs s)
  unfolding for_each_from
  for_each_from-keeps P f step i [] s h = h
  for_each_from-keeps P f step i (x ∷ xs) s h =
      for_each_from-keeps P f step (suc i) xs (f i x s) (step i x s h)

module _ {ℓ} {A : Type ℓ} where
  -- `xs[i] = f(xs[i])`.
  unfoldable pub modify_at : ℕ → (A → A) → List A → List A
  modify_at i f [] = []
  modify_at zero f (x ∷ xs) = f x ∷ xs
  modify_at (suc i) f (x ∷ xs) = x ∷ modify_at i f xs

  pub All-append {κ} :
      (P : A → Type κ) (xs : List A) (y : A) → All P xs → P y → All P (xs ++ y ∷ [])
  All-append P [] y h p = (p, tt)
  All-append P (x ∷ xs) y (px, h) p = (px, All-append P xs y h p)

  pub All-weaken {κ μ} :
      (P : A → Type κ) (Q : A → Type μ)
      → ((x : A) → P x → Q x)
      → (xs : List A) → All P xs
      → All Q xs
  All-weaken P Q f [] h = tt
  All-weaken P Q f (x ∷ xs) (p, h) = (f x p, All-weaken P Q f xs h)

  pub All-modify_at {κ} :
      (P : A → Type κ) (f : A → A)
      → ((x : A) → P x → P (f x))
      → (i : ℕ) (xs : List A) → All P xs
      → All P (modify_at i f xs)
  unfolding modify_at
  All-modify_at P f keep i [] h = tt
  All-modify_at P f keep zero (x ∷ xs) (p, h) = (keep x p, h)
  All-modify_at P f keep (suc i) (x ∷ xs) (p, h) = (p, All-modify_at P f keep i xs h)

  pub All-map {κ} :
      (P : A → Type κ) (f : A → A)
      → ((x : A) → P x → P (f x))
      → (xs : List A) → All P xs
      → All P (map f xs)
  All-map P f keep [] h = tt
  All-map P f keep (x ∷ xs) (p, h) = (keep x p, All-map P f keep xs h)
