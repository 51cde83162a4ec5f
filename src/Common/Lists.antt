-- ===== src/Common/Lists.antt =====
-- Lists measured by native numbers, and predicates on lists by recursion.
use Prim.Native.Nat.{ℕ, suc, ◌+◌}
use mathlib.Core.Path.{ap, ◌≡◌, refl}
use mathlib.Core.Logic.{◌⊎◌, inl, inr}
use mathlib.Core.List.{List, [], ◌∷◌, ◌++◌, map}
use native.Mathlib.Omega.{arith}

module _ {ℓ} {A : Type ℓ} where
  abbrev pub length : List A → ℕ
  length [] = 0
  length (x ∷ xs) = suc (length xs)

  pub length-append : (xs ys : List A) → length (xs ++ ys) ≡ length xs + length ys
  length-append [] ys = omega arith
  length-append (x ∷ xs) ys = omega (arith, length-append xs ys)

module _ {A : Type 0} where
  -- Membership, as a type that can be taken apart.
  abbrev pub In : A → List A → Type 0
  In x [] = ⊥
  In x (y ∷ ys) = (x ≡ y) ⊎ In x ys

  pub In-append_left : (x : A) (xs ys : List A) → In x xs → In x (xs ++ ys)
  In-append_left x [] ys h = elim h [ ]
  In-append_left x (y ∷ xs) ys (inl e) = inl e
  In-append_left x (y ∷ xs) ys (inr h) = inr (In-append_left x xs ys h)

  pub In-append_right : (x : A) (xs ys : List A) → In x ys → In x (xs ++ ys)
  In-append_right x [] ys h = h
  In-append_right x (y ∷ xs) ys h = inr (In-append_right x xs ys h)

  pub In-append : (x : A) (xs ys : List A) → In x (xs ++ ys) → In x xs ⊎ In x ys
  In-append x [] ys h = inr h
  In-append x (y ∷ xs) ys (inl e) = inl (inl e)
  In-append x (y ∷ xs) ys (inr h) = elim (In-append x xs ys h) [
    | inl a ↦ inl (inr a)
    | inr b ↦ inr b
  ]

module _ {ℓ κ} {A : Type ℓ} where
  abbrev pub All : (A → Type κ) → List A → Type κ
  All P [] = Unit
  All P (x ∷ xs) = P x × All P xs

  pub All-append : (P : A → Type κ) (xs ys : List A) → All P xs → All P ys → All P (xs ++ ys)
  All-append P [] ys hx hy = hy
  All-append P (x ∷ xs) ys hx hy = (hx.0, All-append P xs ys hx.1 hy)

module _ {ℓ κ μ} {A : Type ℓ} {P : A → Type κ} {Q : A → Type μ} where
  pub All-imp : ((a : A) → P a → Q a) → (xs : List A) → All P xs → All Q xs
  All-imp f [] h = tt
  All-imp f (x ∷ xs) (p, h) = (f x p, All-imp f xs h)

module _ {A B : Type 0} where
  pub In-map : (f : A → B) (x : A) (xs : List A) → In x xs → In (f x) (map f xs)
  In-map f x [] h = elim h [ ]
  In-map f x (y ∷ xs) (inl e) = inl (ap f e)
  In-map f x (y ∷ xs) (inr h) = inr (In-map f x xs h)

  pub In-map_inv :
      (f : A → B) (z : B) (xs : List A) → In z (map f xs) → (x : A) × In x xs × (z ≡ f x)
  In-map_inv f z [] h = elim h [ ]
  In-map_inv f z (y ∷ xs) (inl e) = (y, inl refl, e)
  In-map_inv f z (y ∷ xs) (inr h) = let (x, m, e) = In-map_inv f z xs h in (x, inr m, e)
