-- ===== src/Prelude/Rows.antt =====
-- Rows of a table: updates by a condition, counts, and members.
use Prim.Native.Nat.{◌+◌, ◌≤◌, ◌<◌}
use mathlib.Core.Path.{◌≡◌, refl, ap}
use mathlib.Core.Logic.{◌⊎◌, inl, inr}
use mathlib.Core.Bool.{Bool, true, false, ◌&&◌}
use mathlib.Core.List.{List, [], ◌∷◌, map}
use mathlib.Core.Option.{some}
use native.Mathlib.Omega.{arith}
use repo_mender.Prelude.Tests.{if◌then◌else◌, Bool-cases}
use repo_mender.Prelude.Lists.{count_if, find, All}

-- `UPDATE … SET … WHERE …`
abbrev pub update_where {ℓ} : {A : Type ℓ} → (A → Bool) → (A → A) → List A → List A
update_where p f rows = map (λ r. if p r then f r else r) rows

-- One row is in the table.
abbrev pub In : {A : Type 0} → A → List A → Type 0
In a [] = ⊥
In a (x ∷ xs) = (a ≡ x) ⊎ In a xs

module _ {κ} {A : Type 0} (P : A → Type κ) where
  pub All-in : {x : A} (xs : List A) → All P xs → In x xs → P x
  All-in [] h m = absurd m
  All-in (y ∷ ys) h (inl e) = rw e h.0
  All-in (y ∷ ys) h (inr m) = All-in ys h.1 m

module _ {A : Type 0} where
  pub In-map : (f : A → A) (x : A) (xs : List A) → In x xs → In (f x) (map f xs)
  In-map f x [] m = m
  In-map f x (y ∷ ys) (inl e) = inl (ap f e)
  In-map f x (y ∷ ys) (inr m) = inr (In-map f x ys m)

  pub find-In : (p : A → Bool) (xs : List A) {x : A} → find p xs ≡ some x → In x xs
  find-In p [] e = cc
  find-In p (y ∷ ys) {x} e = elim (Bool-cases (p y)) [
    | inl h ↦ inl (ground arith)
    | inr h ↦ inr (find-In p ys (ground arith))
  ]

  -- Rows that are updated keep their count under `p`, if the update keeps `p`.
  pub count_if-update_same :
      (p q : A → Bool) (f : A → A) (xs : List A)
      → ((x : A) → q x ≡ true → p (f x) ≡ p x)
      → count_if p (update_where q f xs) ≡ count_if p xs
  count_if-update_same p q f [] h = refl
  count_if-update_same p q f (x ∷ xs) h = ground (arith, h x, count_if-update_same p q f xs h)

  -- Rows that are updated leave the count, if the update makes `p` fail.
  pub count_if-update_off :
      (p q : A → Bool) (f : A → A) (xs : List A)
      → ((x : A) → q x ≡ true → p (f x) ≡ false)
      → count_if p (update_where q f xs) + count_if (λ x. p x && q x) xs ≡ count_if p xs
  count_if-update_off p q f [] h = refl
  count_if-update_off p q f (x ∷ xs) h = ground (arith, h x, count_if-update_off p q f xs h)

  pub count_if-implied :
      (p q : A → Bool) (xs : List A)
      → ((x : A) → p x ≡ true → q x ≡ true)
      → count_if (λ x. p x && q x) xs ≡ count_if p xs
  count_if-implied p q [] h = refl
  count_if-implied p q (x ∷ xs) h = ground (arith, h x, count_if-implied p q xs h)

  pub count_if-pos :
      (p q : A → Bool) (xs : List A) {x : A}
      → find q xs ≡ some x
      → p x ≡ true
      → 0 < count_if (λ y. p y && q y) xs
  count_if-pos p q [] e h = cc
  count_if-pos p q (y ∷ ys) {x} e h = ground (arith, count_if-pos p q ys {x = x})

  pub count_if-and-le :
      (p q : A → Bool) (xs : List A) → count_if (λ x. p x && q x) xs ≤ count_if p xs
  count_if-and-le p q [] = omega arith
  count_if-and-le p q (x ∷ xs) = ground (arith, count_if-and-le p q xs)

-- Every row is in the table.
All-grow :
    {A : Type 0} (y : A) (xs ys : List A) → All (λ x. In x ys) xs → All (λ x. In x (y ∷ ys)) xs
All-grow y [] ys h = tt
All-grow y (x ∷ xs) ys h = (inr h.0, All-grow y xs ys h.1)

pub All-self : {A : Type 0} (xs : List A) → All (λ x. In x xs) xs
All-self [] = tt
All-self (x ∷ xs) = (inl refl, All-grow x xs xs (All-self xs))
