-- ===== src/Prelude/Keyed.antt =====
-- Tables of rows with distinct keys: updates, insertions and deletions by a key.
use mathlib.Core.Path.{◌≡◌, sym, subst}
use mathlib.Core.Logic.{inl, inr}
use mathlib.Core.Bool.{Bool, true, false}
use mathlib.Core.List.{List, [], ◌∷◌, ◌++◌}
use mathlib.Core.Option.{none, some}
use native.Mathlib.Omega.{arith}
use repo_mender.Prelude.Tests.{Bool-cases}
use repo_mender.Prelude.Lists.{All, find, select}
use repo_mender.Prelude.Strings.{Text, text_eq, text_eq_iff}
use repo_mender.Prelude.Rows.{update_where}

module _ {A : Type 0} (key : A → Text) where
  -- The row has another key.
  abbrev pub Lacks : Text → A → Type 0
  Lacks k x = text_eq (key x) k ≡ false

  abbrev pub IsDistinct : List A → Type 0
  IsDistinct [] = Unit
  IsDistinct (x ∷ xs) = All (Lacks (key x)) xs × IsDistinct xs

  abbrev pub with_key : Text → A → Bool
  with_key k x = text_eq (key x) k

  pub find-none-Lacks : (k : Text) (xs : List A) → find (with_key k) xs ≡ none → All (Lacks k) xs
  find-none-Lacks k [] e = tt
  find-none-Lacks k (x ∷ xs) e = elim (Bool-cases (with_key k x)) [
    | inl mine ↦ cc (rw mine at e)
    | inr other ↦ (other, find-none-Lacks k xs (rw other at e))
  ]

  Lacks-append :
      (k : Text) (x : A) (xs : List A) → Lacks k x → All (Lacks k) xs → All (Lacks k) (xs ++ x ∷ [])
  Lacks-append k x [] p h = (p, tt)
  Lacks-append k x (y ∷ ys) p h = (h.0, Lacks-append k x ys p h.1)

  pub append-IsDistinct :
      (x : A) (xs : List A) → All (Lacks (key x)) xs → IsDistinct xs → IsDistinct (xs ++ x ∷ [])
  append-IsDistinct x [] h d = (tt, tt)
  append-IsDistinct x (y ∷ ys) h d = (
    Lacks-append (key y) x ys
        (ground (arith, h.0, text_eq_iff (key x) (key y), text_eq_iff (key y) (key x))) d.0,
    append-IsDistinct x ys h.1 d.1,
  )

  Lacks-update :
      (k : Text) (p : A → Bool) (f : A → A) (xs : List A)
      → ((x : A) → key (f x) ≡ key x)
      → All (Lacks k) xs
      → All (Lacks k) (update_where p f xs)
  Lacks-update k p f [] same h = tt
  Lacks-update k p f (x ∷ xs) same h = (ground (arith, h.0, same x), Lacks-update k p f xs same h.1)

  pub update-IsDistinct :
      (p : A → Bool) (f : A → A) (xs : List A)
      → ((x : A) → key (f x) ≡ key x)
      → IsDistinct xs
      → IsDistinct (update_where p f xs)
  update-IsDistinct p f [] same d = tt
  update-IsDistinct p f (x ∷ xs) same d = elim (Bool-cases (p x)) [
    | inl touched ↦
        rw touched
          (rw (same x) (Lacks-update (key x) p f xs same d.0), update-IsDistinct p f xs same d.1)
    | inr spared ↦
        rw spared (Lacks-update (key x) p f xs same d.0, update-IsDistinct p f xs same d.1)
  ]

  Lacks-select :
      (k : Text) (p : A → Bool) (xs : List A) → All (Lacks k) xs → All (Lacks k) (select p xs)
  Lacks-select k p [] h = tt
  Lacks-select k p (x ∷ xs) h = elim (Bool-cases (p x)) [
    | inl keep ↦ rw keep (h.0, Lacks-select k p xs h.1)
    | inr gone ↦ rw gone (Lacks-select k p xs h.1)
  ]

  pub select-IsDistinct : (p : A → Bool) (xs : List A) → IsDistinct xs → IsDistinct (select p xs)
  select-IsDistinct p [] d = tt
  select-IsDistinct p (x ∷ xs) d = elim (Bool-cases (p x)) [
    | inl keep ↦ rw keep (Lacks-select (key x) p xs d.0, select-IsDistinct p xs d.1)
    | inr gone ↦ rw gone (select-IsDistinct p xs d.1)
  ]

  module _ {κ μ} (P : A → Type κ) (R : A → Type μ) (k : Text) (f : A → A) where
    others :
        (xs : List A)
        → ((x : A) → Lacks k x → P x → R x)
        → All (Lacks k) xs
        → All P xs
        → All R (update_where (with_key k) f xs)
    others [] rest l h = tt
    others (x ∷ xs) rest l h = rw l.0 (rest x l.0 h.0, others xs rest l.1 h.1)

    -- An update by a key touches the row that the key finds, and no other.
    pub All-update :
        (t : A) (xs : List A)
        → IsDistinct xs
        → find (with_key k) xs ≡ some t
        → ((x : A) → Lacks k x → P x → R x)
        → (P t → R (f t))
        → All P xs
        → All R (update_where (with_key k) f xs)
    All-update t [] d e rest one h = tt
    All-update t (x ∷ xs) d e rest one h = elim (Bool-cases (with_key k x)) [
      | inl mine ↦
          let here : x ≡ t = ground (arith, mine) in
          rw mine (
            subst (λ (y : A). P y → R (f y)) (sym here) one h.0,
            others xs rest
                (subst (λ (j : Text). All (Lacks j) xs) ((text_eq_iff (key x) k).0 mine) d.0) h.1,
          )
      | inr other ↦ rw other (rest x other h.0, All-update t xs d.1 (rw other at e) rest one h.1)
    ]

-- A deletion that spares what a lookup finds leaves the lookup as it is.
pub find-select {ℓ} :
    {A : Type ℓ} (p q : A → Bool) (xs : List A) {x : A}
    → ((y : A) → p y ≡ true → q y ≡ true)
    → find p xs ≡ some x
    → find p (select q xs) ≡ some x
find-select p q [] k e = cc
find-select p q (y ∷ ys) {x} k e = ground (arith, k y, find-select p q ys {x = x} k)

-- What holds of the rows that pass the test holds of the rows that are kept.
pub All-select {ℓ κ μ} :
    {A : Type ℓ} (P : A → Type κ) (R : A → Type μ) (p : A → Bool) (xs : List A)
    → ((x : A) → p x ≡ true → P x → R x)
    → All P xs
    → All R (select p xs)
All-select P R p [] go h = tt
All-select P R p (x ∷ xs) go h = elim (Bool-cases (p x)) [
  | inl keep ↦ rw keep (go x keep h.0, All-select P R p xs go h.1)
  | inr gone ↦ rw gone (All-select P R p xs go h.1)
]
