-- ===== src/Tasks/Unique.antt =====
-- Lookups and updates of the task table (server/internal/tasks/store.go) under distinct identifiers.
use repo_mender.Prelude.{
  ◌≡◌, sym, subst, true, false, Option, none, some, List, [], ◌∷◌, ◌++◌, map, inl, inr, ◌⊎◌, Text,
  text_eq, text_eq_iff, All, In, arith, Bool-cases,
}
use repo_mender.Tasks.Types.{Snapshot, Task}
use repo_mender.Tasks.Tables.{find_task}
use repo_mender.Tasks.Queue.{claimable, is_free, precedes, better, pick}
use repo_mender.Tasks.Invariant.{HasDistinctIds}

-- Only `t` itself has its identifier.
abbrev pub IsOnly : Task → Task → Type 0
IsOnly t u = text_eq u.id t.id ≡ true → u ≡ t

others : (t : Task) (ts : List Task) → All (λ u. text_eq u.id t.id ≡ false) ts → All (IsOnly t) ts
others t [] h = tt
others t (u ∷ us) h = (λ e. cc, others t us h.1)

pub absent :
    (x t : Task) (ts : List Task)
    → All (λ u. text_eq u.id x.id ≡ false) ts
    → In t ts
    → text_eq x.id t.id ≡ false
absent x t [] h m = absurd m
absent x t (u ∷ us) h (inl e) = ground (arith, text_eq_iff x.id t.id, text_eq_iff u.id x.id)
absent x t (u ∷ us) h (inr m) = absent x t us h.1 m

pub In-IsOnly : (t : Task) (ts : List Task) → HasDistinctIds ts → In t ts → All (IsOnly t) ts
In-IsOnly t [] h m = absurd m
In-IsOnly t (u ∷ us) h (inl e) =
    (λ p. ground arith, subst (λ a. All (IsOnly a) us) (sym e) (others u us h.0))
In-IsOnly t (u ∷ us) h (inr m) = (λ p. cc (absent u t us h.0 m), In-IsOnly t us h.1 m)

-- An update that keeps identifiers keeps them distinct.
map-absent :
    (x : Text) (f : Task → Task) (ts : List Task)
    → ((t : Task) → (f t).id ≡ t.id)
    → All (λ u. text_eq u.id x ≡ false) ts
    → All (λ u. text_eq u.id x ≡ false) (map f ts)
map-absent x f [] k h = tt
map-absent x f (t ∷ ts) k h = (rw (k t) h.0, map-absent x f ts k h.1)

pub map-HasDistinctIds :
    (f : Task → Task) (ts : List Task)
    → ((t : Task) → (f t).id ≡ t.id)
    → HasDistinctIds ts
    → HasDistinctIds (map f ts)
map-HasDistinctIds f [] k h = tt
map-HasDistinctIds f (t ∷ ts) k h =
    (rw (k t) (map-absent t.id f ts k h.0), map-HasDistinctIds f ts k h.1)

pub append-HasDistinctIds :
    (t : Task) (ts : List Task)
    → All (λ u. text_eq u.id t.id ≡ false) ts
    → HasDistinctIds ts
    → HasDistinctIds (ts ++ t ∷ [])
append-HasDistinctIds t [] k h = (tt, tt)
append-HasDistinctIds t (u ∷ us) k h =
    (append-absent u.id t us (flip t u k.0) h.0, append-HasDistinctIds t us k.1 h.1)
  where
    flip : (a b : Task) → text_eq b.id a.id ≡ false → text_eq a.id b.id ≡ false
    flip a b p = ground (arith, text_eq_iff a.id b.id, text_eq_iff b.id a.id)

    append-absent :
        (x : Text) (a : Task) (bs : List Task)
        → text_eq a.id x ≡ false
        → All (λ u. text_eq u.id x ≡ false) bs
        → All (λ u. text_eq u.id x ≡ false) (bs ++ a ∷ [])
    append-absent x a [] p q = (p, tt)
    append-absent x a (b ∷ bs) p q = (q.0, append-absent x a bs p q.1)

better_cases : (u : Task) (r : Option Task) {t : Task} → better u r ≡ t → (t ≡ u) ⊎ (r ≡ some t)
better_cases u none e = inl (sym e)
better_cases u (some v) e = elim (Bool-cases (precedes v u)) [
  | inl h ↦ inr (ground arith)
  | inr h ↦ inl (ground arith)
]

-- The claimed row is a row of the table, which the claim may take.
pub pick-IsFree :
    (now : Snapshot) (ts : List Task) {t : Task}
    → pick now ts ≡ some t
    → In t ts × (is_free now t ≡ true)
unfolding pick
pick-IsFree now [] e = cc
pick-IsFree now (u ∷ us) {t} e = elim (Bool-cases (is_free now u)) [
  | inl c ↦ elim (better_cases u (pick now us) {t = t} (ground arith)) [
    | inl same ↦ (inl same, rw same c)
    | inr later ↦ let (m, k) = pick-IsFree now us {t = t} later in (inr m, k)
  ]
  | inr c ↦ let (m, k) = pick-IsFree now us {t = t} (ground arith) in (inr m, k)
]

pub pick-In :
    (now : Snapshot) (ts : List Task) {t : Task}
    → pick now ts ≡ some t
    → In t ts × (claimable now.time t ≡ true)
unfolding is_free
pick-In now ts {t} e = let (m, c) = pick-IsFree now ts {t = t} e in (m, ground (arith, c))

-- A row is found by its identifier.
pub In-find : (t : Task) (ts : List Task) → HasDistinctIds ts → In t ts → find_task t.id ts ≡ some t
In-find t [] h m = absurd m
In-find t (u ∷ us) h (inl e) = ground (arith, text_eq_iff u.id t.id)
In-find t (u ∷ us) h (inr m) = rw (absent u t us h.0 m) (In-find t us h.1 m)
