-- ===== src/Tasks/Numbering.antt =====
-- The numbers of run events (`AppendRunEvent` and `ListRunEvents` of
-- server/internal/tasks/store.go).
use repo_mender.Prelude.{
  ℕ, zero, suc, ◌+◌, ◌-◌, ◌≡◌, refl, sym, subst, ap, inl, inr, some, List, [], ◌∷◌, ◌++◌, Text,
  text_eq, select, select-append, select-select, length, drop, is_empty, order_by, pos, ltb_ℤ, ok,
  if◌then◌else◌, arith, Bool-cases, Option-cases, leb, ◌∙◌, text_eq_iff,
}
use native.Mathlib.Nat.{add-zero}
use mathlib.Core.List.{append-nil}
use repo_mender.Tasks.Types.{Time, RunEvent, RunEventInput, Run, Database}
use repo_mender.Tasks.Tables.{find_run}
use repo_mender.Tasks.Events.{
  of_run, lower_sequence, list_run_events, max_sequence, new_event, append_run_event,
}

-- The numbers k + 1, k + 2 and so on.
abbrev pub NumberedFrom : ℕ → List RunEvent → Type 0
NumberedFrom k [] = Unit {0}
NumberedFrom k (e ∷ es) = (e.sequence ≡ suc k) × NumberedFrom (suc k) es

abbrev pub events_of : Text → Database → List RunEvent
events_of run_id db = select (of_run run_id) db.events

abbrev pub IsNumbered : Text → Database → Type 0
IsNumbered run_id db = NumberedFrom 0 (events_of run_id db)

abbrev top : ℕ → List RunEvent → ℕ
top k [] = 0
top k (e ∷ es) = suc (k + length es)

top-step :
    (k : ℕ) (xs : List RunEvent)
    → (if leb (top (suc k) xs) (suc k) then suc k else top (suc k) xs) ≡ suc (k + length xs)
top-step k [] = ground arith
top-step k (x ∷ xs) = ground arith

max_sequence-top :
    (run_id : Text) (k : ℕ) (es : List RunEvent)
    → NumberedFrom k (select (of_run run_id) es)
    → max_sequence run_id es ≡ top k (select (of_run run_id) es)
unfolding max_sequence
max_sequence-top run_id k [] h = refl
max_sequence-top run_id k (e ∷ es) h = elim (Bool-cases (of_run run_id e)) [
  | inl mine ↦
      let (first, rest) = rw mine at h in
      rw (mine, first, max_sequence-top run_id (suc k) es rest)
        (top-step k (select (of_run run_id) es))
  | inr other ↦ rw other (max_sequence-top run_id k es (rw other at h))
]

append-NumberedFrom :
    (k : ℕ) (es : List RunEvent) (e : RunEvent)
    → NumberedFrom k es
    → e.sequence ≡ suc (k + length es)
    → NumberedFrom k (es ++ e ∷ [])
append-NumberedFrom k [] e h q = (omega arith, tt)
append-NumberedFrom k (x ∷ xs) e h q = (h.0, append-NumberedFrom (suc k) xs e h.1 (omega arith))

drop-nil : (n : ℕ) → drop {A = RunEvent} n [] ≡ []
drop-nil zero = refl
drop-nil (suc n) = refl

NumberedFrom-drop :
    (n k : ℕ) (es : List RunEvent) → NumberedFrom k es → NumberedFrom (k + n) (drop n es)
NumberedFrom-drop zero k es h = rw add-zero h
NumberedFrom-drop (suc n) k [] h = tt
NumberedFrom-drop (suc n) k (e ∷ es) h =
    subst (λ j. NumberedFrom j (drop n es)) (omega arith) (NumberedFrom-drop n (suc k) es h.1)

ordered : (k : ℕ) (es : List RunEvent) → NumberedFrom k es → order_by lower_sequence es ≡ es
unfolding order_by
ordered k [] h = refl
ordered k (e ∷ []) h = refl
ordered k (e ∷ f ∷ es) h = rw (ordered (suc k) (f ∷ es) h.1) (ground arith)

later :
    (n k : ℕ) (es : List RunEvent)
    → NumberedFrom k es
    → select (λ e. ltb_ℤ (pos n) (pos e.sequence)) es ≡ drop (n - k) es
later n k [] h = sym (drop-nil (n - k))
later n k (e ∷ es) h = elim (Bool-cases (leb n k)) [
  | inl seen ↦
      let none_left : n - k ≡ 0 = ground arith in
      let none_later : n - suc k ≡ 0 = ground arith in
      rw (none_left, h.0, later n (suc k) es h.1, none_later) (ground arith)
  | inr unseen ↦
      let one_more : n - k ≡ suc (n - suc k) = ground arith in
      rw (one_more, h.0, later n (suc k) es h.1) (ground arith)
]

top-length : (xs : List RunEvent) → top 0 xs ≡ length xs
top-length [] = refl
top-length (x ∷ xs) = omega arith

appended :
    (now : Time) (run_id r : Text) (input : RunEventInput) (db : Database)
    → IsNumbered r db
    → NumberedFrom 0
        (events_of r db ++ select (of_run r) (new_event run_id now input db.events ∷ []))
unfolding new_event
appended now run_id r input db h = elim (Bool-cases (text_eq run_id r)) [
  | inr other ↦ rw (other, append-nil) h
  | inl mine ↦ rw mine (
      append-NumberedFrom 0 (events_of r db) (new_event run_id now input db.events) h (
        rw ((text_eq_iff run_id r).0 mine, max_sequence-top r 0 db.events h, top-length)
          (omega arith)))
]

-- The next event of a run that exists continues its numbering; every other run keeps its own.
pub append_run_event-IsNumbered :
    (now : Time) (run_id : Text) (input : RunEventInput) (r : Text) (db : Database)
    → IsNumbered r db
    → IsNumbered r (append_run_event now run_id input db).1
unfolding append_run_event
append_run_event-IsNumbered now run_id input r db h =
    elim (Option-cases (find_run run_id db.runs)) [
      | inl missing ↦ rw (missing, append_run_event) h
      | inr (run, e) ↦ elim (Bool-cases (is_empty run.id)) [
        | inl blank ↦ rw (e, blank, append_run_event) h
        | inr named ↦
            rw (e, named, append_run_event, select-append) (appended now run_id r input db h)
      ]
    ]

-- A reader that has seen the first n events of a run gets the rest, in order and none left out.
pub list_run_events-drop :
    (run_id : Text) (n : ℕ) (db : Database) (run : Run)
    → find_run run_id db.runs ≡ some run
    → IsNumbered run_id db
    → list_run_events run_id (pos n) db ≡ ok (drop n (events_of run_id db))
unfolding list_run_events
list_run_events-drop run_id n db run e h =
    let es = events_of run_id db in
    rw (e, list_run_events)
      (ap ok (
        ap (order_by lower_sequence) (
          select-select (of_run run_id) (λ x. ltb_ℤ (pos n) (pos x.sequence)) db.events
          ∙ later n 0 es h
          ∙ ap (λ m. drop m es) (omega arith))
        ∙ ordered (0 + n) (drop n es) (NumberedFrom-drop n 0 es h)))
