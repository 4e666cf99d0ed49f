-- ===== src/Automations/Matching.antt =====
-- Which templates an event reaches (`Matching` of server/internal/automations/service.go).
use repo_mender.Prelude.{
  ℕ, zero, suc, ◌+◌, ◌≤◌, ◌≡◌, ◌↔◌, refl, Bool, true, inl, inr, ◌⊎◌, List, [], ◌∷◌, Text, In,
  trim_space, any, text_eq, text_eq_iff, ◌&&◌, sym, length, take, select, order_by, insert, arith,
  Bool-cases,
}
use repo_mender.Automations.Types.{Template, EventFilter, contains_trimmed, filter_matches, matches}
use repo_mender.Automations.Store.{newest_template, list_rows}
use repo_mender.Automations.Service.{Service, matching}
use repo_mender.Tasks.Tables.{clamp_limit}

module _ {A : Type 0} where
  In-select : (p : A → Bool) (a : A) (xs : List A) → In a (select p xs) ↔ (In a xs × (p a ≡ true))
  In-select p a [] = ((λ m. absurd m), (λ m. m.0))
  In-select p a (x ∷ xs) = elim (Bool-cases (p x)) [
    | inl pass ↦ rw pass (
      (λ m. elim m [
        | inl e ↦ (inl e, rw e pass)
        | inr k ↦ let (h, q) = (In-select p a xs).0 k in (inr h, q)
      ]),
      (λ (m, q). elim m [ inl e ↦ inl e | inr k ↦ inr ((In-select p a xs).1 (k, q)) ]),
    )
    | inr fail ↦ rw fail (
      (λ m. let (h, q) = (In-select p a xs).0 m in (inr h, q)),
      (λ (m, q). elim m [
        | inl e ↦ ground (arith, fail, q, e)
        | inr k ↦ (In-select p a xs).1 (k, q)
      ]),
    )
  ]

  In-insert :
      (precedes : A → A → Bool) (a x : A) (xs : List A)
      → In a (insert precedes x xs) ↔ ((a ≡ x) ⊎ In a xs)
  unfolding insert
  In-insert precedes a x [] = ((λ m. m), (λ m. m))
  In-insert precedes a x (y ∷ ys) = elim (Bool-cases (precedes y x)) [
    | inr front ↦ rw (front, insert) ((λ m. m), (λ m. m))
    | inl later ↦
        rw (later, insert)
          (
            (λ m. elim m [
              | inl e ↦ inr (inl e)
              | inr k ↦ elim ((In-insert precedes a x ys).0 k) [
                | inl e ↦ inl e
                | inr h ↦ inr (inr h)
              ]
            ]),
            (λ m. elim m [
              | inl e ↦ inr ((In-insert precedes a x ys).1 (inl e))
              | inr k ↦ elim k [
                | inl e ↦ inl e
                | inr h ↦ inr ((In-insert precedes a x ys).1 (inr h))
              ]
            ]),
          )
  ]

  In-order_by :
      (precedes : A → A → Bool) (a : A) (xs : List A) → In a (order_by precedes xs) ↔ In a xs
  unfolding order_by
  In-order_by precedes a [] = ((λ m. m), (λ m. m))
  In-order_by precedes a (x ∷ xs) =
      let (there, back) = In-insert precedes a x (order_by precedes xs) in
      let (down, up) = In-order_by precedes a xs in
      (
        (λ m. elim (there m) [ inl e ↦ inl e | inr k ↦ inr (down k) ]),
        (λ m. elim m [ inl e ↦ back (inl e) | inr k ↦ back (inr (up k)) ]),
      )

  length-insert :
      (precedes : A → A → Bool) (x : A) (xs : List A)
      → length (insert precedes x xs) ≡ length xs + 1
  unfolding insert
  length-insert precedes x [] = omega arith
  length-insert precedes x (y ∷ ys) = ground (arith, length-insert precedes x ys)

  length-order_by :
      (precedes : A → A → Bool) (xs : List A) → length (order_by precedes xs) ≡ length xs
  unfolding order_by
  length-order_by precedes [] = refl
  length-order_by precedes (x ∷ xs) =
      omega (arith, length-insert precedes x (order_by precedes xs), length-order_by precedes xs)

  take-all : (n : ℕ) (xs : List A) → length xs ≤ n → take n xs ≡ xs
  take-all zero [] h = refl
  take-all (suc n) [] h = refl
  take-all zero (x ∷ xs) h = absurd (omega arith)
  take-all (suc n) (x ∷ xs) h = rw (take-all n xs (omega arith))

-- A value of the list is the wanted one, but for white space around them.
abbrev Lists : List Text → Text → Type 0
Lists values wanted = (v : Text) × In v values × (trim_space v ≡ trim_space wanted)

-- A filter for the event and its action, without branches or with the event's one.
abbrev IsFor : EventFilter → Text → Text → Text → Type 0
IsFor f event action branch =
    (f.event ≡ event) × Lists f.actions action × ((f.branches ≡ []) ⊎ Lists f.branches branch)

-- What the automations mean by a template that an event triggers: it is switched on, for the event's
-- provider and repository, and has a filter for the event.
abbrev pub IsTriggered : Template → Text → Text → Text → Text → Text → Type 0
IsTriggered t provider event action branch repository =
    (t.enabled ≡ true)
    × (t.input.provider ≡ provider)
    × Lists t.input.repository_scope repository
    × ((f : EventFilter) × In f t.input.event_filters × IsFor f event action branch)

any_iff :
    {A : Type 0} (p : A → Bool) (xs : List A)
    → (any p xs ≡ true) ↔ ((x : A) × In x xs × (p x ≡ true))
any_iff p [] = ((λ e. cc), (λ (x, m, e). absurd m))
any_iff p (y ∷ ys) = (
  (λ e. elim (Bool-cases (p y)) [
    | inl h ↦ (y, inl refl, h)
    | inr h ↦ let (x, m, q) = (any_iff p ys).0 (ground (arith, e, h)) in (x, inr m, q)
  ]),
  (λ (x, m, e). elim m [
    | inl same ↦ rw (← same, e) refl
    | inr k ↦ let h = (any_iff p ys).1 (x, k, e) in ground (arith, h)
  ]),
)

contains_trimmed_iff :
    (values : List Text) (wanted : Text)
    → (contains_trimmed values wanted ≡ true) ↔ Lists values wanted
contains_trimmed_iff values wanted =
    let same = λ (v : Text). text_eq (trim_space v) (trim_space wanted) in
    (
      (λ e.
          let (v, m, q) = (any_iff same values).0 e in
          (v, m, (text_eq_iff (trim_space v) (trim_space wanted)).0 q)),
      (λ (v, m, q).
          (any_iff same values).1 (v, m, (text_eq_iff (trim_space v) (trim_space wanted)).1 q)),
    )

-- The test of a filter's branches is only made where it has some.
branches_iff :
    (branches listed : List Text) (branch : Text)
    → ((elim branches [ [] ↦ true | b ∷ bs ↦ contains_trimmed listed branch ]) ≡ true)
      ↔ ((branches ≡ []) ⊎ Lists listed branch)
branches_iff [] listed branch = ((λ e. inl refl), (λ h. refl))
branches_iff (b ∷ bs) listed branch = (
  (λ e. inr ((contains_trimmed_iff listed branch).0 e)),
  (λ h. elim h [ inl e ↦ cc | inr l ↦ (contains_trimmed_iff listed branch).1 l ]),
)

and3_iff : (a b c : Bool) → ((a && b && c) ≡ true) ↔ ((a ≡ true) × (b ≡ true) × (c ≡ true))
and3_iff a b c = ground arith

and4_iff :
    (a b c d : Bool)
    → ((a && b && c && d) ≡ true) ↔ ((a ≡ true) × (b ≡ true) × (c ≡ true) × (d ≡ true))
and4_iff a b c d = ground arith

filter_iff :
    (f : EventFilter) (event action branch : Text)
    → (filter_matches f event action branch ≡ true) ↔ IsFor f event action branch
unfolding filter_matches
filter_iff f event action branch =
    let (there, back) = and3_iff (text_eq f.event event) (contains_trimmed f.actions action) _ in
    (
      (λ e.
          let (same, acts, on) = there e in
          (
            (text_eq_iff f.event event).0 same,
            (contains_trimmed_iff f.actions action).0 acts,
            (branches_iff f.branches f.branches branch).0 on,
          )),
      (λ (same, acts, on). back (
        (text_eq_iff f.event event).1 same,
        (contains_trimmed_iff f.actions action).1 acts,
        (branches_iff f.branches f.branches branch).1 on,
      )),
    )

matches_iff :
    (provider event action branch repository : Text) (t : Template)
    → (matches t.enabled t.input provider event action branch repository ≡ true)
      ↔ IsTriggered t provider event action branch repository
unfolding matches
matches_iff provider event action branch repository t =
    let test = λ (f : EventFilter). filter_matches f event action branch in
    let (there, back) =
      and4_iff t.enabled (text_eq provider t.input.provider)
        (contains_trimmed t.input.repository_scope repository) (any test t.input.event_filters) in
    (
      (λ e.
          let (on, of, scope, some_filter) = there e in
          let (f, m, q) = (any_iff test t.input.event_filters).0 some_filter in
          (
            on,
            sym ((text_eq_iff provider t.input.provider).0 of),
            (contains_trimmed_iff t.input.repository_scope repository).0 scope,
            (f, m, (filter_iff f event action branch).0 q),
          )),
      (λ (on, of, scope, (f, m, q)). back (
        on,
        (text_eq_iff provider t.input.provider).1 (sym of),
        (contains_trimmed_iff t.input.repository_scope repository).1 scope,
        (any_iff test t.input.event_filters).1 (f, m, (filter_iff f event action branch).1 q),
      )),
    )

-- In a table of at most 200 templates, `Matching` returns a template exactly when it is in the table
-- and the event triggers it: it is switched on, for the event's provider and repository, and one of
-- its filters names the event, lists the action, and lists the branch or has no branches.
pub matching_iff :
    (provider event action branch repository : Text) (s : Service) (t : Template)
    → length s.tables.templates ≤ 200
    → In t (matching provider event action branch repository s)
      ↔ (In t s.tables.templates × IsTriggered t provider event action branch repository)
unfolding matching list_rows clamp_limit
matching_iff provider event action branch repository s t few =
    let sorted = order_by newest_template s.tables.templates in
    let page : take 200 sorted ≡ sorted =
      take-all 200 sorted (omega (arith, length-order_by newest_template s.tables.templates)) in
    let (down, up) = In-order_by newest_template t s.tables.templates in
    let (means, is) = matches_iff provider event action branch repository t in
    rw page (
      (λ m. let (h, q) = (In-select _ t sorted).0 m in (down h, means q)),
      (λ m. (In-select _ t sorted).1 (up m.0, is m.1)),
    )
