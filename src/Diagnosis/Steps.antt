-- ===== src/Diagnosis/Steps.antt =====
-- The steps of `Process` (server/internal/diagnosis/processor.go): what holds of their failures and of
-- what follows them holds of them.
use repo_mender.Prelude.{
  ℕ, ◌+◌, ◌≡◌, refl, ap, ◌∙◌, inl, inr, ◌⊎◌, List, [], ◌∷◌, map, Text, length, length-append, ok,
  err, Option-cases, Result-cases, arith,
}
use repo_mender.Ids.{Draw, new_id}
use repo_mender.Tasks.Types.{Time, Task, Run, RunEventInput, Database}
use repo_mender.Tasks.Events.{append_run_event}
use repo_mender.Tasks.Findings.{
  Reports, FindingInput, EvidenceInput, refers, create_finding, create_evidence,
}
use repo_mender.Repair.World.{ExecutionEvent}
use repo_mender.Diagnosis.Logs.{LogChunk}
use repo_mender.Diagnosis.Results.{Hypothesis}
use repo_mender.Diagnosis.Storing.{
  Publication, Work, Json, Clock, Answer, failure, chunk_evidence, hypothesis_finding, recorded,
  store_chunks, store_findings, stream_events,
}

-- What has been published, and how many findings and pieces of evidence there are.
abbrev pub At : List Publication → ℕ → ℕ → Work → Type 0
At ps f e w = (w.published ≡ ps) × (length w.reports.findings ≡ f) × (length w.reports.evidence ≡ e)

create_evidence-adds :
    (draw : Draw) (db_now : Time) (input : EvidenceInput) (db : Database) (rs : Reports)
    → ((x : _) × ((create_evidence draw db_now input db rs).0 ≡ err x))
      ⊎ ((v : _) × ((create_evidence draw db_now input db rs).0 ≡ ok v)
          × ((create_evidence draw db_now input db rs).1.findings ≡ rs.findings)
          × (length (create_evidence draw db_now input db rs).1.evidence ≡ length rs.evidence + 1))
unfolding create_evidence
create_evidence-adds draw db_now input db rs = elim (Option-cases (new_id draw)) [
  | inl n ↦ rw (n, create_evidence) (inl (_, refl))
  | inr (id, d) ↦ elim (Option-cases (refers input.task_id input.run_id db)) [
    | inr (x, bad) ↦ rw (d, bad, create_evidence) (inl (_, refl))
    | inl fine ↦
        rw (d, fine, create_evidence) (inr (_, refl, refl, length-append rs.evidence (_ ∷ [])))
  ]
]

create_finding-adds :
    (draw : Draw) (db_now : Time) (input : FindingInput) (db : Database) (rs : Reports)
    → ((x : _) × ((create_finding draw db_now input db rs).0 ≡ err x))
      ⊎ ((v : _) × ((create_finding draw db_now input db rs).0 ≡ ok v)
          × (length (create_finding draw db_now input db rs).1.findings ≡ length rs.findings + 1)
          × ((create_finding draw db_now input db rs).1.evidence ≡ rs.evidence))
unfolding create_finding
create_finding-adds draw db_now input db rs = elim (Option-cases (new_id draw)) [
  | inl n ↦ rw (n, create_finding) (inl (_, refl))
  | inr (id, d) ↦ elim (Option-cases (refers input.task_id input.run_id db)) [
    | inr (x, bad) ↦ rw (d, bad, create_finding) (inl (_, refl))
    | inl fine ↦
        rw (d, fine, create_finding) (inr (_, refl, length-append rs.findings (_ ∷ []), refl))
  ]
]

pub length-map : {A B : Type 0} (f : A → B) (xs : List A) → length (map f xs) ≡ length xs
length-map f [] = refl
length-map f (x ∷ xs) = omega (arith, length-map f xs)

-- A property of what a step answers holds where it holds of the step's failures and of what follows.
module _ (P : Answer → Type 0) where
  pub recorded-holds :
      (ps : List Publication) (f e : ℕ) (db_now : Time) (run_id : Text) (input : RunEventInput)
      (w : Work) (next : Work → Answer)
      → At ps f e w
      → ((code : Text) (v : Work) → At ps f e v → P (failure code v))
      → ((v : Work) → At ps f e v → P (next v))
      → P (recorded db_now run_id input w next)
  unfolding recorded
  recorded-holds ps f e db_now run_id input w next h bad good =
      elim (Result-cases (append_run_event db_now run_id input w.tasks).0) [
        | inl (v, q) ↦ rw (q, recorded) (good _ h)
        | inr (x, q) ↦ rw (q, recorded) (bad _ _ h)
      ]

  pub stream_events-holds :
      (ps : List Publication) (f e : ℕ) (db_now : Time) (run_id : Text)
      (events : List ExecutionEvent) (w : Work) (next : Work → Answer)
      → At ps f e w
      → ((code : Text) (v : Work) → At ps f e v → P (failure code v))
      → ((v : Work) → At ps f e v → P (next v))
      → P (stream_events db_now run_id events w next)
  unfolding stream_events
  stream_events-holds ps f e db_now run_id [] w next h bad good = good w h
  stream_events-holds ps f e db_now run_id (x ∷ xs) w next h bad good =
      recorded-holds ps f e db_now run_id _ w _ h bad
        (λ v k. stream_events-holds ps f e db_now run_id xs v next k bad good)

  pub store_chunks-holds :
      (ps : List Publication) (f e : ℕ) (json : Json) (clock : Clock) (task : Task) (run : Run)
      (n : ℕ) (cs : List LogChunk) (w : Work) (next : Work → Answer)
      → At ps f e w
      → ((code : Text) (v : Work) → v.published ≡ ps → P (failure code v))
      → ((v : Work) → At ps f (e + length cs) v → P (next v))
      → P (store_chunks json clock task run n cs w next)
  unfolding store_chunks
  store_chunks-holds ps f e json clock task run n [] w next h bad good =
      good w (h.0, h.1, omega (arith, h.2))
  store_chunks-holds ps f e json clock task run n (c ∷ cs) w next h bad good =
      elim (create_evidence-adds (clock.evidence_draw n) clock.db_now
        (chunk_evidence json task run c) w.tasks w.reports) [
          | inl (x, q) ↦ rw (q, store_chunks) (bad _ _ h.0)
          | inr (v, q, same, more) ↦
              rw (q, store_chunks)
                (store_chunks-holds ps f (e + 1) json clock task run (n + 1) cs _ next
                  (h.0, ap length same ∙ h.1, omega (arith, more, h.2)) bad
                  (λ u k. good u (k.0, k.1, omega (arith, k.2))))
        ]

  pub store_findings-holds :
      (ps : List Publication) (f e : ℕ) (json : Json) (clock : Clock) (task : Task) (run : Run)
      (n : ℕ) (hs : List Hypothesis) (w : Work) (next : Work → Answer)
      → At ps f e w
      → ((code : Text) (v : Work) → v.published ≡ ps → P (failure code v))
      → ((v : Work) → At ps (f + length hs) e v → P (next v))
      → P (store_findings json clock task run n hs w next)
  unfolding store_findings
  store_findings-holds ps f e json clock task run n [] w next h bad good =
      good w (h.0, omega (arith, h.1), h.2)
  store_findings-holds ps f e json clock task run n (c ∷ cs) w next h bad good =
      elim (create_finding-adds (clock.finding_draw n) clock.db_now
        (hypothesis_finding json task run c) w.tasks w.reports) [
          | inl (x, q) ↦ rw (q, store_findings) (bad _ _ h.0)
          | inr (v, q, more, same) ↦
              rw (q, store_findings)
                (store_findings-holds ps (f + 1) e json clock task run (n + 1) cs _ next
                  (h.0, omega (arith, more, h.1), ap length same ∙ h.2) bad
                  (λ u k. good u (k.0, omega (arith, k.1), k.2)))
        ]
