-- ===== src/Diagnosis/Publishing.antt =====
-- What stands behind a diagnosis that `Process` (server/internal/diagnosis/processor.go) publishes.
use repo_mender.Prelude.{
  ◌+◌, ◌≡◌, refl, ap, inl, inr, ◌⊎◌, Option, none, some, List, [], ◌∷◌, ◌++◌, Text, text, length,
  Result, ok, if◌then◌else◌, Bool-cases, Option-cases, Result-cases, arith,
}
use repo_mender.Tasks.Status.{failed, succeeded}
use repo_mender.Tasks.Types.{Task, Run}
use repo_mender.Repair.World.{Adapter}
use repo_mender.Diagnosis.Logs.{Error, LogChunk, redact_and_chunk_logs}
use repo_mender.Diagnosis.Events.{TaskPayload, decode_task_payload}
use repo_mender.Diagnosis.Results.{Diagnosis, validate_result, redact_result, redact_hypothesis}
use repo_mender.Diagnosis.Storing.{
  Publication, Work, Provider, Json, Config, Clock, Answer, failure, stream_events,
}
use repo_mender.Diagnosis.Processor.{
  publication, diagnosis_request, conclude, publish, judge, receive, follow, diagnose, fetched,
  process_payload, process,
}
use repo_mender.Diagnosis.Steps.{
  At, recorded-holds, stream_events-holds, store_chunks-holds, store_findings-holds, length-map,
}

module _ (config : Config) (json : Json) (adapter : Adapter) (provider : Provider) (clock : Clock)
    (task : Task) (run : Run) where
  -- The work after a publication, and what it rests on.
  pub record IsBacked (w : Work) (p : TaskPayload) (after : Work) : Type 0 where
    pub logs : Text
    pub chunks : List LogChunk
    pub output : Text
    pub result : Diagnosis
    pub fetch :
        provider.fetch_logs p.repository_name p.installation_id p.workflow_run_id ≡ some logs
    pub cut : redact_and_chunk_logs logs config.patterns config.chunk_size ≡ ok chunks
    pub valid : validate_result json.decode_result output ≡ some result
    pub published :
        after.published
        ≡ w.published ++ publication json p (redact_result config.patterns result) ∷ []
    pub findings :
        length after.reports.findings ≡ length w.reports.findings + length result.hypotheses
    pub evidence : length after.reports.evidence ≡ length w.reports.evidence + length chunks

  -- A failure that published nothing, or a publication that is backed.
  abbrev IsSound : Work → TaskPayload → Answer → Type 0
  IsSound w p (status, code, after) =
      ((status ≡ failed) × (after.published ≡ w.published)) ⊎ IsBacked w p after

  module _ (w : Work) (p : TaskPayload) (logs : Text) (chunks : List LogChunk)
      (fetch : provider.fetch_logs p.repository_name p.installation_id p.workflow_run_id
        ≡ some logs)
      (cut : redact_and_chunk_logs logs config.patterns config.chunk_size ≡ ok chunks) where
    abbrev Stored : Work → Type 0
    Stored = At w.published (length w.reports.findings) (length w.reports.evidence + length chunks)

    module _ (output : Text) (r : Diagnosis)
        (valid : validate_result json.decode_result output ≡ some r) where
      abbrev safe : Diagnosis
      safe = redact_result config.patterns r

      abbrev Posted : Work → Type 0
      Posted =
          At (w.published ++ publication json p safe ∷ [])
            (length w.reports.findings + length safe.hypotheses)
            (length w.reports.evidence + length chunks)

      Posted-IsBacked : (after : Work) → Posted after → IsBacked w p after
      unfolding redact_result
      Posted-IsBacked after h = record {
        logs = logs;
        chunks = chunks;
        output = output;
        result = r;
        fetch = fetch;
        cut = cut;
        valid = valid;
        published = h.0;
        findings = omega (arith, h.1, length-map (redact_hypothesis config.patterns) r.hypotheses);
        evidence = h.2;
      }

      publish-IsSound :
          (v : Work)
          → At w.published
              (length w.reports.findings + length safe.hypotheses)
              (length w.reports.evidence + length chunks)
              v
          → IsSound w p (publish config json adapter provider clock task run p safe v)
      unfolding publish conclude
      publish-IsSound v h =
          let after : Work = record v { published = v.published ++ publication json p safe ∷ [] } in
          let posted : Posted after =
            (ap (λ (ps : List Publication). ps ++ publication json p safe ∷ []) h.0, h.1, h.2) in
          elim (Bool-cases (provider.publish (publication json p safe))) [
            | inr refused ↦ rw (refused, publish) (inr (Posted-IsBacked after posted))
            | inl sent ↦
                rw (sent, publish)
                  (recorded-holds (IsSound w p) (w.published ++ publication json p safe ∷ [])
                    (length w.reports.findings + length safe.hypotheses)
                    (length w.reports.evidence + length chunks) clock.db_now run.id _ after
                    (λ u. (succeeded, [], u)) posted (λ code u k. inr (Posted-IsBacked u k))
                    (λ u k. inr (Posted-IsBacked u k)))
          ]

    receive-IsSound :
        (o : Option Text) (v : Work)
        → Stored v
        → IsSound w p (receive config json adapter provider clock task run p o v)
    unfolding receive judge
    receive-IsSound none v h = inl (refl, h.0)
    receive-IsSound (some output) v h =
        elim (Option-cases (validate_result json.decode_result output)) [
          | inl bad ↦ rw (bad, receive, judge) (inl (refl, h.0))
          | inr (r, valid) ↦
              rw (valid, receive, judge)
                (store_findings-holds (IsSound w p) w.published (length w.reports.findings)
                  (length w.reports.evidence + length chunks) json clock task run 0
                  (safe output r valid).hypotheses v
                  (publish config json adapter provider clock task run p (safe output r valid)) h
                  (λ code u k. inl (refl, k)) (publish-IsSound output r valid))
        ]

    follow-IsSound :
        (id : Option Text) (v : Work)
        → Stored v
        → IsSound w p (follow config json adapter provider clock task run p id v)
    unfolding follow
    follow-IsSound none v h = inl (refl, h.0)
    follow-IsSound (some id) v h =
        let f = length w.reports.findings in
        let e = length w.reports.evidence + length chunks in
        let ended : Work → Answer = λ x.
          if (adapter.events id).1
          then receive config json adapter provider clock task run p (adapter.result id) x
          else failure (text "m6_ac_stream_failed") x in
        recorded-holds (IsSound w p) w.published f e clock.db_now run.id _ v
          (λ u. stream_events clock.db_now run.id (adapter.events id).0 u ended) h
          (λ code u k. inl (refl, k.0))
          (λ u k.
            stream_events-holds (IsSound w p) w.published f e clock.db_now run.id
              (adapter.events id).0 u ended k (λ code x l. inl (refl, l.0))
              (λ x l. elim (Bool-cases (adapter.events id).1) [
                | inl whole ↦ rw whole (receive-IsSound (adapter.result id) x l)
                | inr broken ↦ rw broken (inl (refl, l.0))
              ]))

  fetched-IsSound :
      (w v : Work) (p : TaskPayload)
      → At w.published (length w.reports.findings) (length w.reports.evidence) v
      → IsSound w p (
          fetched config json adapter provider clock task run p
            (provider.fetch_logs p.repository_name p.installation_id p.workflow_run_id)
            v)
  unfolding fetched diagnose
  fetched-IsSound w v p h =
      elim (Option-cases
        (provider.fetch_logs p.repository_name p.installation_id p.workflow_run_id)) [
          | inl missing ↦ rw (missing, fetched) (inl (refl, h.0))
          | inr (logs, fetch) ↦
              elim (Result-cases (redact_and_chunk_logs logs config.patterns config.chunk_size)) [
                | inr (x, bad) ↦ rw (fetch, fetched, bad, diagnose) (inl (refl, h.0))
                | inl (chunks, cut) ↦
                    rw (fetch, fetched, cut, diagnose)
                      (store_chunks-holds (IsSound w p) w.published (length w.reports.findings)
                        (length w.reports.evidence) json clock task run 0 chunks v
                        (follow config json adapter provider clock task run p
                          (adapter.start (diagnosis_request config task run p chunks)))
                        h (λ code u k. inl (refl, k))
                        (follow-IsSound w p logs chunks fetch cut
                          (adapter.start (diagnosis_request config task run p chunks))))
              ]
        ]

  failed_or_IsBacked :
      (p : TaskPayload) (w : Work) (a : Answer)
      → IsSound w p a
      → ((a.0 ≡ failed) × (a.2.published ≡ w.published))
        ⊎ ((q : TaskPayload) × Path (Result Error TaskPayload) (ok p) (ok q) × IsBacked w q a.2)
  failed_or_IsBacked p w a (inl quiet) = inl quiet
  failed_or_IsBacked p w a (inr backed) = inr (p, refl, backed)

  -- With an adapter and a provider, `Process` either fails and publishes nothing, or it hands
  -- exactly one publication to the provider. That is then the redacted form of a result that
  -- ValidateResult accepted, for the repository and the commit of the task's payload, and as many
  -- findings as the result has hypotheses and as many pieces of evidence as there are chunks of the
  -- redacted logs of that run were stored.
  pub process-IsBacked :
      (w : Work)
      → (((process config json (some adapter) (some provider) clock task run w).0 ≡ failed)
          × ((process config json (some adapter) (some provider) clock task run w).2.published
              ≡ w.published))
        ⊎ ((p : TaskPayload) × (decode_task_payload json.payloads task.payload ≡ ok p)
            × IsBacked w p (process config json (some adapter) (some provider) clock task run w).2)
  unfolding process process_payload
  process-IsBacked w = elim (Result-cases (decode_task_payload json.payloads task.payload)) [
    | inr (x, bad) ↦ rw (bad, process, process_payload) (inl (refl, refl))
    | inl (p, good) ↦
        rw (good, process, process_payload)
          (failed_or_IsBacked p w
            (process_payload config json adapter provider clock task run (ok p) w)
            (recorded-holds (IsSound w p) w.published (length w.reports.findings)
              (length w.reports.evidence) clock.db_now run.id _ w
              (fetched config json adapter provider clock task run p
                (provider.fetch_logs p.repository_name p.installation_id p.workflow_run_id))
              (refl, refl, refl) (λ code u k. inl (refl, k.0)) (λ u k. fetched-IsSound w u p k)))
  ]
