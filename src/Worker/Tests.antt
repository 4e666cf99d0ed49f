-- ===== src/Worker/Tests.antt =====
-- Runs of the queue worker on a small store, and each theorem at an input that meets its hypotheses.
use repo_mender.Prelude.{◌≡◌, refl, some, [], ◌∷◌, text, text_eq, pos}
use repo_mender.Tasks.Status.{succeeded, awaiting_approval}
use repo_mender.Tasks.Queue.{claimed_run}
use repo_mender.Tasks.Tests.{
  alone, bytes, tables, first_claim, once_claimed, tables-IsConsistent, claim_expired,
}
use repo_mender.Worker.{Processor, Tick, reported, core_processor, turn, run_queue, refused}
use repo_mender.Worker.Turns.{IsReported}
use repo_mender.Worker.Reporting.{turn-reports, turn-core}

abbrev tick : Tick
tick = record {
  run_draw = bytes 1;
  correlation_draw = bytes 2;
  db_now = alone 50;
  claimed_at = 50;
  completed_at = 55;
}

-- A processor that finds nothing wrong.
abbrev contented : Processor
contented task run db = (record { status = succeeded; code = []; message = text "done" }, db)

run_queue-refused :
    run_queue (pos 0) (pos 30) (text "w2") (some contented) (tick ∷ []) tables ≡ (refused, tables)
unfolding run_queue
run_queue-refused = refl

turn-reports_example :
    ((turn contented (text "w2") (pos 30) tick tables).0 ≡ reported succeeded)
    × IsReported first_claim.0 succeeded (turn contented (text "w2") (pos 30) tick tables).1
unfolding text text_eq claimed_run
turn-reports_example =
    turn-reports contented (text "w2") (pos 30) tick first_claim.0 first_claim.1 tables once_claimed
      tables-IsConsistent claim_expired refl (refl, refl) refl

turn-core_example :
    ((turn (core_processor (λ e. []) 50) (text "w2") (pos 30) tick tables).0
      ≡ reported awaiting_approval)
    × IsReported first_claim.0 awaiting_approval
        (turn (core_processor (λ e. []) 50) (text "w2") (pos 30) tick tables).1
unfolding text text_eq claimed_run
turn-core_example =
    turn-core (λ e. []) (text "w2") (pos 30) tick first_claim.0 first_claim.1 tables once_claimed
      tables-IsConsistent claim_expired refl
