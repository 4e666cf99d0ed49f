-- ===== src/Approvals/Trace.antt =====
-- Any sequence of mutations of the approval service (server/internal/approvals/service.go), each a
-- call with its clock and its random draw.
use repo_mender.Prelude.{List, [], ◌∷◌}
use repo_mender.Ids.{Draw}
use repo_mender.Approvals.Types.{Time, CreateInput, DecisionInput, ConsumeInput, CancelInput}
use repo_mender.Approvals.Validate.{PolicyDecoder}
use repo_mender.Approvals.Service.{Service, create, decide, consume, cancel}

pub data Call : Type 0 where
  creating : PolicyDecoder → Draw → Time → CreateInput → Call
  deciding : Time → DecisionInput → Call
  consuming : Time → ConsumeInput → Call
  cancelling : Time → CancelInput → Call

unfoldable pub perform : Call → Service → Service
perform (creating decode draw now input) s = (create decode draw now input s).1
perform (deciding now input) s = (decide now input s).1
perform (consuming now input) s = (consume now input s).1
perform (cancelling now input) s = (cancel now input s).1

unfoldable pub perform_all : List Call → Service → Service
perform_all [] s = s
perform_all (c ∷ cs) s = perform_all cs (perform c s)
