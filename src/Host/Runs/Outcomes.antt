-- ===== src/Host/Runs/Outcomes.antt =====
-- What `execute_run_with` returns (crates/agentmesh-host/src/run.rs): the envelope and the exit code
-- always tell the same.
use gareji_core.RunContract.{no_entries, object}
use gareji_core.Base.{◌≡◌, ◌⊎◌, refl, Option, none, some, [], ◌∷◌, ◌++◌, Text, codes, ok, err}
use gareji_core.Protocol.{FailureCode, FailureRecord, ProtoError, category, exit_code, rpc_id}
use gareji_core.Protocol.Compact.{CompactOutcome}
use gareji_core.Host.{RunOutcome}
use gareji_core.Host.Failures.{FailureCoordinator, record_stdout_failure}
use gareji_core.Host.Runs.Finish.{Ended, out_of_fuel, panicked, returned}
use gareji_core.Host.Runs.Sound.{Sound}

-- A success has the exit code 0 and no diagnostic; a failure has one diagnostic, of a code and its
-- category, the exit code of that category, and no payload.
abbrev pub IsConsistent : RunOutcome → Type 0
IsConsistent o =
    ◌⊎◌
      ((o.envelope.outcome ≡ CompactOutcome.ok) × (o.exit_code ≡ 0) × (o.envelope.diagnostics ≡ []))
      ((code : FailureCode) × (message : Text) × (o.envelope.outcome ≡ CompactOutcome.error)
        × (o.exit_code ≡ exit_code (category code))
        × (o.envelope.diagnostics
            ≡ record { category = some (category code); code = some code; message = message } ∷ [])
        × (o.envelope.payload ≡ object no_entries))

pub record_stdout_failure-primary :
    (f : FailureRecord) (g : FailureCoordinator) → (record_stdout_failure f g).primary ≡ some f
unfolding record_stdout_failure
record_stdout_failure-primary f g = go g.primary refl
  where
    go : (o : Option FailureRecord) → g.primary ≡ o → (record_stdout_failure f g).primary ≡ some f
    go none e = rw (record_stdout_failure, e) refl
    go (some first) e = rw (record_stdout_failure, e) refl

-- One of the two identities of the requests is not one of the profile.
abbrev pub BadId : Text → Type 0
BadId run_id =
    (e : ProtoError) × ((rpc_id (codes "init-" ++ run_id) ≡ err e)
      ⊎ (rpc_id (codes "run-" ++ run_id) ≡ err e))

abbrev pub IsSoundEnd : Text → Ended → Type 0
IsSoundEnd run_id (returned o) = IsConsistent o
IsSoundEnd run_id panicked = BadId run_id
IsSoundEnd run_id out_of_fuel = ⊥
