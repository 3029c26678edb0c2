-- ===== src/Host/Runs/Success.antt =====
-- What a reported success means (crates/agentmesh-host/src/run.rs).
use gareji_core.Base.{◌≡◌, some, Text, text_ord}
use gareji_core.Host.{Libraries, Os, RunConfig, RunOutcome}
use gareji_core.Host.Runs.Sound.{Sound}
use gareji_core.Host.Runs.Closing.{ExitedWell}
use gareji_core.Host.Runs.Answers.{Answered}

-- What a run tells when it reports success.
pub record Success {W : Type 0} (lib : Libraries) (os : Os W) (config : RunConfig) (run_id : Text)
    (o : RunOutcome) : Type 0 where
  pub answered : Answered lib os config run_id o.envelope.payload
  pub exited : ExitedWell lib os config
  pub stored : (path : Text) × (o.sidecar_path ≡ some path)
  pub exit_zero : o.exit_code ≡ 0
