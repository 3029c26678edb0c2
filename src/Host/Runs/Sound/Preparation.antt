-- ===== src/Host/Runs/Sound/Preparation.antt =====
-- The checks before the plugin starts are sound (crates/agentmesh-host/src/run.rs).
use gareji_core.RunContract.{Value}
use gareji_core.Base.{
  ◌≡◌, ◌≢◌, inl, inr, refl, Text, if◌then◌else◌, Result, ok, err, is_empty, ltb, length, text_ord,
  Bool-cases,
}
use gareji_core.Protocol.Strict.{Stop, exhausted as no_fuel, refused}
use gareji_core.Protocol.Strict.Fuel.{parse_value_strict_total}
use gareji_core.Host.{Libraries, Os, RunConfig, Pipes}
use gareji_core.Host.Process.{
  resolve, build_plugin_command, PluginPathError, not_absolute, not_file, not_found,
}
use gareji_core.Host.Redaction.{RedactionError, RedactionPolicy, from_pointers, invalid_pointer}
use gareji_core.Host.Runs.Steps.{RunState, set_hash}
use gareji_core.Host.Runs.Exchange.{
  check_input, check_redaction, parsed_input, resolved, spawned, start_plugin,
}
use gareji_core.Host.Runs.Sound.{Categorised, Good, Sound, ◌then◌, call-Good, refuse-Good}

module _ {W : Type 0} (lib : Libraries) (os : Os W) (config : RunConfig) (Reason : Type 0) where
  pub check_redaction-Good : Good Reason (check_redaction lib os config)
  unfolding check_redaction
  check_redaction-Good = record { runs = λ s h. go s h (from_pointers config.redact_pointers) refl }
    where
      go :
          (s : RunState W)
          → Categorised s.failures.primary
          → (r : Result RedactionPolicy RedactionError) → from_pointers config.redact_pointers ≡ r
          → Sound Reason (check_redaction lib os config s)
      go s h (ok policy) e = rw (check_redaction, e) h
      go s h (err (invalid_pointer message)) e =
          rw (check_redaction, e) ((refuse-Good lib os config Reason RedactionPolicy _ _).runs s h)

  parsed_input-Good :
      (r : Result Value Stop) → r ≢ err no_fuel → Good Reason (parsed_input lib os config r)
  unfolding parsed_input
  parsed_input-Good (ok v) k = record { runs = λ s h. h }
  parsed_input-Good (err (refused e)) k = record {
    runs = λ s h. (refuse-Good lib os config Reason Value _ _).runs s h;
  }
  parsed_input-Good (err no_fuel) k = record { runs = λ s h. absurd (k refl) }

  pub check_input-Good : Good Reason (check_input lib os config)
  unfolding check_input set_hash
  check_input-Good = record {
    runs = λ s h. elim (Bool-cases (is_empty config.input)) [
      | inl e ↦ rw e ((refuse-Good lib os config Reason Value _ _).runs s h)
      | inr e ↦ elim (Bool-cases (ltb config.limits.input_max_bytes (length config.input))) [
        | inl big ↦ rw (e, big) ((refuse-Good lib os config Reason Value _ _).runs s h)
        | inr fits ↦
            rw (e, fits)
              ((parsed_input-Good _
                  (parse_value_strict_total lib.scalars config.limits config.input)).runs
                _ h)
      ]
    ];
  }

  resolved-Good : (r : Result Text PluginPathError) → Good Reason (resolved lib os config r)
  unfolding resolved
  resolved-Good (ok path) = record { runs = λ s h. h }
  resolved-Good (err not_absolute) = record {
    runs = λ s h. (refuse-Good lib os config Reason Text _ _).runs s h;
  }
  resolved-Good (err not_found) = record {
    runs = λ s h. (refuse-Good lib os config Reason Text _ _).runs s h;
  }
  resolved-Good (err not_file) = record {
    runs = λ s h. (refuse-Good lib os config Reason Text _ _).runs s h;
  }

  spawned-Good : (r : Result Pipes Text) → Good Reason (spawned lib os config r)
  unfolding spawned
  spawned-Good (ok pipes) = record { runs = λ s h. h }
  spawned-Good (err e) = record {
    runs = λ s h. (refuse-Good lib os config Reason Pipes _ _).runs s h;
  }

  pub start_plugin-Good : Good Reason (start_plugin lib os config)
  unfolding start_plugin
  start_plugin-Good = call-Good lib os config Reason (resolve lib os config.plugin) then λ found.
      resolved-Good found then λ path.
      call-Good lib os config Reason
        (os.spawn (build_plugin_command lib path config.plugin_env_keys))
      then λ started. spawned-Good started
