-- ===== src/Progress/Samples.antt =====
-- A checkpoint, its targets and the packages around the recorder, for the tests and witnesses.
use native.Mathlib.Decide.{ℕ_discrete}
use mathlib.Core.Option.{some-injective, none-ne-some}
use gareji_core.Base.{
  ℕ, ◌<◌, ◌%◌, ◌≡◌, refl, ap, sym, ◌∙◌, true, false, Option, none, some, List, [], ◌∷◌, map, Text,
  codes, All, arith, ◌==◌, text_ord, text_leq,
}
use gareji_core.Progress.{
  ProgressCheckpoint, CheckpointSource, ActorType, CheckpointOutcome, VerificationStatus,
  WorkItemState, DeliveryTarget, schema_version_v0, from_db,
}
use gareji_core.Progress.Ledger.{
  Externals, ReadsBack, Ledger, CheckpointRow, DeliveryRow, find_checkpoint, has_delivery,
  is_delivery,
}
use gareji_core.Progress.Ledger.Invariant.{IsSound}
use gareji_core.Progress.Ledger.Encoding.{GivesBytes}

abbrev pub ProgressCheckpoint-discrete : Discrete ProgressCheckpoint
ProgressCheckpoint-discrete = hlevel ℕ_discrete

abbrev pub first_checkpoint : ProgressCheckpoint
first_checkpoint = record {
  schema_version = schema_version_v0;
  checkpoint_id = codes "cp-1";
  recorded_at = codes "2026-07-17T12:00:00+09:00";
  project_id = codes "core";
  work_item_id = some (codes "CORE-1");
  execution_workspace_id = codes "core-local";
  source = CheckpointSource.runner;
  actor = record { kind = ActorType.agent; id = codes "implementer" };
  outcome = CheckpointOutcome.progress;
  summary = codes "Implemented.";
  changed_paths = codes "src/lib.rs" ∷ [];
  git = some (record { head = none; branch = some (codes "main"); dirty = true });
  verification =
      record {
        name = codes "cargo test";
        status = VerificationStatus.passed;
        evidence_ref = some (codes "run://t");
      }
      ∷ [];
  evidence_refs = codes "file://crates" ∷ [];
  recommended_state = some WorkItemState.in_review;
}

abbrev pub changed_checkpoint : ProgressCheckpoint
changed_checkpoint = record first_checkpoint { summary = codes "Different." }

abbrev pub two_targets : List DeliveryTarget
two_targets =
    record { destination_id = codes "json" } ∷ record { destination_id = codes "board" } ∷ []

abbrev pub one_target : List DeliveryTarget
one_target = record { destination_id = codes "json" } ∷ []

-- Two values, each written as a text of its own.
abbrev pub write_decided : {A : Type 0} (a b c : A) → Dec (c ≡ a) → Dec (c ≡ b) → Option Text
write_decided a b c (yes p) d = some (codes "{}")
write_decided a b c (no p) (yes q) = some []
write_decided a b c (no p) (no q) = none

abbrev pub read_two : {A : Type 0} → A → A → Text → Option A
read_two a b [] = some b
read_two a b (t ∷ ts) = some a

write_decided_inv :
    {A : Type 0} (a b c : A) (d : Dec (c ≡ a)) (e : Dec (c ≡ b)) (t : Text)
    → write_decided a b c d e ≡ some t
    → read_two a b t ≡ some c
write_decided_inv a b c (yes p) e t h =
    ap (read_two a b) (sym (some-injective _ _ h)) ∙ ap some (sym p)
write_decided_inv a b c (no p) (yes q) t h =
    ap (read_two a b) (sym (some-injective _ _ h)) ∙ ap some (sym q)
write_decided_inv a b c (no p) (no q) t h = absurd (none-ne-some t h)

abbrev pub packages : Externals
packages = record {
  fault = λ site. false;
  to_string = λ c.
      write_decided first_checkpoint changed_checkpoint c
        (ProgressCheckpoint-discrete c first_checkpoint)
        (ProgressCheckpoint-discrete c changed_checkpoint);
  from_str = read_two first_checkpoint changed_checkpoint;
  digest = map (λ b. b % 256);
  rfc3339 = λ t. true;
}

pub packages-ReadsBack : ReadsBack packages
packages-ReadsBack = record {
  from_str-to_string = λ c.
      write_decided_inv first_checkpoint changed_checkpoint c
        (ProgressCheckpoint-discrete c first_checkpoint)
        (ProgressCheckpoint-discrete c changed_checkpoint);
}

bytes_of : (m : List ℕ) → All (λ b. b < 256) (map (λ b. b % 256) m)
bytes_of [] = tt
bytes_of (b ∷ m) = (omega arith, bytes_of m)

pub packages-GivesBytes : GivesBytes packages
packages-GivesBytes = bytes_of

abbrev pub empty : Ledger
empty = record { checkpoints = []; deliveries = [] }

pub empty-IsSound : IsSound empty
empty-IsSound = record {
  ids_once = tt;
  rowids = tt;
  references = tt;
  keys_once = tt;
  readable = tt;
}

abbrev pub first_row : CheckpointRow
first_row = record {
  rowid = 1;
  checkpoint_id = codes "cp-1";
  fingerprint = codes "7b7d";
  payload_json = codes "{}";
  recorded_at = codes "2026-07-17T12:00:00+09:00";
  project_id = some (codes "core");
  work_item_id = some (codes "CORE-1");
}

abbrev pub first_delivery : Text → DeliveryRow
first_delivery destination = record {
  checkpoint_id = codes "cp-1";
  destination_id = destination;
  status = codes "pending";
  attempts = 0;
  last_error = none;
}

abbrev pub one_recorded : Ledger
one_recorded = record {
  checkpoints = first_row ∷ [];
  deliveries = first_delivery (codes "board") ∷ first_delivery (codes "json") ∷ [];
}

pub one_recorded-IsSound : IsSound one_recorded
unfolding ◌==◌ text_leq find_checkpoint has_delivery is_delivery from_db
one_recorded-IsSound = record {
  ids_once = (λ m. m, tt);
  rowids = (tt, tt);
  references = (refl, (refl, tt));
  keys_once = (refl, (refl, tt));
  readable = (refl, (refl, tt));
}
