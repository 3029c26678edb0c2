-- ===== src/Progress/Validate/Examples.antt =====
-- The validation of checkpoints on sample paths and on the sample checkpoint.
use gareji_core.Base.{◌≡◌, ◌↔◌, true, codes}
use gareji_core.Progress.Validate.{is_safe_relative_path}
use gareji_core.Progress.Validate.Paths.{IsSafePath, is_safe_relative_path_iff}

is_safe_relative_path_iff_example :
    (is_safe_relative_path (codes "src/lib.rs") ≡ true) ↔ IsSafePath (codes "src/lib.rs")
is_safe_relative_path_iff_example = is_safe_relative_path_iff (codes "src/lib.rs")
