-- ===== src/Host/Failures.antt =====
-- Which failure of a run is the primary one (crates/agentmesh-host/src/failure_coord.rs).
use gareji_core.Base.{
  append_assoc, append-nil, ◌≡◌, sym, ap, ◌∙◌, Option, none, some, List, [], ◌∷◌, ◌++◌, map,
}
use gareji_core.Protocol.{FailureRecord, SecondaryFailure, to_secondary}

pub record FailureCoordinator : Type 0 where
  pub primary : Option FailureRecord
  pub secondary : List SecondaryFailure

unfoldable pub new_coordinator : FailureCoordinator
new_coordinator = record { primary = none; secondary = [] }

-- `record`: the first failure is the primary one.
unfoldable pub record_failure : FailureRecord → FailureCoordinator → FailureCoordinator
unfolding to_secondary
record_failure f g = elim g.primary [
  | none ↦ record g { primary = some f }
  | some first ↦ record g { secondary = g.secondary ++ (to_secondary f ∷ []) }
]

unfoldable pub record_audit_failure : FailureRecord → FailureCoordinator → FailureCoordinator
unfolding to_secondary
record_audit_failure f g = elim g.primary [
  | none ↦ record g { primary = some f }
  | some first ↦ record g { secondary = g.secondary ++ (to_secondary f ∷ []) }
]

-- A failure of the delivery becomes the primary one, and the previous one the first secondary.
unfoldable pub record_stdout_failure : FailureRecord → FailureCoordinator → FailureCoordinator
unfolding to_secondary
record_stdout_failure f g = elim g.primary [
  | none ↦ record g { primary = some f }
  | some previous ↦ record { primary = some f; secondary = to_secondary previous ∷ g.secondary }
]

-- The failures of a run in the order in which they are recorded.
abbrev pub record_all : List FailureRecord → FailureCoordinator → FailureCoordinator
record_all [] g = g
record_all (f ∷ fs) g = record_all fs (record_failure f g)

later_failures :
    (fs : List FailureRecord) (f : FailureRecord) (s : List SecondaryFailure)
    → record_all fs (record { primary = some f; secondary = s })
      ≡ record { primary = some f; secondary = s ++ map to_secondary fs }
unfolding record_failure
later_failures [] f s =
    ap (λ (t : List SecondaryFailure). record { primary = some f; secondary = t })
      (sym (append-nil s))
later_failures (g ∷ fs) f s =
    later_failures fs f (s ++ (to_secondary g ∷ []))
    ∙ ap (λ (t : List SecondaryFailure). record { primary = some f; secondary = t })
        (append_assoc s (to_secondary g ∷ []) (map to_secondary fs))

-- However many failures a run meets, the first is the primary one, and the others are the secondary
-- ones in their order; when the delivery of the envelope fails too, that failure becomes the primary one and
-- all those before are the secondary ones, in their order.
pub failure_precedence :
    (f last : FailureRecord) (fs : List FailureRecord)
    → (record_all (f ∷ fs) new_coordinator
        ≡ record { primary = some f; secondary = map to_secondary fs })
      × (record_stdout_failure last (record_all (f ∷ fs) new_coordinator)
          ≡ record { primary = some last; secondary = map to_secondary (f ∷ fs) })
unfolding record_failure record_stdout_failure new_coordinator
failure_precedence f last fs =
    let e = later_failures fs f [] in (e, ap (record_stdout_failure last) e)
