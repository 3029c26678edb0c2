-- ===== src/Bridge/Responses.antt =====
-- The responses of the bridge (crates/gareji-core/src/bridge.rs).
use gareji_core.Base.{
  ◌≤◌, ◌≡◌, ◌↔◌, refl, not, ◌||◌, [], ◌∷◌, Text, length, length-take, ltb, arith, Result, ok, err,
  fail_if, is_empty, Between, guard_iff, seq_iff, compose_iff, ◌==◌, eq_iff, text_ord,
}
use gareji_core.RunContract.{Value}
use gareji_core.BridgeContract.{
  CoreBridgeRequest, CoreBridgeResponse, CoreFailure, BoardPort, ok_response, error,
  protocol_version_v0,
}
use gareji_core.Bridge.{
  CoreBridge, Externals, error_response, respond, accept, dispatch, execute, handle,
}
use gareji_core.Bridge.Grants.{Authorized, execute-Authorized}

-- A response in the bridge's protocol to the request with this identity; an error is bounded.
abbrev pub IsResponseTo : Text → CoreBridgeResponse → Type 0
IsResponseTo request_id (ok_response version id result) =
    (version ≡ protocol_version_v0) × (id ≡ request_id)
IsResponseTo request_id (error version id e) =
    (version ≡ protocol_version_v0) × (id ≡ request_id) × (length e.message ≤ 256)

error_IsResponse :
    (request_id : Text) (failure : CoreFailure)
    → IsResponseTo request_id (error_response request_id failure)
unfolding error_response
error_IsResponse request_id failure = (refl, refl, omega (arith, length-take 256 failure.message))

respond-IsResponse :
    (request_id : Text) (result : Result Value CoreFailure)
    → IsResponseTo request_id (respond request_id result)
unfolding respond
respond-IsResponse request_id (ok v) = (refl, refl)
respond-IsResponse request_id (err failure) = error_IsResponse request_id failure

identity_iff :
    {E : Type 0} (id : Text) (e : E)
    → (fail_if (is_empty id || ltb 128 (length id)) e ≡ ok tt) ↔ Between 1 128 id
identity_iff [] e = (λ h. cc, λ h. absurd (omega (arith, h.0)))
identity_iff (c ∷ t) e = (λ h. ground arith, λ h. ground arith)

accept_iff :
    (request : CoreBridgeRequest)
    → (accept request ≡ ok tt)
      ↔ ((request.protocol_version ≡ protocol_version_v0) × Between 1 128 request.request_id)
unfolding accept
accept_iff request =
    seq_iff (fail_if (not (request.protocol_version == protocol_version_v0)) _) _
      (compose_iff (guard_iff (request.protocol_version == protocol_version_v0) _)
        (eq_iff request.protocol_version protocol_version_v0))
      (identity_iff request.request_id _)

module _ (x : Externals) (board : BoardPort) (b : CoreBridge) where
  dispatch-IsResponse :
      (request : CoreBridgeRequest) (m : Result Unit CoreFailure)
      → IsResponseTo request.request_id (dispatch x board b request m).0
  unfolding dispatch
  dispatch-IsResponse request (err failure) = error_IsResponse request.request_id failure
  dispatch-IsResponse request (ok u) =
      respond-IsResponse request.request_id (execute x board b request.operation).0

  -- Every request, also a refused one, gets a response in the bridge's protocol with the request's own
  -- identity, and the message of an error has at most 256 characters.
  pub handle-IsResponse :
      (request : CoreBridgeRequest) → IsResponseTo request.request_id (handle x board b request).0
  unfolding handle
  handle-IsResponse request = dispatch-IsResponse request (accept request)

  respond_ok :
      (request_id : Text) (result : Result Value CoreFailure) {version id : Text} {v : Value}
      → respond request_id result ≡ ok_response version id v
      → result ≡ ok v
  unfolding respond error_response
  respond_ok request_id (ok w) h = cc
  respond_ok request_id (err failure) h = absurd (cc)

  dispatch_ok :
      (request : CoreBridgeRequest) (m : Result Unit CoreFailure) {version id : Text} {v : Value}
      → accept request ≡ m
      → (dispatch x board b request m).0 ≡ ok_response version id v
      → (accept request ≡ ok tt) × ((execute x board b request.operation).0 ≡ ok v)
  unfolding dispatch error_response
  dispatch_ok request (err failure) h k = absurd (cc)
  dispatch_ok request (ok u) h k =
      (h, respond_ok request.request_id (execute x board b request.operation).0 k)

  -- A response that reports success answers a request in the bridge's protocol, with an identity of 1
  -- to 128 characters, whose operation was authorized, and carries the result of that operation.
  pub handle-ok_response :
      (request : CoreBridgeRequest) {version id : Text} {v : Value}
      → (handle x board b request).0 ≡ ok_response version id v
      → (request.protocol_version ≡ protocol_version_v0)
        × Between 1 128 request.request_id
        × Authorized x board b request.operation
        × ((execute x board b request.operation).0 ≡ ok v)
  unfolding handle
  handle-ok_response request h =
      let (accepted, done) = dispatch_ok request (accept request) refl h in
      let (version, identity) = (accept_iff request).0 accepted in
      (version, identity, execute-Authorized x board b request.operation done, done)
