-- ===== src/Host/Runs/Answers.antt =====
-- The response of the plugin whose payload a run keeps (crates/agentmesh-host/src/run.rs).
use mathlib.Core.Path.{subst}
use gareji_core.RunContract.{Value}
use gareji_core.Base.{
  ℕ, ◌≡◌, refl, sym, ap, ◌∙◌, Bool, true, false, Option, none, some, List, ◌++◌, Text, codes,
  Result, ok, err, if◌then◌else◌, ltb, length, bytes, all, not, is_empty, fail_if, >>=-eq-ok, ◌==◌,
  text_ord,
}
use gareji_core.Protocol.{
  FailureCode, FailureRecord, JsonRpcError, JsonRpcResponse, RunResult, ProtoError, rpc_id,
  visible_byte,
}
use gareji_core.Protocol.Strict.{from_slice_strict, Stop, refused}
use gareji_core.Host.{Libraries, Os, Pipes, RunConfig}
use gareji_core.Host.Failures.{record_failure}
use gareji_core.Host.Redaction.{RedactionPolicy}
use gareji_core.Host.Runs.Steps.{RunState, next, fail, fail_with, set_payload, abort}
use gareji_core.Host.Runs.Exchange.{
  ran, run_plugin, exchange, expect_id, response, refuse_started, run_method,
}
use gareji_core.Host.Runs.Closing.{bind-next, record_failure-ne_none}

rpc_id-value : (t : Text) {id : Text} → rpc_id t ≡ ok id → id ≡ t
unfolding rpc_id
rpc_id-value t h =
    let (u, _, r0) = >>=-eq-ok (fail_if (is_empty t) ProtoError.invalid_id) _ h in
    let (u1, _, r1) = >>=-eq-ok (fail_if (ltb 128 (length (bytes t))) ProtoError.invalid_id) _ r0 in
    let (u2, _, r2) =
      >>=-eq-ok (fail_if (not (all visible_byte (bytes t))) ProtoError.invalid_id) _ r1 in
    sym (same r2)
  where
    same : {a b : Text} → ◌≡◌ {A = Result Text ProtoError} (ok a) (ok b) → a ≡ b
    same e = cc

module _ {W : Type 0} (lib : Libraries) (os : Os W) (config : RunConfig) where
  -- A response with the payload: the identity fits, there is no error, and there is a result.
  pub record Answered (run_id : Text) (payload : Value) : Type 0 where
    pub body : List ℕ
    pub reply : JsonRpcResponse RunResult
    pub result : RunResult
    pub decoded : from_slice_strict lib.scalars lib.run_response config.limits body ≡ ok reply
    pub identified : (reply.id == codes "run-" ++ run_id) ≡ true
    pub no_error : reply.error ≡ none
    pub has_result : reply.result ≡ some result
    pub is_payload : payload ≡ result.payload

  ran-Answered :
      (r : JsonRpcResponse RunResult) (s s' : RunState W)
      → ran lib os config r s ≡ (next tt, s')
      → s'.failures.primary ≡ none
      → (r.error ≡ none)
        × (result : RunResult) × (r.result ≡ some result)
        × (s'.payload ≡ result.payload)
  unfolding ran set_payload fail fail_with
  ran-Answered r s s' h k = go r.error refl
    where
      failing : (f : FailureRecord) → (record_failure f s.failures) ≡ s'.failures → ⊥
      failing f e = record_failure-ne_none f s.failures (ap (λ g. g.primary) e ∙ k)

      by_result :
          r.error ≡ none
          → (o : Option RunResult) → r.result ≡ o
          → (r.error ≡ none)
            × (result : RunResult) × (r.result ≡ some result)
            × (s'.payload ≡ result.payload)
      by_result e none q = absurd (failing _ (ap (λ p. p.1.failures) (rw (ran, e, q) at h)))
      by_result e (some result) q =
          (e, result, q, sym (ap (λ p. p.1.payload) (rw (ran, e, q) at h)))

      go :
          (o : Option JsonRpcError)
          → r.error ≡ o
          → (r.error ≡ none)
            × (result : RunResult) × (r.result ≡ some result)
            × (s'.payload ≡ result.payload)
      go none e = by_result e r.result refl
      go (some x) e = absurd (failing _ (ap (λ p. p.1.failures) (rw (ran, e) at h)))

  expect_id-next :
      (r : Result Text ProtoError) (s s' : RunState W) {id : Text}
      → expect_id lib os config r s ≡ (next id, s')
      → r ≡ ok id
  unfolding expect_id
  expect_id-next (ok x) s s' h = cc (ap (λ p. p.0) h)
  expect_id-next (err e) s s' h = absurd (cc (ap (λ p. p.0) h))

  response-next :
      {R : Type 0} (r : Result (JsonRpcResponse R) Stop) (s s' : RunState W)
      {reply : JsonRpcResponse R}
      → response lib os config r s ≡ (next reply, s')
      → r ≡ ok reply
  unfolding response refuse_started abort fail fail_with
  response-next (ok x) s s' h = cc (ap (λ p. p.0) h)
  response-next (err (refused e)) s s' h = absurd (cc (ap (λ p. p.0) h))
  response-next (err Stop.exhausted) s s' h = absurd (cc (ap (λ p. p.0) h))

  refuse_started-not_next :
      {A : Type 0} (code : FailureCode) (message : Text) (s s' : RunState W) {a : A}
      → ¬ (refuse_started lib os config code message s ≡ (next a, s'))
  unfolding refuse_started abort fail fail_with
  refuse_started-not_next code message s s' h = cc (ap (λ p. p.0) h)

  pub run_plugin-Answered :
      (pipes : Pipes) (redaction : RedactionPolicy) (run_id : Text) (input : Value)
      (s s' : RunState W)
      → run_plugin lib os config pipes redaction run_id input s ≡ (next tt, s')
      → s'.failures.primary ≡ none
      → Answered run_id s'.payload
  unfolding run_plugin
  run_plugin-Answered pipes redaction run_id input s s' h k =
      let (id, s1, named, r1) =
        bind-next (expect_id lib os config (rpc_id (codes "run-" ++ run_id))) s h in
      let (body, s2, exchanged, r2) =
        bind-next
          (exchange lib os config pipes redaction false run_method (codes "run_ms")
            (codes "run_response") config.limits.run_timeout_ms
            (lib.run_request (record {
              method = run_method;
              params = record { run_id = run_id; input = input };
              id = id;
            })))
          s1 r1 in
      let (reply, s3, answered, r3) =
        bind-next
          (response lib os config
            (from_slice_strict lib.scalars lib.run_response config.limits body))
          s2 r2 in
      by_id id s3 body reply
        (rpc_id-value (codes "run-" ++ run_id)
          (expect_id-next (rpc_id (codes "run-" ++ run_id)) s s1 named))
        (response-next (from_slice_strict lib.scalars lib.run_response config.limits body) s2 s3
          answered)
        (reply.id == id) refl r3
    where
      by_id :
          (id : Text) (s3 : RunState W) (body : List ℕ) (reply : JsonRpcResponse RunResult)
          → id ≡ codes "run-" ++ run_id
          → from_slice_strict lib.scalars lib.run_response config.limits body ≡ ok reply
          → (b : Bool) → (reply.id == id) ≡ b
          → (if b
                then ran lib os config reply
                else refuse_started lib os config FailureCode.rpc_id_mismatch
                    (codes "run response id mismatch"))
              s3
            ≡ (next tt, s')
          → Answered run_id s'.payload
      by_id id s3 body reply e decoded true same q =
          let (no_error, result, has_result, p) = ran-Answered reply s3 s' q k in
          record {
            body = body;
            reply = reply;
            result = result;
            decoded = decoded;
            identified = subst (λ t. (reply.id == t) ≡ true) e same;
            no_error = no_error;
            has_result = has_result;
            is_payload = p;
          }
      by_id id s3 body reply e decoded false other q = absurd (
          refuse_started-not_next FailureCode.rpc_id_mismatch (codes "run response id mismatch") s3
            s' q)
