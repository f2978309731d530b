-- ===== src/Flow/Requests/Returned.antt =====
-- What the retained commands return.
use fpga_mcu_trinity.Base.{ℕ, ◌≡◌, ◌≢◌, arith, Bool, List, length, bytes_eq→eq}
use fpga_mcu_trinity.Base.Enum.{int, same→eq}
use fpga_mcu_trinity.Protocol.Constants.Codes.{ErrorCode, error_code_enum}
use fpga_mcu_trinity.Protocol.Constants.Commands.{HostCommand, host_command_enum}
use fpga_mcu_trinity.Protocol.Constants.States.{TransactionState, transaction_state_enum}
use fpga_mcu_trinity.Protocol.Errors.{Exception, ok}
use fpga_mcu_trinity.Protocol.Frame.{HostFrame}
use fpga_mcu_trinity.Protocol.Types.{TransactionResult}
use fpga_mcu_trinity.Exec.{
  Exec, raise, ◌>>◌, >>=-returns, raise_if-returns, try_except-returns, try_finally-returns,
}
use fpga_mcu_trinity.Exec.Yields.{Yields, Yields-next, Yields-check, Yields-pure}
use fpga_mcu_trinity.Client.Operations.{Link, get_transaction_result, retire_transaction_result}
use fpga_mcu_trinity.Flow.Requests.{
  is_remote_error, retire_if_possible, check_retained, retained_request, generate_keypair,
  create_session, send_telemetry,
}

-- A retained result that stands for the response to a command.
pub record Confirms (command : HostCommand) (response : HostFrame) (retained : TransactionResult)
    : Type 0 where
  pub queried_txid : retained.queried_txid ≡ response.transaction_id
  pub state : retained.state ≡ TransactionState.succeeded
  pub original_command : retained.original_command ≡ int command
  pub result_code : retained.result_code ≡ ErrorCode.ok
  pub payload : retained.payload ≡ response.payload

-- The steps of a retained request that returned, from `s` to `t`.
pub record Retained {S : Type 0} (link : Link S) (command : HostCommand) (sent : List ℕ)
    (timeout : ℕ) (s t : S) (txid : ℕ) (result : List ℕ) : Type 0 where
  pub response : HostFrame
  pub retained : TransactionResult
  pub answered : S
  pub read : S
  pub request : link.request command sent timeout s ≡ (ok response, answered)
  pub read_back : get_transaction_result link txid answered ≡ (ok retained, read)
  pub confirms : Confirms command response retained
  pub same_txid : txid ≡ response.transaction_id
  pub same_result : result ≡ response.payload
  pub retire : retire_transaction_result link txid read ≡ (ok tt, t)

module _ {S : Type 0} (link : Link S) where
  check_retained_returns :
      (command : HostCommand) (response : HostFrame) (retained : TransactionResult) (s u : S)
      (answer : ℕ × List ℕ)
      → check_retained link command response retained s ≡ (ok answer, u)
      → Confirms command response retained
        × (s ≡ u)
        × (answer.0 ≡ response.transaction_id)
        × (answer.1 ≡ response.payload)
  unfolding check_retained
  check_retained_returns command response retained s u answer h =
      let (txid, h1) = raise_if-returns _ _ _ s u answer h in
      let (state, h2) = raise_if-returns _ _ _ s u answer h1 in
      let (original, h3) = raise_if-returns _ _ _ s u answer h2 in
      let (code, h4) = raise_if-returns _ _ _ s u answer h3 in
      let (payload, h5) = raise_if-returns _ _ _ s u answer h4 in
      (
        record {
          queried_txid = ground (arith, txid);
          state = same→eq _ _ (ground (arith, state));
          original_command = ground (arith, original);
          result_code = same→eq _ _ (ground (arith, code));
          payload = bytes_eq→eq _ _ (ground (arith, payload));
        },
        cc (h5),
        ground (arith, h5),
        ground (arith, h5),
      )

  never_returns :
      {A : Type 0} (m : Exec S (Unit {0})) (e : Exception) (u t : S) (a : A)
      → (m >> raise e) u ≢ (ok a, t)
  never_returns m e u t a h = let (_, v, _, raised) = >>=-returns m _ u t a h in cc

  -- If a retained request returns, then the command was answered, the SN32 held a result under the
  -- transaction ID of the answer, which is the one that is returned, and that result is of the same
  -- command, succeeded with code OK and carries the very bytes of the answer, which are the ones
  -- that are returned; and the result was retired.
  pub retained_request_returns :
      (command : HostCommand) (payload : List ℕ) (timeout : ℕ) (s t : S) (answer : ℕ × List ℕ)
      → retained_request link command payload timeout s ≡ (ok answer, t)
      → Retained link command payload timeout s t answer.0 answer.1
  unfolding retained_request
  retained_request_returns command payload timeout s t answer h =
      let (response, s1, sent, h1) = >>=-returns _ _ s t answer h in
      let (retained, s2, read, h2) = >>=-returns _ _ s1 t answer h1 in
      let (s3, checked, retire) = try_finally-returns _ _ s2 t answer h2 in
      let (confirms, same_state, txid, result) =
        check_retained_returns command response retained s2 s3 answer checked in
      record {
        response = response;
        retained = retained;
        answered = s1;
        read = s2;
        request =
            try_except-returns _ is_remote_error _ s s1 response
              (λ e u. never_returns (retire_if_possible link) e u s1 response) sent;
        read_back = cc;
        confirms = confirms;
        same_txid = txid;
        same_result = result;
        retire = cc;
      }

  pub generate_keypair-Yields :
      (deterministic : Bool) (seed : List ℕ) (timeout : ℕ)
      → Yields
          (λ keypair. length keypair.public_key_hash ≡ 32)
          (generate_keypair link deterministic seed timeout)
  unfolding generate_keypair
  generate_keypair-Yields deterministic seed timeout = Yields-next _ _ λ payload.
      Yields-next _ _ λ answer. Yields-check _ _ _ λ size. Yields-pure _ (ground (arith, size))

  pub create_session-Yields :
      (kat : Bool) (seed : List ℕ) (timeout : ℕ)
      → Yields (λ session. session.session_id ≢ 0) (create_session link kat seed timeout)
  unfolding create_session
  create_session-Yields kat seed timeout = Yields-next _ _ λ payload. Yields-next _ _ λ answer.
      Yields-check _ _ _
        λ size. Yields-check _ _ _ λ named. Yields-pure _ λ e. ground (arith, named, e)

  pub send_telemetry-Yields :
      (plaintext header : List ℕ) (timeout : ℕ)
      → Yields
          (λ result. (result.plaintext ≡ plaintext) × (result.status ≡ ErrorCode.ok))
          (send_telemetry link plaintext header timeout)
  unfolding send_telemetry
  send_telemetry-Yields plaintext header timeout = Yields-check _ _ _ λ _. Yields-check _ _ _ λ _.
      Yields-check _ _ _ λ _. Yields-next _ _ λ answer. Yields-next _ _ λ result.
        Yields-check _ _ _ λ status. Yields-check _ _ _ λ equal.
          Yields-pure result
            (bytes_eq→eq _ _ (ground (arith, equal)), same→eq _ _ (ground (arith, status)))
