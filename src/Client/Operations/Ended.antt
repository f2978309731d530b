-- ===== src/Client/Operations/Ended.antt =====
-- The loop of wait_for_transaction, which polls until a deadline.
use fpga_mcu_trinity.Base.{
  ℕ, zero, suc, ◌+◌, ◌≤◌, ◌<◌, ◌≡◌, ◌≢◌, refl, ap, subst, sym, arith, Bool, true, false, Option,
  none, some, List, ltb, not, if◌then◌else◌,
}
use fpga_mcu_trinity.Protocol.Constants.Commands.{HostCommand}
use fpga_mcu_trinity.Protocol.Errors.{Result, ok, err, out_of_fuel, struct_error}
use fpga_mcu_trinity.Protocol.Pack.{pack_u16}
use fpga_mcu_trinity.Protocol.Types.{
  TransactionResult, decode_transaction, transaction_state, error_code,
}
use fpga_mcu_trinity.Exec.{
  Exec, lift, act, raise_if, continue, ◌>>=◌, >>=-returns, raise_if-returns,
}
use fpga_mcu_trinity.Client.Operations.{
  Link, is_terminal, get_transaction_result, check_finished, poll_transaction, wait_for_transaction,
}

-- Only finitely many polls fit before a deadline: `polls deadline s` bounds how many are to come, and
-- neither the clock nor sleep gives any back. No request raises the model's own error.
pub record IsPaced {S : Type 0} (link : Link S) (polls : ℕ → S → ℕ) : Type 0 where
  pub clock : (d : ℕ) (s : S) → polls d (link.monotonic s).1 ≤ polls d s
  pub sleep : (d i : ℕ) (s : S) → polls d (link.sleep i s).1 ≤ polls d s
  pub poll :
      (d : ℕ) (payload : List ℕ) (s : S)
      → (link.monotonic s).0 < d
      → polls d (link.request HostCommand.get_txn_result payload 500 (link.monotonic s).1).1
        < polls d s
  pub request_raises :
      (payload : List ℕ) (s : S)
      → (link.request HostCommand.get_txn_result payload 500 s).0 ≢ err out_of_fuel

-- An action that does not run out of rounds from one state.
record Avoids {S A : Type 0} (m : Exec S A) (s : S) : Type 0 where
  pub holds : (m s).0 ≢ err out_of_fuel

continue-Avoids :
    {S A B : Type 0} (r : Result A) (u : S) (f : A → Exec S B)
    → r ≢ err out_of_fuel
    → ((a : A) → r ≡ ok a → Avoids (f a) u)
    → (continue r f u).0 ≢ err out_of_fuel
continue-Avoids (ok a) u f h g = (g a refl).holds
continue-Avoids (err e) u f h g = λ q. h (cc (q))

Avoids-bind :
    {S A B : Type 0} (m : Exec S A) (f : A → Exec S B) (s : S)
    → Avoids m s
    → ((a : A) → (m s).0 ≡ ok a → Avoids (f a) (m s).1)
    → Avoids (m >>= f) s
unfolding ◌>>=◌
Avoids-bind m f s h g = record { holds = continue-Avoids (m s).0 (m s).1 f h.holds g }

Avoids-if :
    {S A : Type 0} (b : Bool) (m n : Exec S A) (s : S)
    → (b ≡ true → Avoids m s)
    → (b ≡ false → Avoids n s)
    → Avoids (if b then m else n) s
Avoids-if true m n s h k = h refl
Avoids-if false m n s h k = k refl

Avoids-lift : {S A : Type 0} (r : Result A) (s : S) → r ≢ err out_of_fuel → Avoids (lift r) s
Avoids-lift r s h = record { holds = h }

Avoids-check : {S : Type 0} (b : Bool) (s : S) → Avoids (raise_if {S = S} b struct_error) s
Avoids-check true s = record { holds = λ e. ground arith }
Avoids-check false s = record { holds = λ e. ground arith }

decode_transaction_returns : (payload : List ℕ) → decode_transaction payload ≢ err out_of_fuel
unfolding decode_transaction transaction_state error_code
decode_transaction_returns payload e = ground arith

check_finished_returns :
    (host_txid expected_command : ℕ) (last : Option TransactionResult)
    → check_finished host_txid expected_command last ≢ err out_of_fuel
unfolding check_finished
check_finished_returns host_txid expected_command none e = ground arith
check_finished_returns host_txid expected_command (some last) e = ground arith

module _ {S : Type 0} (link : Link S) (polls : ℕ → S → ℕ) (paced : IsPaced link polls) where
  get_transaction_result-Avoids :
      (host_txid : ℕ) (s : S) → Avoids (get_transaction_result link host_txid) s
  unfolding get_transaction_result
  get_transaction_result-Avoids host_txid s = Avoids-bind _ _ s (Avoids-check _ s) λ _ passed.
      Avoids-bind (link.request HostCommand.get_txn_result (pack_u16 host_txid) 500) _ _
        (record { holds = paced.request_raises (pack_u16 host_txid) _ })
        λ response read.
          Avoids-lift (decode_transaction response.payload) _
            (decode_transaction_returns response.payload)

  -- A poll that returned has made its request.
  get_transaction_result_polls :
      (host_txid : ℕ) (s t : S) (result : TransactionResult)
      → get_transaction_result link host_txid s ≡ (ok result, t)
      → t ≡ (link.request HostCommand.get_txn_result (pack_u16 host_txid) 500 s).1
  unfolding get_transaction_result
  get_transaction_result_polls host_txid s t result h =
      let (_, h1) = raise_if-returns _ _ _ s t result h in
      let (response, u, requested, h2) =
        >>=-returns (link.request HostCommand.get_txn_result (pack_u16 host_txid) 500) _ s t result
          h1 in
      cc (requested, h2)

  paced_poll :
      (deadline host_txid poll_interval fuel : ℕ) (s : S) (result : TransactionResult)
      → polls deadline s < suc fuel
      → (link.monotonic s).0 < deadline
      → (get_transaction_result link host_txid (link.monotonic s).1).0 ≡ ok result
      → polls deadline
          (link.sleep poll_interval
            (get_transaction_result link host_txid (link.monotonic s).1).1).1
        < fuel
  paced_poll deadline host_txid poll_interval fuel s result h early read =
      let u = (get_transaction_result link host_txid (link.monotonic s).1).1 in
      let moved =
        get_transaction_result_polls host_txid (link.monotonic s).1 u result
          (ap (λ (r : Result TransactionResult). (r, u)) read) in
      let fewer =
        subst (λ (v : S). polls deadline v < polls deadline s) (sym moved)
          (paced.poll deadline (pack_u16 host_txid) s early) in
      omega (arith, h, fewer, paced.sleep deadline poll_interval u)

  poll_transaction-Avoids :
      (fuel deadline host_txid poll_interval : ℕ) (last : Option TransactionResult) (s : S)
      → polls deadline s < fuel
      → Avoids (poll_transaction link fuel deadline host_txid poll_interval last) s
  unfolding poll_transaction
  poll_transaction-Avoids zero deadline host_txid poll_interval last s h = absurd (omega (arith, h))
  poll_transaction-Avoids (suc fuel) deadline host_txid poll_interval last s h =
      Avoids-bind (act link.monotonic) _ s (record { holds = λ e. ground arith })
        λ now ticked.
          Avoids-if (not (ltb now deadline)) _ _ _ (λ late. record { holds = λ e. ground arith })
            λ early.
              Avoids-bind (get_transaction_result link host_txid) _ _
                (get_transaction_result-Avoids host_txid (link.monotonic s).1)
                λ result read.
                  Avoids-if (is_terminal result.state) _ _ _
                    (λ t. record { holds = λ e. ground arith })
                    λ t.
                      Avoids-bind (act (link.sleep poll_interval)) _ _
                        (record { holds = λ e. ground arith })
                        λ slept _.
                          poll_transaction-Avoids fuel deadline host_txid poll_interval
                            (some result) _
                            (paced_poll deadline host_txid poll_interval fuel s result h
                              (ground (arith, ticked, early)) read)

  -- Over a link whose requests take time, and with more fuel than the polls that fit before the
  -- deadline, wait_for_transaction does not run out of fuel: it returns a result or raises one of the
  -- source's own exceptions.
  pub wait_for_transaction_ends :
      (fuel host_txid expected_command timeout poll_interval : ℕ) (s : S)
      → polls ((link.monotonic s).0 + timeout) s < fuel
      → (wait_for_transaction link fuel host_txid expected_command timeout poll_interval s).0
        ≢ err out_of_fuel
  unfolding wait_for_transaction
  wait_for_transaction_ends fuel host_txid expected_command timeout poll_interval s h =
      (Avoids-bind (act link.monotonic) _ s (record { holds = λ e. ground arith })
        λ now ticked.
          Avoids-bind (poll_transaction link fuel (now + timeout) host_txid poll_interval none) _ _
            (poll_transaction-Avoids fuel (now + timeout) host_txid poll_interval none _ (
              subst (λ (n : ℕ). polls (n + timeout) (link.monotonic s).1 < fuel)
                {x = (link.monotonic s).0} {y = now} (ground (arith, ticked))
                (omega (arith, h, paced.clock ((link.monotonic s).0 + timeout) s))))
            λ last _.
              Avoids-lift (check_finished host_txid expected_command last) _
                (check_finished_returns host_txid expected_command last)).holds
