-- ===== src/Client/Bringup/Tested.antt =====
-- run_dual_spi_bringup step by step: which endpoint is asked for which tests, and from which state.
use fpga_mcu_trinity.Base.{ℕ, ◌≡◌, arith, ◌∷◌, bit_and, bytes_eq→eq}
use fpga_mcu_trinity.Base.Enum.{int}
use fpga_mcu_trinity.Protocol.Constants.Commands.{HostCommand, host_command_enum}
use fpga_mcu_trinity.Protocol.Constants.Kinds.{TestProfile, test_profile_enum}
use fpga_mcu_trinity.Protocol.Constants.Flags.{TargetReadyMask, target_ready_mask_enum}
use fpga_mcu_trinity.Protocol.Errors.{ok}
use fpga_mcu_trinity.Protocol.Pack.{pack_u16}
use fpga_mcu_trinity.Protocol.Frame.{HostFrame}
use fpga_mcu_trinity.Protocol.Types.{TransactionResult}
use fpga_mcu_trinity.Exec.{Exec, ◌>>=◌, ◌>>◌, >>=-returns, raise_if-returns}
use fpga_mcu_trinity.Exec.Yields.{yielded}
use fpga_mcu_trinity.Exec.Ends.{Ends, Ends-bind, Ends-check, Ends-pure}
use fpga_mcu_trinity.Client.Operations.{
  Link, ping, get_system_info, get_system_status, start_self_test, wait_for_transaction,
  retire_transaction_result,
}
use fpga_mcu_trinity.Client.Bringup.{
  DualSpiBringupResult, run_dual_spi_bringup, p1_kat_test_mask, p2_kat_test_mask,
}
use fpga_mcu_trinity.Client.Bringup.Verified.{IsDualBringup, run_dual_spi_bringup-Yields}

-- A self-test that ran from `s` to `t`: RUN_SELF_TEST names the endpoint, the KAT profile and the
-- tests, the answer echoes the tests, the result of the answer's transaction is waited for, and it is
-- retired.
pub record SelfTest {S : Type 0} (link : Link S)
    (fuel timeout poll_interval target_mask test_mask : ℕ) (s t : S) (result : TransactionResult)
    : Type 0 where
  pub response : HostFrame
  pub started : S
  pub finished : S
  pub request :
      link.request HostCommand.run_self_test
        (target_mask ∷ int TestProfile.kat ∷ pack_u16 (bit_and test_mask 0xFFFF))
        10000
        s
      ≡ (ok response, started)
  pub echo : response.payload ≡ pack_u16 (bit_and test_mask 0xFFFF)
  pub waited :
      wait_for_transaction link fuel response.transaction_id
        (int HostCommand.run_self_test)
        timeout
        poll_interval
        started
      ≡ (ok result, finished)
  pub retired : retire_transaction_result link response.transaction_id finished ≡ (ok tt, t)

-- A run from `s` to `t`, step by step, up to the tests of the last status.
pub record DualTested {S : Type 0} (link : Link S) (fuel timeout poll_interval : ℕ) (s t : S)
    (run : DualSpiBringupResult) : Type 0 where
  pub greeted : S
  pub identified : S
  pub begun : S
  pub halfway : S
  pub tested : S
  pub uptime : ping link s ≡ (ok run.uptime_ms, greeted)
  pub info : get_system_info link greeted ≡ (ok run.info, identified)
  pub before : get_system_status link identified ≡ (ok run.status_before, begun)
  pub primer1 :
      SelfTest link fuel timeout poll_interval
        (int TargetReadyMask.primer1)
        p1_kat_test_mask
        begun
        halfway
        run.primer1_transaction
  pub primer2 :
      SelfTest link fuel timeout poll_interval
        (int TargetReadyMask.primer2)
        p2_kat_test_mask
        halfway
        tested
        run.primer2_transaction
  pub after : get_system_status link tested ≡ (ok run.status_after, t)

module _ {S : Type 0} (link : Link S) where
  start_self_test_returns :
      (target_mask test_mask : ℕ) (s t : S) (txid : ℕ)
      → start_self_test link target_mask TestProfile.kat test_mask s ≡ (ok txid, t)
      → (response : HostFrame) × (link.request HostCommand.run_self_test
            (target_mask ∷ int TestProfile.kat ∷ pack_u16 (bit_and test_mask 0xFFFF))
            10000
            s
          ≡ (ok response, t))
        × (response.payload ≡ pack_u16 (bit_and test_mask 0xFFFF))
        × (response.transaction_id ≡ txid)
  unfolding start_self_test
  start_self_test_returns target_mask test_mask s t txid h =
      let (_, h1) = raise_if-returns _ _ _ s t txid h in
      let (response, u, requested, h2) = >>=-returns _ _ s t txid h1 in
      let (echo, h3) = raise_if-returns _ _ _ u t txid h2 in
      (response, cc (requested, h3), bytes_eq→eq _ _ (ground (arith, echo)), ground (arith, h3))

  start_self_test-SelfTest :
      (fuel timeout poll_interval target_mask test_mask : ℕ) (s s1 s2 s3 : S) (txid : ℕ)
      (result : TransactionResult)
      → start_self_test link target_mask TestProfile.kat test_mask s ≡ (ok txid, s1)
      → wait_for_transaction link fuel txid (int HostCommand.run_self_test) timeout poll_interval s1
        ≡ (ok result, s2)
      → retire_transaction_result link txid s2 ≡ (ok tt, s3)
      → SelfTest link fuel timeout poll_interval target_mask test_mask s s3 result
  start_self_test-SelfTest fuel timeout poll_interval target_mask test_mask s s1 s2 s3 txid result
        start wait retire =
      let (response, requested, echo, same_txid) =
        start_self_test_returns target_mask test_mask s s1 txid start in
      record {
        response = response;
        started = s1;
        finished = s2;
        request = requested;
        echo = echo;
        waited = cc (wait, same_txid);
        retired = cc (retire, same_txid);
      }

  -- The three statements of a self-test and what follows them.
  SelfTest-Ends :
      {B : Type 0} {Q : S → B → Type 0} (fuel timeout poll_interval target_mask test_mask : ℕ)
      (next : TransactionResult → Exec S B) (s : S)
      → ((result : TransactionResult) (u : S)
          → SelfTest link fuel timeout poll_interval target_mask test_mask s u result
          → Ends Q (next result) u)
      → Ends Q
          (do
            txid ← start_self_test link target_mask TestProfile.kat test_mask
            result ←
                wait_for_transaction link fuel txid
                  (int HostCommand.run_self_test)
                  timeout
                  poll_interval
            retire_transaction_result link txid
            next result)
          s
  SelfTest-Ends fuel timeout poll_interval target_mask test_mask next s h =
      Ends-bind (start_self_test link target_mask TestProfile.kat test_mask) _ s λ txid s1 start.
        Ends-bind
          (wait_for_transaction link fuel txid (int HostCommand.run_self_test) timeout
            poll_interval)
          _ s1
          λ result s2 wait. Ends-bind (retire_transaction_result link txid) _ s2 λ _ s3 retire.
            h result s3 (
              start_self_test-SelfTest fuel timeout poll_interval target_mask test_mask s s1 s2 s3
                txid result start wait retire)

  run_dual_spi_bringup-Ends :
      (fuel timeout poll_interval : ℕ) (s : S)
      → Ends
          (λ t run. DualTested link fuel timeout poll_interval s t run)
          (run_dual_spi_bringup link fuel timeout poll_interval)
          s
  unfolding run_dual_spi_bringup
  run_dual_spi_bringup-Ends fuel timeout poll_interval s =
      Ends-bind (ping link) _ s λ uptime s1 pinged.
        Ends-bind (get_system_info link) _ s1 λ info s2 named. Ends-check _ _ _ s2 λ _.
          Ends-check _ _ _ s2 λ _. Ends-bind (get_system_status link) _ s2 λ before s3 looked.
            Ends-check _ _ _ s3 λ _. Ends-check _ _ _ s3 λ _.
              SelfTest-Ends fuel timeout poll_interval (int TargetReadyMask.primer1)
                p1_kat_test_mask _ s3
                λ first s4 test1.
                  SelfTest-Ends fuel timeout poll_interval (int TargetReadyMask.primer2)
                    p2_kat_test_mask _ s4
                    λ second s5 test2. Ends-bind (get_system_status link) _ s5 λ after s6 seen.
                      Ends-check _ _ _ s6 λ _. Ends-check _ _ _ s6 λ _. Ends-check _ _ _ s6 λ _.
                        Ends-pure _ s6 (record {
                          greeted = s1;
                          identified = s2;
                          begun = s3;
                          halfway = s4;
                          tested = s5;
                          uptime = pinged;
                          info = named;
                          before = looked;
                          primer1 = test1;
                          primer2 = test2;
                          after = seen;
                        })

  -- A run of run_dual_spi_bringup that returns has seen the expected builds of P1 and P2, both
  -- endpoints ready before and after, no fault flag before, and at the end a ready state without
  -- fault flags. Between the two reads of the status it has run two self-tests with the KAT profile,
  -- of PRIMER1 with the tests 0x013E and then of PRIMER2 with the tests 0x03E3: each was asked for
  -- in one RUN_SELF_TEST with that target and those tests, whose answer echoed the tests; the result
  -- of that answer's transaction was waited for, is of RUN_SELF_TEST and succeeded with code OK, and
  -- was retired.
  pub run_dual_spi_bringup_returns :
      (fuel timeout poll_interval : ℕ) (s t : S) (run : DualSpiBringupResult)
      → run_dual_spi_bringup link fuel timeout poll_interval s ≡ (ok run, t)
      → IsDualBringup run × DualTested link fuel timeout poll_interval s t run
  run_dual_spi_bringup_returns fuel timeout poll_interval s t run h = (
    yielded (run_dual_spi_bringup-Yields link fuel timeout poll_interval) s t run h,
    (run_dual_spi_bringup-Ends fuel timeout poll_interval s).holds t run h,
  )
