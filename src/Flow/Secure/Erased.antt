-- ===== src/Flow/Secure/Erased.antt =====
-- run_secure_telemetry_qualification: which requests follow the telemetry that was sent.
use fpga_mcu_trinity.Base.{ℕ, ◌≡◌, refl, Bool, true, false, List, []}
use fpga_mcu_trinity.Protocol.Constants.Commands.{HostCommand, host_command_enum}
use fpga_mcu_trinity.Protocol.Types.{SystemStatus}
use fpga_mcu_trinity.Exec.{pure, try_finally, ◌>>◌}
use fpga_mcu_trinity.Exec.Preserves.{
  Preserves, Preserves-bind, Preserves-raise_if, Preserves-pure, preserves_rules,
}
use fpga_mcu_trinity.Exec.Reaches.{Reaches-bind, Reaches-finally, Preserves-reached}
use fpga_mcu_trinity.Client.Payloads.{SystemInfo}
use fpga_mcu_trinity.Client.Operations.{Link, get_system_status}
use fpga_mcu_trinity.Client.Guarded.{
  is_housekeeping, get_system_status-Guarded, run_sn32_hardware_qualification-Guarded,
}
use fpga_mcu_trinity.Flow.{SessionResult}
use fpga_mcu_trinity.Flow.Requests.{emergency_zeroize}
use fpga_mcu_trinity.Flow.Secure.{
  validate_full_preflight, exchange_telemetry, run_secure_telemetry_qualification,
}
use fpga_mcu_trinity.Flow.Erase.{
  logged, is_erased, EndsErased, Watches, logged-Watches, emergency_zeroize-Reaches,
  generate_keypair-Guarded, create_session-Guarded,
}

abbrev pub is_telemetry : HostCommand → Bool
is_telemetry HostCommand.send_one_telemetry = true
is_telemetry _ = false

pub validate_full_preflight-Guarded :
    {S : Type 0} (P : S → Type 0) (info : SystemInfo) (status : SystemStatus)
    → Preserves P (validate_full_preflight info status)
unfolding validate_full_preflight
validate_full_preflight-Guarded P info status = search (preserves_rules) depth 20

not_housekeeping :
    (command : HostCommand) → is_housekeeping command ≡ true → is_telemetry command ≡ false
not_housekeeping HostCommand.send_one_telemetry h = cc
not_housekeeping _ h = refl

module _ {S : Type 0} (link : Link S) (P : S → Type 0) (watches : Watches link P is_telemetry) where
  status : Preserves P (get_system_status link)
  status = get_system_status-Guarded link P watches.guards

  erased_at_last-Guarded :
      (session : SessionResult) (timeout : ℕ) (plaintexts : List (List ℕ))
      → Preserves P (
          try_finally
            (exchange_telemetry link session timeout plaintexts)
            (emergency_zeroize link timeout >> pure tt))
  erased_at_last-Guarded session timeout plaintexts = Preserves-reached (
      Reaches-finally _ _ (
        Reaches-bind _ _ (emergency_zeroize-Reaches link P is_telemetry watches timeout)
          λ _. Preserves-pure tt))

  run-Guarded :
      (fuel : ℕ) (keypair_seed session_seed : List ℕ) (plaintexts : List (List ℕ))
      (timeout poll_interval : ℕ)
      → Preserves P (
          run_secure_telemetry_qualification link fuel keypair_seed session_seed plaintexts timeout
            poll_interval)
  unfolding run_secure_telemetry_qualification
  run-Guarded fuel keypair_seed session_seed plaintexts timeout poll_interval =
      Preserves-bind _ _ (Preserves-raise_if _ _) λ _.
        Preserves-bind _ _
          (run_sn32_hardware_qualification-Guarded link P watches.guards fuel timeout poll_interval
            2)
          λ control. Preserves-bind _ _ status λ before.
            Preserves-bind _ _ (validate_full_preflight-Guarded P control.dual_spi.info before) λ _.
              Preserves-bind _ _
                (generate_keypair-Guarded link P is_telemetry watches true keypair_seed timeout
                  refl)
                λ keypair. Preserves-bind _ _ status λ after_keypair.
                  Preserves-bind _ _ (Preserves-raise_if _ _) λ _.
                    Preserves-bind _ _
                      (create_session-Guarded link P is_telemetry watches true session_seed timeout
                        refl)
                      λ session. Preserves-bind _ _ status λ active.
                        Preserves-bind _ _ (Preserves-raise_if _ _) λ _.
                          Preserves-bind _ _ (Preserves-raise_if _ _) λ _.
                            Preserves-bind _ _ (Preserves-raise_if _ _) λ _.
                              Preserves-bind _ _ (erased_at_last-Guarded session timeout plaintexts)
                                λ answer. search (preserves_rules, status) depth 12

-- However the qualification ends, by returning or by raising, in the sequence of its requests every
-- SEND_ONE_TELEMETRY has a request for ZEROIZE_SYSTEM after it.
pub run_secure_telemetry_qualification_erases :
    {S : Type 0} (link : Link S) (fuel : ℕ) (keypair_seed session_seed : List ℕ)
    (plaintexts : List (List ℕ)) (timeout poll_interval : ℕ) (s : S)
    → is_erased is_telemetry
        (run_secure_telemetry_qualification
          (logged link)
          fuel
          keypair_seed
          session_seed
          plaintexts
          timeout
          poll_interval
          (s, [])).1.1
      ≡ true
unfolding is_erased
run_secure_telemetry_qualification_erases link fuel keypair_seed session_seed plaintexts timeout
      poll_interval s =
    ((run-Guarded (logged link) (EndsErased is_telemetry)
        (logged-Watches link is_telemetry not_housekeeping) fuel keypair_seed session_seed
        plaintexts timeout poll_interval).at
      (s, []) (record { erased = refl })).erased
