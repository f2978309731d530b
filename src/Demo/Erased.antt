-- ===== src/Demo/Erased.antt =====
-- run_core_demo: which requests follow the session that was asked for.
use fpga_mcu_trinity.Base.{
  ℕ, min, ◌≡◌, refl, Bool, true, false, String, Option, none, some, List, [],
}
use fpga_mcu_trinity.Protocol.Constants.Commands.{HostCommand, host_command_enum}
use fpga_mcu_trinity.Protocol.Errors.{Exception, ok}
use fpga_mcu_trinity.Exec.Preserves.{
  Preserves, Preserves-bind, Preserves-raise_if, Preserves-pure, Preserves-raise,
}
use fpga_mcu_trinity.Exec.Reaches.{
  Reaches, Reaches-bind, Reaches-next, Reaches-except, Reaches-handled, Leaves, Leaves-next,
  Leaves-bind, Total, Total-ignored, Preserves-reached,
}
use fpga_mcu_trinity.Client.Operations.{Link, get_system_status}
use fpga_mcu_trinity.Client.Guarded.{
  is_housekeeping, get_system_status-Guarded, ping-Guarded, run_sn32_hardware_qualification-Guarded,
}
use fpga_mcu_trinity.Flow.Requests.{emergency_zeroize}
use fpga_mcu_trinity.Flow.Secure.Erased.{validate_full_preflight-Guarded}
use fpga_mcu_trinity.Flow.Erase.{
  logged, is_erased, EndsErased, Watches, logged-Watches, emergency_zeroize-Reaches,
  generate_keypair-Guarded,
}
use fpga_mcu_trinity.Demo.{ProgressCallback, emit, run_session, clean_up, run_core_demo}

-- The commands behind which a system may keep a session.
abbrev pub is_secret : HostCommand → Bool
is_secret HostCommand.create_session = true
is_secret HostCommand.send_one_telemetry = true
is_secret _ = false

not_housekeeping :
    (command : HostCommand) → is_housekeeping command ≡ true → is_secret command ≡ false
not_housekeeping HostCommand.create_session h = cc
not_housekeeping HostCommand.send_one_telemetry h = cc
not_housekeeping _ h = refl

-- A callback that returns, and that does not use the client.
abbrev pub showing :
    {S : Type 0} → Option (String → Option ℕ → S → S) → ProgressCallback (S × List HostCommand)
showing none = none
showing (some show) = some λ message percent s. (ok tt, (show message percent s.0, s.1))

module _ {S : Type 0} (link : Link S) (on_progress : ProgressCallback S) (P : S → Type 0)
    (watches : Watches link P is_secret)
    (shows : (message : String) (percent : Option ℕ)
      → Preserves P (emit on_progress message percent))
    (returns : (message : String) (percent : Option ℕ)
      → Total (emit on_progress message percent)) where
  zeroized : (timeout : ℕ) → Reaches P (emergency_zeroize link timeout)
  zeroized = emergency_zeroize-Reaches link P is_secret watches

  status : Preserves P (get_system_status link)
  status = get_system_status-Guarded link P watches.guards

  -- The last step is the zeroize.
  run_session-Leaves :
      (plaintext session_seed : List ℕ) (timeout : ℕ)
      → Leaves P (run_session link on_progress plaintext session_seed timeout)
  unfolding run_session
  run_session-Leaves plaintext session_seed timeout = Leaves-next _ _ λ after_keypair.
      Leaves-next _ _ λ _. Leaves-next _ _ λ _. Leaves-next _ _ λ session. Leaves-next _ _ λ active.
        Leaves-next _ _ λ _. Leaves-next _ _ λ _. Leaves-next _ _ λ telemetry. Leaves-next _ _ λ _.
          Leaves-next _ _ λ _. Leaves-next _ _ λ _. Leaves-next _ _ λ last_result.
            Leaves-next _ _ λ _.
              Leaves-next _ _
                λ _. Leaves-bind _ _ (zeroized (min timeout 30000)) λ _. Preserves-pure _

  clean_up-Reaches : (timeout : ℕ) (e : Exception) → Reaches P (clean_up link on_progress timeout e)
  unfolding clean_up
  clean_up-Reaches timeout e = Reaches-next _ _ (Total-ignored _) λ _.
      Reaches-next _ _ (returns _ _) λ _.
        Reaches-bind _ _
          (Reaches-except _ _ _
            (Reaches-bind _ _ (zeroized (min timeout 30000)) λ _. Preserves-pure tt)
            λ _. Preserves-pure tt)
          λ _. Preserves-raise _

  run_core_demo-Guarded :
      (fuel : ℕ) (plaintext keypair_seed session_seed : List ℕ) (timeout : ℕ)
      → Preserves P
          (run_core_demo link on_progress fuel plaintext keypair_seed session_seed timeout)
  unfolding run_core_demo
  run_core_demo-Guarded fuel plaintext keypair_seed session_seed timeout =
      Preserves-bind _ _ (Preserves-raise_if _ _) λ _. Preserves-bind _ _ (shows _ _) λ _.
        Preserves-bind _ _
          (run_sn32_hardware_qualification-Guarded link P watches.guards fuel _ 50 2)
          λ control. Preserves-bind _ _ status λ before.
            Preserves-bind _ _ (validate_full_preflight-Guarded P control.dual_spi.info before) λ _.
              Preserves-bind _ _ (shows _ _) λ _.
                Preserves-bind _ _
                  (generate_keypair-Guarded link P is_secret watches true keypair_seed timeout refl)
                  λ keypair.
                    Preserves-bind _ _
                      (Preserves-reached (
                        Reaches-handled _ _ (run_session-Leaves plaintext session_seed timeout)
                          (clean_up-Reaches timeout)))
                      λ done. Preserves-bind _ _ status λ final.
                        Preserves-bind _ _ (Preserves-raise_if _ _) λ _.
                          Preserves-bind _ _ (Preserves-raise_if _ _) λ _.
                            Preserves-bind _ _ (ping-Guarded link P watches.guards)
                              λ uptime. Preserves-bind _ _ (shows _ _) λ _. Preserves-pure _

module _ {S : Type 0} (message : String) (percent : Option ℕ) where
  showing-Preserves :
      (show : Option (String → Option ℕ → S → S))
      → Preserves (EndsErased {S = S} is_secret) (emit (showing show) message percent)
  unfolding emit
  showing-Preserves none = Preserves-pure tt
  showing-Preserves (some show) = record { at = λ s h. record { erased = h.erased } }

  showing-Total :
      (show : Option (String → Option ℕ → S → S)) → Total (emit (showing show) message percent)
  unfolding emit
  showing-Total none = record { value = λ s. tt; returns = λ s. refl }
  showing-Total (some show) = record { value = λ s. tt; returns = λ s. refl }

-- With a progress callback that returns, however the demonstration ends, by returning or by raising,
-- in the sequence of its requests every CREATE_SESSION and every SEND_ONE_TELEMETRY has a request for
-- ZEROIZE_SYSTEM after it.
pub run_core_demo_erases :
    {S : Type 0} (link : Link S) (show : Option (String → Option ℕ → S → S)) (fuel : ℕ)
    (plaintext keypair_seed session_seed : List ℕ) (timeout : ℕ) (s : S)
    → is_erased is_secret
        (run_core_demo
          (logged link)
          (showing show)
          fuel
          plaintext
          keypair_seed
          session_seed
          timeout
          (s, [])).1.1
      ≡ true
unfolding is_erased
run_core_demo_erases link show fuel plaintext keypair_seed session_seed timeout s =
    ((run_core_demo-Guarded (logged link) (showing show) (EndsErased is_secret)
        (logged-Watches link is_secret not_housekeeping)
        (λ message percent. showing-Preserves message percent show)
        (λ message percent. showing-Total message percent show) fuel plaintext keypair_seed
        session_seed timeout).at
      (s, []) (record { erased = refl })).erased
