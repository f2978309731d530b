-- ===== src/Flow/Erase.antt =====
-- Requests written down in their order, and what it means that a log ends erased: ZEROIZE_SYSTEM
-- was requested after every request of the commands that are watched.
use fpga_mcu_trinity.Base.{ℕ, ◌≡◌, refl, arith, Bool, true, false, List, [], ◌∷◌, if◌then◌else◌}
use fpga_mcu_trinity.Base.Enum.{same}
use fpga_mcu_trinity.Protocol.Constants.Codes.{error_code_enum}
use fpga_mcu_trinity.Protocol.Constants.Commands.{HostCommand, host_command_enum}
use fpga_mcu_trinity.Protocol.Constants.Flags.{ZeroizeScope}
use fpga_mcu_trinity.Protocol.Frame.{HostFrame}
use fpga_mcu_trinity.Protocol.Types.{TransactionResult}
use fpga_mcu_trinity.Protocol.Errors.{Exception}
use fpga_mcu_trinity.Exec.{raise, try_finally, ◌>>=◌}
use fpga_mcu_trinity.Exec.Preserves.{
  Preserves, Preserves-bind, Preserves-if, Preserves-pure, Preserves-try_except, preserves_rules,
}
use fpga_mcu_trinity.Exec.Reaches.{
  Reaches, Reaches-bind, Reaches-next, Reaches-except, Total-ignored,
}
use fpga_mcu_trinity.Client.Operations.{Link, get_transaction_result, retire_transaction_result}
use fpga_mcu_trinity.Client.Guarded.{
  Guards, is_housekeeping, get_transaction_result-Guarded, retire_transaction_result-Guarded,
  get_system_status-Guarded,
}
use fpga_mcu_trinity.Flow.Requests.{
  check_retained, retained_request, retire_active_host_transaction, retire_if_possible,
  is_remote_error, zeroize, emergency_zeroize, generate_keypair, create_session,
}

-- The client with a log of the commands that it requests, the newest first.
abbrev pub logged : {S : Type 0} → Link S → Link (S × List HostCommand)
logged link = record {
  request = λ command payload timeout s.
      let (r, next) = link.request command payload timeout s.0 in (r, (next, command ∷ s.1));
  monotonic = λ s. let (now, next) = link.monotonic s.0 in (now, (next, s.1));
  sleep = λ interval s. let (done, next) = link.sleep interval s.0 in (done, (next, s.1));
}

unfoldable pub is_erased : (HostCommand → Bool) → List HostCommand → Bool
is_erased watched [] = true
is_erased watched (command ∷ log) =
    if same command HostCommand.zeroize_system
    then true
    else if watched command
    then false
    else is_erased watched log

-- The log of a client that may have kept secrets ends erased.
pub record EndsErased {S : Type 0} (watched : HostCommand → Bool) (s : S × List HostCommand)
    : Type 0 where
  pub erased : is_erased watched s.1 ≡ true

-- A condition on the state that every request keeps, but for the commands that are watched, and that holds after a
-- request for ZEROIZE_SYSTEM.
pub record Watches {S : Type 0} (link : Link S) (P : S → Type 0) (watched : HostCommand → Bool)
    : Type 0 where
  pub guards : Guards link P
  pub request :
      (command : HostCommand) (payload : List ℕ) (timeout : ℕ)
      → watched command ≡ false
      → Preserves P (link.request command payload timeout)
  pub zeroize :
      (payload : List ℕ) (timeout : ℕ)
      → Reaches P (link.request HostCommand.zeroize_system payload timeout)

keeps_erased :
    (watched : HostCommand → Bool) (command : HostCommand) (log : List HostCommand)
    → watched command ≡ false
    → is_erased watched log ≡ true
    → is_erased watched (command ∷ log) ≡ true
unfolding is_erased
keeps_erased watched command log h e = ground (arith, h, e)

-- Commands are watched that the client does not send by itself.
pub logged-Watches :
    {S : Type 0} (link : Link S) (watched : HostCommand → Bool)
    → ((command : HostCommand) → is_housekeeping command ≡ true → watched command ≡ false)
    → Watches (logged link) (EndsErased watched) watched
unfolding is_erased
logged-Watches link watched h = record {
  guards = record {
    clock = record { at = λ s k. record { erased = k.erased } };
    sleep = λ interval. record { at = λ s k. record { erased = k.erased } };
    request = λ command payload timeout own. record {
      at = λ s k. record { erased = keeps_erased watched command s.1 (h command own) k.erased };
    };
  };
  request = λ command payload timeout own. record {
    at = λ s k. record { erased = keeps_erased watched command s.1 own k.erased };
  };
  zeroize = λ payload timeout. record { at = λ s. record { erased = refl } };
}

module _ {S : Type 0} (link : Link S) (P : S → Type 0) (watched : HostCommand → Bool)
    (watches : Watches link P watched) where
  retire_active-Guarded : Preserves P (retire_active_host_transaction link)
  unfolding retire_active_host_transaction
  retire_active-Guarded =
      Preserves-bind _ _ (get_system_status-Guarded link P watches.guards) λ status.
        Preserves-if _ _ _ (Preserves-pure 0) (
          Preserves-bind _ _ (retire_transaction_result-Guarded link P watches.guards _)
            λ _. Preserves-pure _)

  pub retire_if_possible-Guarded : Preserves P (retire_if_possible link)
  unfolding retire_if_possible
  retire_if_possible-Guarded = search (preserves_rules, retire_active-Guarded) depth 12

  check_retained-Guarded :
      (command : HostCommand) (response : HostFrame) (retained : TransactionResult)
      → Preserves P (check_retained link command response retained)
  unfolding check_retained
  check_retained-Guarded command response retained = search (preserves_rules) depth 20

  reraise-Guarded :
      {A : Type 0} (e : Exception) → Preserves P (retire_if_possible link >>= λ _. raise {A = A} e)
  reraise-Guarded e = search (preserves_rules, retire_if_possible-Guarded)

  -- The part of a retained request behind the response.
  read_back-Guarded :
      (command : HostCommand) (response : HostFrame)
      → Preserves P (
          get_transaction_result link response.transaction_id >>= λ retained.
          try_finally
            (check_retained link command response retained)
            (retire_transaction_result link response.transaction_id))
  read_back-Guarded command response =
      search
        (
          preserves_rules,
          get_transaction_result-Guarded link P watches.guards,
          check_retained-Guarded,
          retire_transaction_result-Guarded link P watches.guards,
        )
        depth 12

  pub retained_request-Guarded :
      (command : HostCommand) (payload : List ℕ) (timeout : ℕ)
      → watched command ≡ false
      → Preserves P (retained_request link command payload timeout)
  unfolding retained_request
  retained_request-Guarded command payload timeout h =
      Preserves-bind _ _
        (Preserves-try_except _ is_remote_error _ (watches.request command payload timeout h)
          reraise-Guarded)
        λ response. read_back-Guarded command response

  retained_request-Reaches :
      (payload : List ℕ) (timeout : ℕ)
      → Reaches P (retained_request link HostCommand.zeroize_system payload timeout)
  unfolding retained_request
  retained_request-Reaches payload timeout =
      Reaches-bind _ _
        (Reaches-except _ is_remote_error _ (watches.zeroize payload timeout) reraise-Guarded)
        λ response. read_back-Guarded HostCommand.zeroize_system response

  zeroize-Reaches : (scope : ZeroizeScope) (timeout : ℕ) → Reaches P (zeroize link scope timeout)
  unfolding zeroize
  zeroize-Reaches scope timeout =
      Reaches-bind _ _ (retained_request-Reaches _ timeout) λ answer. search (preserves_rules)

  pub emergency_zeroize-Reaches : (timeout : ℕ) → Reaches P (emergency_zeroize link timeout)
  unfolding emergency_zeroize retire_if_possible
  emergency_zeroize-Reaches timeout =
      Reaches-next _ _ (Total-ignored _) λ _. zeroize-Reaches ZeroizeScope.all timeout

  pub generate_keypair-Guarded :
      (deterministic : Bool) (seed : List ℕ) (timeout : ℕ)
      → watched HostCommand.generate_keypair ≡ false
      → Preserves P (generate_keypair link deterministic seed timeout)
  unfolding generate_keypair
  generate_keypair-Guarded deterministic seed timeout h =
      Preserves-bind _ _ (search (preserves_rules) depth 8) λ payload.
        Preserves-bind _ _ (retained_request-Guarded HostCommand.generate_keypair payload timeout h)
          λ answer. search (preserves_rules) depth 8

  pub create_session-Guarded :
      (kat : Bool) (seed : List ℕ) (timeout : ℕ)
      → watched HostCommand.create_session ≡ false
      → Preserves P (create_session link kat seed timeout)
  unfolding create_session
  create_session-Guarded kat seed timeout h =
      Preserves-bind _ _ (search (preserves_rules) depth 8) λ payload.
        Preserves-bind _ _ (retained_request-Guarded HostCommand.create_session payload timeout h)
          λ answer. search (preserves_rules) depth 8
