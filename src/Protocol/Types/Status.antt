-- ===== src/Protocol/Types/Status.antt =====
-- SystemStatus: decode and the layout ">BBBBIQHH".
use fpga_mcu_trinity.Base.{ℕ, ◌^◌, ◌<◌, ◌≡◌, arith, List, ◌∷◌, ◌++◌, length}
use fpga_mcu_trinity.Base.Enum.{int}
use fpga_mcu_trinity.Protocol.Constants.Codes.{error_code_enum}
use fpga_mcu_trinity.Protocol.Constants.States.{system_state_enum}
use fpga_mcu_trinity.Protocol.Constants.Kinds.{mode_enum}
use fpga_mcu_trinity.Protocol.Errors.{ok}
use fpga_mcu_trinity.Protocol.Crc.Rounds.{AreBytes}
use fpga_mcu_trinity.Protocol.Pack.{byte_at, u16_at, u32_at, u64_at, pack_u16, pack_u32, pack_u64}
use fpga_mcu_trinity.Protocol.Pack.Fields.{drop_byte, drop_u16, drop_u32, drop_u64, drop_all}
use fpga_mcu_trinity.Protocol.Types.{SystemStatus, decode_status, system_state, mode, error_code}
use fpga_mcu_trinity.Protocol.Types.Members.{
  system_state-int, mode-int, error_code-int, int-system_state, int-mode, int-error_code,
  error_code_lt,
}

-- The payload that stands for a status.
unfoldable pub status_layout : SystemStatus → List ℕ
status_layout s =
    int s.system_state
    ∷ int s.mode
    ∷ s.target_ready_mask
    ∷ s.fault_flags
    ∷ (pack_u32 s.session_id
        ++ (pack_u64 s.current_sequence
            ++ (pack_u16 (int s.last_error) ++ pack_u16 s.active_host_txid)))

pub record StatusFits (s : SystemStatus) : Type 0 where
  pub target_ready_mask : s.target_ready_mask < 0x100
  pub fault_flags : s.fault_flags < 0x100
  pub session_id : s.session_id < 2 ^ 32
  pub current_sequence : s.current_sequence < 2 ^ 64
  pub active_host_txid : s.active_host_txid < 0x10000

-- Every status whose fields fit their places is decoded from its layout ">BBBBIQHH".
pub decode_status-layout :
    (s : SystemStatus) → StatusFits s → decode_status (status_layout s) ≡ ok s
unfolding decode_status status_layout
decode_status-layout s h = ground (
  arith,
  system_state-int s.system_state,
  mode-int s.mode,
  error_code-int s.last_error,
  error_code_lt s.last_error,
)

decode_status_inversion :
    (payload : List ℕ) (s : SystemStatus)
    → decode_status payload ≡ ok s
    → (length payload ≡ 20)
      × (system_state (byte_at payload 0) ≡ ok s.system_state)
      × (mode (byte_at payload 1) ≡ ok s.mode)
      × (error_code (u16_at payload 16) ≡ ok s.last_error)
      × (s.target_ready_mask ≡ byte_at payload 2)
      × (s.fault_flags ≡ byte_at payload 3)
      × (s.session_id ≡ u32_at payload 4)
      × (s.current_sequence ≡ u64_at payload 8)
      × (s.active_host_txid ≡ u16_at payload 18)
unfolding decode_status
decode_status_inversion payload s e = ground arith

-- A payload of bytes that decode_status accepts is the layout ">BBBBIQHH" of the status that
-- is returned.
pub decode_status_reads :
    (payload : List ℕ) (s : SystemStatus)
    → AreBytes payload
    → decode_status payload ≡ ok s
    → payload ≡ status_layout s
unfolding status_layout
decode_status_reads payload s hb e =
    let (n, state, mode', last_error, ready, faults, session, sequence, txid) =
      decode_status_inversion payload s e in
    cc (
      drop_byte payload 0 (omega (arith, n)),
      drop_byte payload 1 (omega (arith, n)),
      drop_byte payload 2 (omega (arith, n)),
      drop_byte payload 3 (omega (arith, n)),
      drop_u32 payload 4 hb (omega (arith, n)),
      drop_u64 payload 8 hb (omega (arith, n)),
      drop_u16 payload 16 hb (omega (arith, n)),
      drop_u16 payload 18 hb (omega (arith, n)),
      drop_all 20 payload (omega (arith, n)),
      int-system_state _ _ state,
      int-mode _ _ mode',
      int-error_code _ _ last_error,
      ready,
      faults,
      session,
      sequence,
      txid,
    )
