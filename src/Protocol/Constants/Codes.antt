-- ===== src/Protocol/Constants/Codes.antt =====
-- protocol/constants.py: the error codes.
use fpga_mcu_trinity.Base.{ℕ, ◌≡◌, refl, some, List, [], ◌∷◌}
use fpga_mcu_trinity.Base.Enum.{IntEnum, find_member}

pub data ErrorCode : Type 0 where
  ok bad_magic bad_version bad_length bad_crc bad_flags bad_command : ErrorCode
  bad_state busy result_pending transaction_conflict : ErrorCode
  outcome_unknown_target_reset bad_chunk_index chunk_conflict : ErrorCode
  incomplete_input result_not_ready self_test_failed : ErrorCode
  mlkem_shared_secret_mismatch session_id_collision bad_session zeroized : ErrorCode
  replay stale_sequence bad_tag malformed_frame frame_timeout : ErrorCode
  result_pending_drop auth_threshold commit_rejected session_commit_failed : ErrorCode
  heartbeat_timeout fault_locked internal_fault not_supported : ErrorCode

abbrev pub error_code_value : ErrorCode → ℕ
error_code_value ErrorCode.ok = 0x0
error_code_value ErrorCode.bad_magic = 0x101
error_code_value ErrorCode.bad_version = 0x102
error_code_value ErrorCode.bad_length = 0x103
error_code_value ErrorCode.bad_crc = 0x104
error_code_value ErrorCode.bad_flags = 0x105
error_code_value ErrorCode.bad_command = 0x201
error_code_value ErrorCode.bad_state = 0x202
error_code_value ErrorCode.busy = 0x203
error_code_value ErrorCode.result_pending = 0x204
error_code_value ErrorCode.transaction_conflict = 0x205
error_code_value ErrorCode.outcome_unknown_target_reset = 0x206
error_code_value ErrorCode.bad_chunk_index = 0x301
error_code_value ErrorCode.chunk_conflict = 0x302
error_code_value ErrorCode.incomplete_input = 0x303
error_code_value ErrorCode.result_not_ready = 0x304
error_code_value ErrorCode.self_test_failed = 0x305
error_code_value ErrorCode.mlkem_shared_secret_mismatch = 0x306
error_code_value ErrorCode.session_id_collision = 0x401
error_code_value ErrorCode.bad_session = 0x402
error_code_value ErrorCode.zeroized = 0x403
error_code_value ErrorCode.replay = 0x501
error_code_value ErrorCode.stale_sequence = 0x502
error_code_value ErrorCode.bad_tag = 0x503
error_code_value ErrorCode.malformed_frame = 0x504
error_code_value ErrorCode.frame_timeout = 0x505
error_code_value ErrorCode.result_pending_drop = 0x506
error_code_value ErrorCode.auth_threshold = 0x601
error_code_value ErrorCode.commit_rejected = 0x602
error_code_value ErrorCode.session_commit_failed = 0x603
error_code_value ErrorCode.heartbeat_timeout = 0x604
error_code_value ErrorCode.fault_locked = 0x605
error_code_value ErrorCode.internal_fault = 0x701
error_code_value ErrorCode.not_supported = 0x702

abbrev pub error_code_members : List ErrorCode
error_code_members =
    ErrorCode.ok ∷ ErrorCode.bad_magic ∷ ErrorCode.bad_version ∷ ErrorCode.bad_length
    ∷ ErrorCode.bad_crc ∷ ErrorCode.bad_flags ∷ ErrorCode.bad_command ∷ ErrorCode.bad_state
    ∷ ErrorCode.busy ∷ ErrorCode.result_pending ∷ ErrorCode.transaction_conflict
    ∷ ErrorCode.outcome_unknown_target_reset ∷ ErrorCode.bad_chunk_index ∷ ErrorCode.chunk_conflict
    ∷ ErrorCode.incomplete_input ∷ ErrorCode.result_not_ready ∷ ErrorCode.self_test_failed
    ∷ ErrorCode.mlkem_shared_secret_mismatch ∷ ErrorCode.session_id_collision
    ∷ ErrorCode.bad_session ∷ ErrorCode.zeroized ∷ ErrorCode.replay ∷ ErrorCode.stale_sequence
    ∷ ErrorCode.bad_tag ∷ ErrorCode.malformed_frame ∷ ErrorCode.frame_timeout
    ∷ ErrorCode.result_pending_drop ∷ ErrorCode.auth_threshold ∷ ErrorCode.commit_rejected
    ∷ ErrorCode.session_commit_failed ∷ ErrorCode.heartbeat_timeout ∷ ErrorCode.fault_locked
    ∷ ErrorCode.internal_fault ∷ ErrorCode.not_supported ∷ []

pub error_code_complete :
    (a : ErrorCode) → find_member error_code_value error_code_members (error_code_value a) ≡ some a
unfolding find_member
error_code_complete ErrorCode.ok = refl
error_code_complete _ = refl

instance abbrev pub error_code_enum : IntEnum ErrorCode
error_code_enum = record {
  value = error_code_value;
  members = error_code_members;
  complete = error_code_complete;
}
