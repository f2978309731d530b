-- ===== src/Protocol/Types/Results.antt =====
-- TransactionResult and EventEnvelope: decode and the layouts ">HBBHH" and ">HBBHBB".
use fpga_mcu_trinity.Base.{
  ℕ, ◌+◌, ◌<◌, ◌≤◌, ◌≡◌, ap, ◌∙◌, arith, Option, none, some, List, ◌∷◌, ◌++◌, length, length-drop,
  drop,
}
use fpga_mcu_trinity.Base.Enum.{int}
use fpga_mcu_trinity.Protocol.Constants.Codes.{error_code_enum}
use fpga_mcu_trinity.Protocol.Constants.States.{transaction_state_enum}
use fpga_mcu_trinity.Protocol.Constants.Kinds.{source_enum, event_type_enum}
use fpga_mcu_trinity.Protocol.Errors.{ok}
use fpga_mcu_trinity.Protocol.Crc.Rounds.{AreBytes}
use fpga_mcu_trinity.Protocol.Pack.{byte_at, u16_at, pack_u16}
use fpga_mcu_trinity.Protocol.Pack.Fields.{drop_byte, drop_u16}
use fpga_mcu_trinity.Protocol.Types.{
  TransactionResult, decode_transaction, EventEnvelope, decode_event, transaction_state, error_code,
  event_type, source,
}
use fpga_mcu_trinity.Protocol.Types.Members.{
  transaction_state-int, error_code-int, event_type-int, source-int, int-transaction_state,
  int-error_code, int-event_type, int-source, error_code_lt, event_type_lt,
}

unfoldable pub transaction_layout : TransactionResult → List ℕ
transaction_layout r =
    pack_u16 r.queried_txid
    ++ (int r.state
        ∷ r.original_command
        ∷ (pack_u16 (int r.result_code) ++ (pack_u16 (length r.payload) ++ r.payload)))

-- Every result whose transaction ID and data length are below 0x10000 is decoded from its
-- layout ">HBBHH" with the data.
pub decode_transaction-layout :
    (r : TransactionResult)
    → r.queried_txid < 0x10000
    → length r.payload < 0x10000
    → decode_transaction (transaction_layout r) ≡ ok r
unfolding decode_transaction transaction_layout
decode_transaction-layout r hq hl = ground (
  arith,
  transaction_state-int r.state,
  error_code-int r.result_code,
  error_code_lt r.result_code,
)

decode_transaction_inversion :
    (payload : List ℕ) (r : TransactionResult)
    → decode_transaction payload ≡ ok r
    → (length payload ≡ 8 + u16_at payload 6)
      × (transaction_state (byte_at payload 2) ≡ ok r.state)
      × (error_code (u16_at payload 4) ≡ ok r.result_code)
      × (r.queried_txid ≡ u16_at payload 0)
      × (r.original_command ≡ byte_at payload 3)
      × (r.payload ≡ drop 8 payload)
unfolding decode_transaction
decode_transaction_inversion payload r e = ground arith

-- A payload of bytes that decode_transaction accepts is the layout ">HBBHH" with the data of
-- the result that is returned.
pub decode_transaction_reads :
    (payload : List ℕ) (r : TransactionResult)
    → AreBytes payload
    → decode_transaction payload ≡ ok r
    → payload ≡ transaction_layout r
unfolding transaction_layout
decode_transaction_reads payload r hb e =
    let (n, state, code, txid, command, rest) = decode_transaction_inversion payload r e in
    let size : length r.payload ≡ u16_at payload 6 =
      ap (λ (t : List ℕ). length t) rest ∙ omega (arith, length-drop 8 payload, n) in
    cc (
      drop_u16 payload 0 hb (omega (arith, n)),
      drop_byte payload 2 (omega (arith, n)),
      drop_byte payload 3 (omega (arith, n)),
      drop_u16 payload 4 hb (omega (arith, n)),
      drop_u16 payload 6 hb (omega (arith, n)),
      int-transaction_state _ _ state,
      int-error_code _ _ code,
      txid,
      command,
      rest,
      size,
    )

-- 0xFF stands for no progress.
abbrev progress_byte : Option ℕ → ℕ
progress_byte none = 0xFF
progress_byte (some n) = n

unfoldable pub event_layout : EventEnvelope → List ℕ
event_layout v =
    pack_u16 (int v.event_type)
    ++ (v.severity
        ∷ int v.source
        ∷ (pack_u16 v.related_transaction_id ++ (progress_byte v.progress_percent ∷ 0 ∷ v.payload)))

abbrev pub ProgressFits : Option ℕ → Type 0
ProgressFits none = Unit
ProgressFits (some n) = n ≤ 100

-- Every event whose transaction ID is below 0x10000 and whose progress is at most 100, if it
-- has one, is decoded from its layout ">HBBHBB" with the data.
pub decode_event-layout :
    (v : EventEnvelope)
    → v.related_transaction_id < 0x10000
    → ProgressFits v.progress_percent
    → decode_event (event_layout v) ≡ ok v
unfolding decode_event event_layout
decode_event-layout v ht hp =
    ground (arith, event_type-int v.event_type, event_type_lt v.event_type, source-int v.source)

decode_event_inversion :
    (payload : List ℕ) (v : EventEnvelope)
    → decode_event payload ≡ ok v
    → (8 ≤ length payload)
      × (byte_at payload 7 ≡ 0)
      × (event_type (u16_at payload 0) ≡ ok v.event_type)
      × (source (byte_at payload 3) ≡ ok v.source)
      × (v.severity ≡ byte_at payload 2)
      × (v.related_transaction_id ≡ u16_at payload 4)
      × (progress_byte v.progress_percent ≡ byte_at payload 6)
      × ProgressFits v.progress_percent
      × (v.payload ≡ drop 8 payload)
unfolding decode_event
decode_event_inversion payload v e = ground arith

-- A payload of bytes that decode_event accepts is the layout ">HBBHBB" with the data of the
-- event that is returned, and its progress is at most 100, if it has one.
pub decode_event_reads :
    (payload : List ℕ) (v : EventEnvelope)
    → AreBytes payload
    → decode_event payload ≡ ok v
    → (payload ≡ event_layout v) × ProgressFits v.progress_percent
unfolding event_layout
decode_event_reads payload v hb e =
    let (n, zero_byte, kind, from, severity, txid, progress, fits, rest) =
      decode_event_inversion payload v e in
    (
      cc (
        drop_u16 payload 0 hb (omega (arith, n)),
        drop_byte payload 2 (omega (arith, n)),
        drop_byte payload 3 (omega (arith, n)),
        drop_u16 payload 4 hb (omega (arith, n)),
        drop_byte payload 6 (omega (arith, n)),
        drop_byte payload 7 (omega (arith, n)),
        int-event_type _ _ kind,
        int-source _ _ from,
        zero_byte,
        severity,
        txid,
        progress,
        rest,
      ),
      fits,
    )
