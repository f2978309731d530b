-- ===== src/Client/Payloads/Trace.antt =====
-- SpiDiagnosticTrace: the shape of what decode accepts.
use fpga_mcu_trinity.Base.{
  ℕ, ◌+◌, ◌-◌, ◌≤◌, ◌≡◌, sym, ap, ◌∙◌, arith, List, ◌++◌, length, take, drop, slice, length-take,
  length-drop, take-append-drop, drop-drop, take_all,
}
use fpga_mcu_trinity.Base.Enum.{int}
use fpga_mcu_trinity.Protocol.Constants.Codes.{error_code_enum}
use fpga_mcu_trinity.Protocol.Errors.{ok}
use fpga_mcu_trinity.Protocol.Pack.{u16_at}
use fpga_mcu_trinity.Protocol.Types.{error_code}
use fpga_mcu_trinity.Protocol.Types.Members.{int-error_code}
use fpga_mcu_trinity.Client.Payloads.{SpiDiagnosticTrace, decode_trace}

decode_trace_inversion :
    (payload : List ℕ) (trace : SpiDiagnosticTrace)
    → decode_trace payload ≡ ok trace
    → (u16_at payload 12 ≤ 76)
      × (u16_at payload 14 ≤ 76)
      × (length payload ≡ 24 + u16_at payload 12 + u16_at payload 14)
      × (error_code (u16_at payload 4) ≡ ok trace.result_code)
      × (trace.request_length ≡ u16_at payload 12)
      × (trace.response_capture_length ≡ u16_at payload 14)
      × (trace.request_bytes ≡ slice 24 (24 + u16_at payload 12) payload)
      × (trace.response_bytes
          ≡ slice (24 + u16_at payload 12) (24 + u16_at payload 12 + u16_at payload 14) payload)
unfolding decode_trace
decode_trace_inversion payload trace e = ground arith

split_at : (n : ℕ) (bytes : List ℕ) → bytes ≡ take n bytes ++ drop n bytes
split_at n bytes = sym (take-append-drop n bytes)

split_captures :
    (payload : List ℕ) (a b : ℕ)
    → length payload ≡ 24 + a + b
    → payload
      ≡ take 24 payload ++ (slice 24 (24 + a) payload ++ slice (24 + a) (24 + a + b) payload)
split_captures payload a b h =
    split_at 24 payload
    ∙ ap (λ (t : List ℕ). take 24 payload ++ t)
        (split_at a (drop 24 payload)
          ∙ ap (λ (t : List ℕ). take a (drop 24 payload) ++ t)
              (drop-drop a 24 payload
                ∙ sym (take_all b _ (omega (arith, length-drop (24 + a) payload))))
          ∙ cc (first, second))
  where
    first : 24 + a - 24 ≡ a
    first = omega arith

    second : 24 + a + b - (24 + a) ≡ b
    second = omega arith

captures :
    (payload : List ℕ) (a b : ℕ)
    → length payload ≡ 24 + a + b
    → (length (slice 24 (24 + a) payload) ≡ a) × (length (slice (24 + a) (24 + a + b) payload) ≡ b)
captures payload a b h = (
  omega (arith, length-take (24 + a - 24) (drop 24 payload), length-drop 24 payload),
  omega (
    arith,
    length-take (24 + a + b - (24 + a)) (drop (24 + a) payload),
    length-drop (24 + a) payload,
  ),
)

-- A trace that is decoded carries the whole of its payload behind the header: the request capture and the response capture,
-- each as long as the trace says and at most 76 bytes, and its result code is the one on the wire.
pub decode_trace_captures :
    (payload : List ℕ) (trace : SpiDiagnosticTrace)
    → decode_trace payload ≡ ok trace
    → (payload ≡ take 24 payload ++ (trace.request_bytes ++ trace.response_bytes))
      × (length trace.request_bytes ≡ trace.request_length)
      × (length trace.response_bytes ≡ trace.response_capture_length)
      × (trace.request_length ≤ 76)
      × (trace.response_capture_length ≤ 76)
      × (int trace.result_code ≡ u16_at payload 4)
decode_trace_captures payload trace e =
    let (a, b, n, code, la, lb, request, response) = decode_trace_inversion payload trace e in
    let (na, nb) = captures payload (u16_at payload 12) (u16_at payload 14) n in
    (
      split_captures payload (u16_at payload 12) (u16_at payload 14) n ∙ cc (request, response),
      ap (λ (t : List ℕ). length t) request ∙ na ∙ sym la,
      ap (λ (t : List ℕ). length t) response ∙ nb ∙ sym lb,
      omega (arith, la, a),
      omega (arith, lb, b),
      int-error_code _ _ code,
    )
