-- ===== src/Lib.antt =====
-- Trinity: an SN32F407 controller, two FPGA targets (Primer 1 and Primer 2) and a PC host. The PC
-- host (pc_host/src/trinity_host, Python) talks to the controller over a serial port: requests and
-- responses are frames with a CRC-16, stuffed by COBS and ended by a zero byte; the controller talks
-- to the targets in SPI packets, which the host reads in diagnostic traces. This library models the
-- host's protocol package, its serial client, and the flows that run on the client.
--
-- Base (and Base/Lists, Base/Tests, Base/Bits, Base/Enum): lists, Boolean tests and bit operations
-- on natural numbers, and enumerations, which model IntEnum and IntFlag.
-- Protocol/Constants: pc_host/src/trinity_host/protocol/constants.py, one data type for each class.
-- Protocol/Errors: the exceptions, and Result for code that may raise one. A message is kept as its
-- constant part.
-- Protocol/Crc: protocol/crc.py. `eight` is the inner loop; the outer loop is a fold.
-- Protocol/Cobs: protocol/cobs.py. The Encoder is out, code_index and code of cobs_encode, and its
-- loop a fold of encode_step; the loop of cobs_decode has len(data) rounds, which Protocol/Cobs/Decode
-- shows to be enough.
-- Protocol/Pack: struct's big-endian fields. Protocol/Frame: protocol/frame.py, HostFrame, SpiPacket
-- and request_fingerprint_crc32c. Protocol/Types: protocol/types.py, the payloads.
-- Exec: methods that change an object and may raise, as functions from a state to a Result and a
-- state; Exec/Preserves, Exec/Runs, Exec/Yields, Exec/Ends and Exec/Reaches: invariants and measures of
-- such methods, what the returned values have in common, what holds of them and of the state that is
-- left, and what holds behind every path.
-- Client/Port: what the client uses of pyserial, of time and of its callback, as parameters over a
-- world of any type, with the laws that termination needs. Client/Transport:
-- TrinitySerialClient._allocate_txid, _read_wire_frame, _handle_event and request of
-- pc_host/src/trinity_host/serial_client_impl.py; Client/Response: the tests that request makes of a
-- response, and _raise_remote_error; Client/Response/Remote: the layout of an error response.
-- Client/Txid, Client/Ready, Client/Receive, Client/Fuel and Client/Answer: their theorems.
-- Client/Payloads: SystemInfo, SpiDiagnosticTrace, and LastErrorSnapshot and
-- SessionCommitDiagnostic of serial_client.py. Client/Operations: the operations from
-- ping to wait_for_transaction, over a Link of request, clock and sleep.
-- Client/Bringup, Client/LiveTrace and Client/Qualification: run_p1_bringup, run_dual_spi_bringup,
-- _validate_live_spi_trace and run_sn32_hardware_qualification, with the build and version that
-- serial_client.py puts in place of the implementation's; Client/Bringup/Tested: the steps of
-- run_dual_spi_bringup with the states between them; Client/Guarded: what these operations keep.
-- Flow: pc_host/src/trinity_host/full_flow.py; Flow/Requests holds the retained commands up to
-- emergency_zeroize, Flow/Secure the qualification, Flow/Erase a Link that logs its requests.
-- Demo: pc_host/src/trinity_host/demo_core.py. A `try` with `finally` or `except` is try_finally or
-- try_except; a variable that a handler tests for None is modelled by where the handler stands. The
-- exceptions of the model are subclasses of Python's Exception: KeyboardInterrupt and SystemExit, which
-- `except Exception` lets pass, are not modelled.
-- Reference: SessionModel, crc16, spi_packet and parse_spi of primer1/scripts/reference_checks.py, the
-- models that the targets are tested against; Reference/Session has one function for each method, and
-- none for a failed assertion, and Reference/Session/Refinement sets it against the life of a session,
-- with what each call does in it; Reference/Ascon is Ascon-AEAD128 of primer2/scripts/reference_checks.py.
-- Tests: theorems at a concrete input, with a scripted serial port and a scripted client.
--
-- Numbers are natural numbers. Bytes are numbers, and a theorem that needs them below 256 says so.
-- Times are whole milliseconds. The loops of the client wait for a deadline: they run on fuel, which
-- counts reads (or polls): Client/Fuel says what fuel is enough for request, over the laws of a port in
-- Client/Port, and Client/Operations/Ended what is enough for wait_for_transaction, over those of a link.
--
-- Not modelled: the command lines and the GUI (input and output); of the reference checks, the NTT,
-- primer1's own Ascon-AEAD128, and what builds associated data and nonces; the checkers of the
-- repository's text; the firmware, the RTL and mlkem-native, which are not Python.
pub mod Base
pub mod Protocol
pub mod Exec
pub mod Client
pub mod Flow
pub mod Demo
pub mod Reference
pub mod Tests
