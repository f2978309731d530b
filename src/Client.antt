-- ===== src/Client.antt =====
-- pc_host/src/trinity_host/serial_client_impl.py and serial_client.py: the synchronous client of
-- SN32, from the serial port up to the hardware qualification.
pub mod Port
pub mod Response
pub mod Transport
pub mod Txid
pub mod Ready
pub mod Receive
pub mod Fuel
pub mod Answer
pub mod Payloads
pub mod Operations
pub mod Bringup
pub mod LiveTrace
pub mod Qualification
pub mod Guarded
