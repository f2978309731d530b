-- ===== src/Client/Port.antt =====
-- What the client uses of pyserial, of `time` and of its callback: parameters, over a world `W`
-- that stands for all that they can see. Times are whole milliseconds.
use fpga_mcu_trinity.Base.{ℕ, ◌≤◌, ◌<◌, ◌≡◌, ◌≢◌, Option, List}
use fpga_mcu_trinity.Protocol.Errors.{err, out_of_fuel}
use fpga_mcu_trinity.Protocol.Types.{EventEnvelope}
use fpga_mcu_trinity.Exec.{Exec}

pub record Port (W : Type 0) : Type 0 where
  -- time.monotonic()
  pub monotonic : W → ℕ × W
  -- time.sleep(interval)
  pub sleep : ℕ → W → W
  -- serial.read(1): no byte if the read timed out
  pub read : Exec W (Option ℕ)
  -- serial.write(data): the number of bytes written
  pub write : List ℕ → Exec W ℕ
  -- serial.flush()
  pub flush : Exec W (Unit {0})
  -- self._event_handler, if there is one
  pub event_handler : Option (EventEnvelope → Exec W (Unit {0}))

-- Only finitely many reads fit before a deadline: `rounds deadline w` bounds how many are to come,
-- and neither the clock nor the callback gives any back. No action of the port raises the model's
-- own error.
pub record IsTimed {W : Type 0} (port : Port W) (rounds : ℕ → W → ℕ) : Type 0 where
  pub clock : (d : ℕ) (w : W) → rounds d (port.monotonic w).1 ≤ rounds d w
  pub read :
      (d : ℕ) (w : W)
      → (port.monotonic w).0 < d
      → rounds d (port.read (port.monotonic w).1).1 < rounds d w
  pub callback :
      (d : ℕ) (f : EventEnvelope → Exec W (Unit {0})) (v : EventEnvelope) (w : W)
      → port.event_handler ≡ Option.some f
      → rounds d (f v w).1 ≤ rounds d w
  pub read_raises : (w : W) → (port.read w).0 ≢ err out_of_fuel
  pub write_raises : (bytes : List ℕ) (w : W) → (port.write bytes w).0 ≢ err out_of_fuel
  pub flush_raises : (w : W) → (port.flush w).0 ≢ err out_of_fuel
  pub callback_raises :
      (f : EventEnvelope → Exec W (Unit {0})) (v : EventEnvelope) (w : W)
      → port.event_handler ≡ Option.some f
      → (f v w).0 ≢ err out_of_fuel
