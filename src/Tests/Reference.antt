-- ===== src/Tests/Reference.antt =====
-- The reference models at concrete inputs.
use fpga_mcu_trinity.Base.{ℕ, ◌≡◌, ◌↔◌, refl, arith, true, none, some, List, [], ◌∷◌}
use fpga_mcu_trinity.Protocol.Errors.{ok}
use fpga_mcu_trinity.Protocol.Crc.{crc16_ccitt_false}
use fpga_mcu_trinity.Protocol.Pack.{seal}
use fpga_mcu_trinity.Protocol.Frame.{SpiPacket, spi_encode, spi_decode}
use fpga_mcu_trinity.Protocol.Frame.Spi.{IsSpiSendable}
use fpga_mcu_trinity.Reference.Packet.{spi_packet, parse_spi, parse_spi_agrees, spi_packet_agrees}
use fpga_mcu_trinity.Reference.Session.{
  Phase, Context, SessionModel, initial, stage, commit, apply_secure_enable, load, Step, Reach,
}
use fpga_mcu_trinity.Reference.Session.WellFormed.{IsWellFormed, Reach-IsWellFormed}
use fpga_mcu_trinity.Reference.Session.Refinement.{Call, perform, Life, life_after, life-perform}

abbrev the_context : Context
the_context = record {
  sid = 7;
  key = 0 ∷ 1 ∷ 2 ∷ 3 ∷ 4 ∷ 5 ∷ 6 ∷ 7 ∷ 8 ∷ 9 ∷ 10 ∷ 11 ∷ 12 ∷ 13 ∷ 14 ∷ 15 ∷ [];
  prefix = 0 ∷ 1 ∷ 2 ∷ 3 ∷ 4 ∷ 5 ∷ 6 ∷ 7 ∷ [];
}

abbrev staged : SessionModel
staged = record {
  state = Phase.staged;
  staged = some the_context;
  active = none;
  sequence = 1;
  telemetry = [];
}

abbrev committed : SessionModel
committed = record {
  state = Phase.blocked;
  staged = none;
  active = some the_context;
  sequence = 1;
  telemetry = [];
}

reached : Reach initial committed
unfolding stage commit
reached =
    Reach.next (Reach.next Reach.here (Step.staging the_context staged refl))
      (Step.committing 7 committed refl)

Reach-IsWellFormed_example : IsWellFormed committed
Reach-IsWellFormed_example = Reach-IsWellFormed committed reached

abbrev loaded : SessionModel
loaded = record committed {
  state = Phase.active;
  telemetry =
      1 ∷ 2 ∷ 3 ∷ 4 ∷ 5 ∷ 6 ∷ 7 ∷ 8 ∷ 9 ∷ 10 ∷ 11 ∷ 12 ∷ 13 ∷ 14 ∷ 15 ∷ 16 ∷ 17 ∷ 18 ∷ 19 ∷ 20 ∷ 21
      ∷ 22 ∷ 23 ∷ 24 ∷ [];
}

reached_loaded : Reach initial loaded
unfolding apply_secure_enable load
reached_loaded =
    Reach.next (Reach.next reached (Step.enabling true)) (Step.loading loaded.telemetry loaded refl)

life-perform_example : life_after (perform Call.sending loaded) ≡ some (Life.live the_context 2 [])
life-perform_example = life-perform Call.sending loaded reached_loaded

abbrev packet : List ℕ
packet = 165 ∷ 1 ∷ 1 ∷ 0 ∷ 0 ∷ 9 ∷ 0 ∷ 0 ∷ 156 ∷ 57 ∷ []

parse_spi_agrees_example : (parse_spi packet ≡ some (1, 9, [])) ↔ (
    (p : SpiPacket) × (spi_decode packet ≡ ok p)
    × (◌≡◌ {A = ℕ × ℕ × List ℕ} (1, 9, []) (p.command, p.transaction_id, p.payload)))
parse_spi_agrees_example = parse_spi_agrees packet (1, 9, []) (ground arith)

abbrev ask : SpiPacket
ask = record { command = 1; flags = 0; transaction_id = 9; payload = []; version = 1 }

ask-IsSpiSendable : IsSpiSendable ask
ask-IsSpiSendable = record {
  version = refl;
  command = omega arith;
  flags = omega arith;
  transaction_id = omega arith;
  size = omega arith;
  bytes = ground arith;
}

asked : spi_encode ask ≡ ok packet
unfolding spi_encode seal crc16_ccitt_false
asked = refl

spi_packet_agrees_example : spi_packet 1 9 [] 0 ≡ some packet
spi_packet_agrees_example = spi_packet_agrees ask packet ask-IsSpiSendable asked
