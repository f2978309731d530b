-- ===== src/Client/Txid.antt =====
-- _allocate_txid: the numbers that consecutive requests take.
use fpga_mcu_trinity.Base.{ℕ, zero, suc, ◌+◌, ◌-◌, ◌%◌, ◌≤◌, ◌<◌, ◌≡◌, ◌≢◌, ap, ◌∙◌, arith}
use fpga_mcu_trinity.Base.Bits.{bit_and_mask}
use fpga_mcu_trinity.Protocol.Errors.{ok}
use fpga_mcu_trinity.Client.Port.{Port}
use fpga_mcu_trinity.Client.Transport.{Client, next_txid, allocate_txid}

-- The counter never leaves 1 to 65535.
abbrev pub IsTxid : ℕ → Type 0
IsTxid n = (1 ≤ n) × (n ≤ 0xFFFF)

next_txid_lem : (n : ℕ) → IsTxid n → next_txid n ≡ n % 0xFFFF + 1
next_txid_lem n h = ground (arith, bit_and_mask 16 (n + 1))

pub next_txid-IsTxid : (n : ℕ) → IsTxid n → IsTxid (next_txid n)
next_txid-IsTxid n h = omega (arith, next_txid_lem n h)

module _ {W : Type 0} (port : Port W) where
  -- The client after `k` allocations.
  unfoldable pub after_allocations : ℕ → Client W → Client W
  after_allocations zero s = s
  after_allocations (suc k) s = after_allocations k (allocate_txid port s).1

  counter-after_allocations :
      (k : ℕ) (s : Client W)
      → IsTxid s.next_transaction_id
      → (after_allocations k s).next_transaction_id ≡ (s.next_transaction_id - 1 + k) % 0xFFFF + 1
  unfolding after_allocations allocate_txid
  counter-after_allocations zero s h = omega arith
  counter-after_allocations (suc k) s h =
      let n = s.next_transaction_id in
      counter-after_allocations k (allocate_txid port s).1 (next_txid-IsTxid n h)
      ∙ ap (λ (t : ℕ). (t - 1 + k) % 0xFFFF + 1) (next_txid_lem n h)
      ∙ omega arith

  -- From a client whose counter is between 1 and 0xFFFF, two allocations that are less than
  -- 65535 apart give different transaction IDs, and no allocation gives zero.
  pub allocate_txid_fresh :
      (i j : ℕ) (s : Client W)
      → IsTxid s.next_transaction_id
      → i < j
      → j < i + 0xFFFF
      → ((allocate_txid port (after_allocations i s)).0
          ≢ (allocate_txid port (after_allocations j s)).0)
        × ((allocate_txid port (after_allocations i s)).0 ≢ ok 0)
  unfolding allocate_txid
  allocate_txid_fresh i j s h lt near = (
    λ e. ground (arith, counter-after_allocations i s h, counter-after_allocations j s h),
    λ e. ground (arith, counter-after_allocations i s h),
  )
