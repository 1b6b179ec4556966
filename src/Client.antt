-- ===== src/Client.antt =====
-- The blocks that the local node writes into a voucher
-- (guillotine-local-node/express/src/payments/payPaymentRequest.js). The number of the head block
-- is a text of decimal digits, as the sidecar's JSON has it.
pub mod Packing
pub mod Payment
pub mod Slot
use Prim.Native.Nat.{bit_xor}
use guillotine.Base.{ℕ, ◌+◌, ◌*◌, ◌/◌, ◌%◌, List, [], ◌∷◌, ◌++◌}

-- The number that decimal digits stand for, behind those that are read already.
unfoldable pub decimal_from : ℕ → List ℕ → ℕ
decimal_from n [] = n
decimal_from n (d ∷ ds) = decimal_from (n * 10 + d) ds

-- `sesh ^ (parseInt(nonce, 16) % 1024)`, for what `parseInt` gives.
unfoldable pub slot : ℕ → ℕ → ℕ
slot sesh parsed = bit_xor sesh (parsed % 1024)

-- `era * 1024 + (sesh ^ (parseInt(nonce, 16) % 1024))`, for the value of the slot: the division
-- makes a number of the text.
unfoldable pub oracle_block : List ℕ → ℕ → ℕ
oracle_block current_block place = (decimal_from 0 current_block / 1024) * 1024 + place

-- `currentBlock+2048`, which joins two texts.
unfoldable pub no_redeem_before_block : List ℕ → List ℕ
no_redeem_before_block current_block = current_block ++ 2 ∷ 0 ∷ 4 ∷ 8 ∷ []
