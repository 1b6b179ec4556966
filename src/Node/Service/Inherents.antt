-- ===== src/Node/Service/Inherents.antt =====
-- The inherents of a block that the node makes or imports (`create_inherent_data_providers`,
-- blockchain/node/src/service.rs).
use guillotine.Base.{ℕ}

-- The slot and the timestamp of a block, from the system's time, over
-- `InherentDataProvider::from_timestamp_and_slot_duration`.
unfoldable pub create_inherent_data_providers : (ℕ → ℕ → ℕ) → ℕ → ℕ → ℕ × ℕ
create_inherent_data_providers from_timestamp_and_slot_duration slot_duration system_time =
    let timestamp = system_time in
    (from_timestamp_and_slot_duration timestamp slot_duration, timestamp)
