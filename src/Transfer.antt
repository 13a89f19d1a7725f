-- ===== src/Transfer.antt =====
-- Log transfers: the messages of backend/app/hostcomm/v2_contract/messages.py for them, and
-- `LogTransfer` of hostcomm/v2_simulator/transfers.py.
pub mod Model
pub mod Log
pub mod Ack
pub mod Delivery
pub mod Coverage
pub mod Examples
