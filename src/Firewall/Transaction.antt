-- ===== src/Firewall/Transaction.antt =====
-- The durable activation transaction, activation_transaction_store.cpp: the record and its text
-- (`Record`), the text read back (`RoundTrip`), the operations of the store
-- (`Store`) and what they do to the disk (`Effect`).
pub mod Record
pub mod RoundTrip
pub mod Store
pub mod Effect
