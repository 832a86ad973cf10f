-- ===== src/Controller/Protocol.antt =====
-- The protocol of the controller on a local socket, src/core/controller/local_protocol.cpp and
-- include/gatehold/controller/local_protocol.hpp: the text of a request (`Request`), frames on a
-- byte stream (`Frame`), the text of a response (`Response`) and a session (`Session`).
pub mod Request
pub mod Frame
pub mod Response
pub mod Session
pub mod Tests
