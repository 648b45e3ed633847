-- ===== src/AtSupport.antt =====
-- aether/serial_ports/at_support: the observers of the lines that a modem answers, the requests that
-- wait for them, and the parsing of an answer.
pub mod Dispatcher
pub mod Request
pub mod Parsing
