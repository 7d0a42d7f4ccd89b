-- ===== src/Zmq.antt =====
-- snakelab/zmq: the wire contracts of requests, telemetry and events, and the two publishers.
pub mod Protocol
pub mod Envelope
pub mod Frame
pub mod Events
pub mod Publisher
