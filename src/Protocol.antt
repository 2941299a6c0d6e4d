-- ===== src/Protocol.antt =====
-- transmission_protocol.h and transmission_protocol.c
-- (project-spec/meta-user/recipes-apps/autostart/src): the frames, their bytes, and the serial line.
pub mod Frame
pub mod Stream
pub mod Link
pub mod Wire
pub mod Tests
