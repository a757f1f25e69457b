-- ===== src/Ipc.antt =====
-- The message channel between freecli and freecli-backend (src/core/ipc.c, ipc.h and the transfer
-- loops of net.h): buffers and words in `Wire`, frames in `Frame`, payloads in `Payload`.
pub mod Types
pub mod Wire
pub mod Holds
pub mod Payload
pub mod Frame
