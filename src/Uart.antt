-- ===== src/Uart.antt =====
-- src/nuki_uart_proto.c, src/nuki_uart_proto.h: the frame protocol of the second UART.
pub mod Rx
pub mod Api
pub mod Tx
pub mod Serial
mod Tests
mod SerialTests
