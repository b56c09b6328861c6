-- ===== src/Uart.antt =====
-- src/uart_commands.c: the command line on the console.
pub mod Text
pub mod Command
pub mod Thread
pub mod Tests
