-- ===== src/Command.antt =====
-- src/command.rs: the commands, their parsing from frames, their execution and their durable form.
pub mod Types
pub mod Parse
pub mod Durable
pub mod Execute
pub mod Valid
pub mod RoundTrip
pub mod Sound
pub mod Bounded
pub mod Lasting
