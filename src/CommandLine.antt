-- ===== src/CommandLine.antt =====
-- rv64rs/src/main.rs: the arguments, and what the subcommands do with a machine. Files are read, and
-- lines printed, outside of the model: a subcommand gets the bytes and returns what the lines tell.
pub mod Arguments
pub mod Run
pub mod Input
pub mod Output
pub mod Boot
pub mod Shell
pub mod RoundTrip
pub mod Numerals
