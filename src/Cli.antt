-- ===== src/Cli.antt =====
-- src/cli.cpp: the command line. A run reads all of the input and leaves an exit status, what it has
-- printed, and the disk.
pub mod Words
pub mod Session
pub mod Commands
pub mod Program
pub mod Requests
pub mod Effects
