-- ===== src/Cli.antt =====
-- go/cmd/xrr, the command line tool: the layers of its configuration (Config) and the names of the
-- commands that it stands in for (Commands).
pub mod Config
pub mod Commands
