-- ===== src/Program.antt =====
-- door_controller/main.c. The libraries are outside: `getopt_long` gives the options, `fgets` the
-- lines of the configuration file, SQLite and the socket whether they open.
pub mod Config
pub mod Options
pub mod Main
pub mod Fresh
pub mod Start
pub mod Run
pub mod Airlock
