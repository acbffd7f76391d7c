-- ===== src/Lib.antt =====
-- Access control for doors with RFID readers and keypads on small ARM boards: what the program
-- decides, and what it sends to readers, outputs and the event log.
--
-- The program reads its doors from a configuration file and then runs one loop
-- (door_controller/door_controller.c, mainLoop). Each round counts down the lock timers and the
-- two-factor timers, asks each reader for input, which the reader hands back through the callback
-- process_user_info, and looks at the inputs of the doors. A door may have an airlock partner, a door
-- that it blocks while it is unlocked or open.
--
-- - Reader.antt: the signals and the arguments of the callback (readers/reader.h).
-- - Gpio.antt: set_door_state and get_input_state (gpios/gpio-orangepizero.c). libgpiod is outside:
--   writes are a list of lines and values, reads a list of values.
-- - Door.antt: doors, their readers and the log of what leaves them (door_controller.h). Door.Lock has
--   unlock_door, lock_door and the airlock, Door.Inputs has check_inputs, Door.Auth has
--   process_user_info and the two-factor timer, Door.Loop has mainLoop. Calls of reader_signal,
--   clear_reader_data, set_door_state and sendEvent go to the log of the World, newest first. The
--   readers' inputs of a round are a parameter of the loop, and so is the user database.
-- - UserDb.antt: getAccessMask2 and checkKeyAccess2 (door_controller/user_db.c). SQLite, MD5 and atoi
--   are parameters: a query is what its WHERE part asks, with its length as the code builds it, and
--   the database gives a list of rows. UserDb.Policy says without the code which rows let whom in.
-- - Osdp.antt: the table and the checksum (Osdp.Table, Osdp.Crc), packets that are built
--   (Osdp.Packet), read (Osdp.Process) and dumped (Osdp.Dump), and the serial port (Osdp.Port), of
--   readers/osdp/osdp.c and readers/osdp/crctable.c.
-- - Idesco.antt: the reader that is polled over OSDP (readers/reader-idesco.c). The callback is a
--   parameter that may change the reader and its caller's state.
-- - Access.antt: the door controller over the user database, as the program links them; Access.Wire
--   with the reader of Idesco.antt in front of them, from a packet with a card or a PIN on the line to
--   the outputs.
-- - Epso.antt: epso_write, epso_write_read and readCardPin (readers/epso/epso.c). What select and read
--   give is a parameter; Epso.Port has init_tty and init_net. Roger.antt: the reader over it
--   (readers/reader-roger.c).
-- - CString.antt: what the program uses of C's string functions: strtok_r, strtoll and the numbers of
--   printf.
-- - Remote.antt: check_network and init_remote_control (door_controller/remoteControl.c). A datagram is
--   its bytes, an answer is an effect of the log, and the table of stored masks is an interface,
--   StateDb, which a list of rows fills in Examples.Commands. Remote.Stored says what the table
--   stands for, a mode and a mask for each door, and Remote.Refinement what each command makes of it.
--   Remote.Network is open_network.
-- - EventSend.antt: sendEvent, remotePrintf and tcpSend (door_controller/eventSend.c): the command that
--   is run for an event of the log, and the line that is logged.
-- - Program.antt: main (door_controller/main.c). Program.Config reads the lines of the configuration
--   file, Program.Options the options, Program.Main starts the doors and has the loop, whose turn is
--   mainLoop and then check_network.
-- - Tools.antt: the command-line tools (tools/osdp-reader-test.c and tools/osdp-set-address.c).
-- - Base.antt: helpers on lists, words, bits and C arrays. Examples.antt: the theorems at concrete
--   inputs.
--
-- Numbers are native naturals with the wrap-around of their width written out. A char is unsigned, as
-- on the ARM boards that the program is for. Where C leaves an access undefined, a read or a copy past
-- the end of an array, the model gives none. What uninitialised memory holds is a parameter. Loops over
-- doors, outputs and bytes are recursions on the number of rounds or on the list, so that no fuel is
-- needed; only the printing of a number counts its rounds, one more than the number, and each round but
-- the last divides it by its base. Timers are natural numbers: the code never sets one below 0.
--
-- Not modelled: what the system does with the serial port and the sockets, the texts that main and the
-- error macros print, and MD5, which is a copy of another library.
mod Base
pub mod Reader
pub mod Gpio
pub mod Door
pub mod UserDb
pub mod Osdp
pub mod Idesco
pub mod CString
pub mod Epso
pub mod Roger
pub mod Remote
pub mod EventSend
pub mod Program
pub mod Access
pub mod Tools
mod Examples
