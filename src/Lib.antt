-- ===== src/Lib.antt =====
-- otpchat: a chat between two peers over TCP, whose messages are encrypted with a one-time pad
-- from key files that both have. This library models the parts of the program that decide what is
-- sent, shown and stored, and proves what they do.
--
-- A user's command line (src/args.c, src/address.c) names a key file to send with, one to receive
-- with, and a peer, or asks for a new key file; src/main.c does what it says. src/key.c opens the
-- files and keeps the store of keys. src/node.c opens the sockets; src/user.c exchanges the ids of
-- the keys over them before a connection counts as made. src/chat.c then frames messages, encrypts
-- them, and puts what arrives together again, and waits for the network and the keyboard in a loop
-- over select; src/ui.c edits the line of input and lays the history out on the screen.
--
-- The files and what they model, each operation under the name it has in the program:
-- - Text: strrchr, strpbrk, strtol and the printing of numbers, as the program uses them.
-- - Address, Args: src/address.c, src/args.c.
-- - Block, Message: src/block.c, src/message.c.
-- - Disk: files and stdio streams. Key, KeyStore: src/key.c.
-- - Node: src/node.c. Exchange: its node_exchange, a round at a time.
-- - User: src/user.c. User.Meeting: two handshakes with each other.
-- - State: struct chat_state of src/chat.h. Chat: status messages, connecting, listening,
--   disconnecting of src/chat.c. Transfer: sending and receiving of src/chat.c. Transfer.Say,
--   Transfer.Hear, Transfer.Session: two peers over one connection. Transfer.Duplex: both
--   directions of it.
-- - Ui: the layout of src/ui.c.
-- - Command: src/command.c.
-- - Input: ui_handle_input of src/ui.c, what a key does.
-- - Draw: count_bytes and the drawing of texts and of the history of src/ui.c, as the list of what
--   is put on the screen. Draw.Screen: the scrollbar, the use of the keys, and the whole of
--   ui_update. Draw.Screen.Start: ui_init and ui_end.
-- - Loop: the rounds of the loop in chat of src/chat.c. Loop.Start: chat_init, chat_end and the
--   whole of chat, and src/main.c.
-- - Base: numbers, byte lists, byte order. Tests: concrete runs.
--
-- State that a function changes through a pointer is an argument and a part of the result. A
-- status is the number that the function returns. The result type is an Option where the C code
-- can be undefined (a second fclose, a read through NULL, a division by zero) or, in Exchange and
-- User, where it waits for the system: `none` stands for these. What the system does is an
-- argument: the results of the calls, and for the loops of node_exchange and key_create a list of
-- rounds. A list that ends before the loop does gives `none`, and for key_create the length of the
-- list that is enough is proved. A stream, a node's address and a socket have a value of their own
-- for what is released, so that a second release is seen. Numbers keep the width that they have in
-- C by an explicit remainder; `size_t` and `long` have 64 bits, and sizes of buffers in memory are
-- not cut. The host is little-endian. A list stands for an array with its length. Allocation does
-- not fail. The header of a new key file is written whole, as key_create takes it to be. A size_t
-- that is passed for the int of a precision is taken for its value.
--
-- The loop of chat is a function of the list of its rounds, each with what `select` found and what
-- the calls of its handlers return; State.Inv says what holds between two rounds. FD_SET and
-- FD_ISSET of -1, which C leaves undefined, are for the loop a parameter of the round, which may
-- say that they are undefined; in node_exchange what FD_ISSET gives is taken for any bit. The
-- handlers use the part of ui_update that changes the state, update_history_box; what it draws,
-- and when that is defined, is in Draw.Screen, and is not a part of the theorems about the loop.
-- The modules named Safety are about the handlers and this invariant.
--
-- The floating-point numbers of the drawing are a parameter, the record Floats, with the laws of
-- rounding that a theorem needs in IsRounding; fractions are an instance. A screen is a list of
-- the calls that draw it, without what ncurses makes of them.
--
-- Not modelled: print_usage, which only prints. The character set is the parameter `mblen`.
pub mod Base
pub mod Text
pub mod Address
pub mod Args
pub mod Node
pub mod Message
pub mod Exchange
pub mod User
pub mod State
pub mod Ui
pub mod Chat
pub mod Transfer
pub mod Block
pub mod Disk
pub mod Key
pub mod KeyStore
pub mod Command
pub mod Input
pub mod Loop
pub mod Draw
pub mod Tests
