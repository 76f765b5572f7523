-- ===== src/Command.antt =====
-- command.c: the line behind a '/' is cut into words, and the first word picks the command.
pub mod Words
pub mod Port
pub mod Safety
use otpchat.Address.{Address, default_port, parse_address}
use otpchat.Base.Int.{ℤ, to_unsigned}
use otpchat.Base.{
  ℕ, zero, suc, ◌+◌, ◌^◌, Bool, true, false, not, ◌||◌, Option, none, some, List, [], ◌∷◌, ◌++◌,
  Bytes, ◌>>=◌, if◌then◌else◌, ◌==◌, ltb, equal_bytes, length,
}
use otpchat.Chat.{
  text, chat_push_status, chat_begin_connect, chat_begin_listen, chat_disconnect, chat_end_listen,
}
use otpchat.Node.{ConnectCalls, ListenCalls}
use otpchat.State.{ChatState, World}
use otpchat.Text.{split_first, strtol}
use otpchat.User.{id_remote}

-- ARG_SEPARATORS
abbrev pub is_separator : ℕ → Bool
is_separator c = c == b' ' || c == 9

-- The loop over `str`; each round but the last takes a separator, so the length is fuel enough.
pub argv_loop : ℕ → Option Bytes → List Bytes
argv_loop _ none = []
argv_loop zero (some str) = []
argv_loop (suc n) (some str) =
    let cut = split_first is_separator str in
    let more = argv_loop n cut.1 in if length cut.0 == 0 then more else cut.0 ∷ more

unfoldable pub str_to_argv : Bytes → List Bytes
unfolding argv_loop
str_to_argv str = argv_loop (1 + length str) (some str)

-- The results of the system calls that a command may make.
pub record Calls : Type 0 where
  pub connect : ConnectCalls
  pub listen : ListenCalls

-- The address is read before anything changes.
connect_to : Calls → World → ChatState → Option Address → Option (ℕ × ChatState)
connect_to calls w state none = some (2, state)
connect_to calls w state (some addr) = chat_begin_connect calls.connect w state addr

unfoldable pub command_connect : Calls → World → ChatState → List Bytes → Option (ℕ × ChatState)
unfolding connect_to
command_connect calls w state (a ∷ []) = connect_to calls w state (parse_address a)
command_connect calls w state _ = some (2, state)

unfoldable pub command_disconnect : World → ChatState → List Bytes → Option (ℕ × ChatState)
command_disconnect w state [] = chat_disconnect w state id_remote >>= λ state'. some (0, state')
command_disconnect w state (_ ∷ _) = some (2, state)

-- `port` is an `unsigned`: what `strtol` gives is cut to 32 bits before its range is looked at.
checked_port : ℤ × Bytes → Option ℕ
checked_port (number, port_end) =
    let port = to_unsigned 32 number in
    if port == 0 || not (ltb port (2 ^ 16)) || not (length port_end == 0) then none else some port

unfoldable pub listen_port : List Bytes → Option ℕ
unfolding checked_port
listen_port [] = some default_port
listen_port (a ∷ []) = checked_port (strtol a)
listen_port _ = none

listen_on : Calls → World → ChatState → Option ℕ → Option (ℕ × ChatState)
listen_on calls w state none = some (2, state)
listen_on calls w state (some port) = chat_begin_listen calls.listen w state port

unfoldable pub command_listen : Calls → World → ChatState → List Bytes → Option (ℕ × ChatState)
unfolding listen_on
command_listen calls w state argv = listen_on calls w state (listen_port argv)

unfoldable pub command_endlisten : World → ChatState → List Bytes → Option (ℕ × ChatState)
command_endlisten w state [] = chat_end_listen w state >>= λ state'. some (0, state')
command_endlisten w state (_ ∷ _) = some (2, state)

unfoldable pub command_quit : ChatState → List Bytes → ℕ × ChatState
command_quit state [] = (0, record state { running = false })
command_quit state (_ ∷ _) = (2, state)

-- The table, searched by name; `none` where the name is not in it.
command_table : Calls → World → ChatState → Bytes → List Bytes → Option (Option (ℕ × ChatState))
command_table calls w state name argv =
    if equal_bytes name (text "connect")
    then some (command_connect calls w state argv)
    else if equal_bytes name (text "disconnect")
    then some (command_disconnect w state argv)
    else if equal_bytes name (text "listen")
    then some (command_listen calls w state argv)
    else if equal_bytes name (text "endlisten")
    then some (command_endlisten w state argv)
    else if equal_bytes name (text "quit")
    then some (some (command_quit state argv))
    else none

-- A malformed command is reported with the whole line.
report : World → Bytes → ℕ × ChatState → Option (ℕ × ChatState)
report w command_str (status, state) =
    if status == 2
    then (chat_push_status w state (text "Malformed command \"" ++ (command_str ++ text "\""))
        >>= λ state'. some (2, state'))
    else some (status, state)

handle : Calls → World → ChatState → Bytes → List Bytes → Option (ℕ × ChatState)
unfolding command_table report
handle calls w state command_str [] = some (0, state)
handle calls w state command_str (name ∷ argv) = elim (command_table calls w state name argv) [
  | some result ↦ result >>= report w command_str
  | none ↦
      chat_push_status w state (text "Unrecognized command \"" ++ (name ++ text "\"")) >>= λ state'.
      some (1, state')
]

unfoldable pub command_handle : Calls → World → ChatState → Bytes → Option (ℕ × ChatState)
unfolding handle
command_handle calls w state command_str =
    handle calls w state command_str (str_to_argv command_str)
