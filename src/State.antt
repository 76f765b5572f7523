-- ===== src/State.antt =====
-- `struct chat_state` of chat.h, and what a handler reads of the world around it. An array with its
-- count, as `history` with `history_size`, is a list.
pub mod Inv
pub mod View
pub mod Net
use otpchat.Base.Int.{ℤ}
use otpchat.Base.{ℕ, Bool, Option, List, Bytes}
use otpchat.Block.{Block}
use otpchat.Disk.{Disk}
use otpchat.KeyStore.{KeyStore}
use otpchat.Message.{Message}
use otpchat.User.{User}

pub record ChatState : Type 0 where
  pub keys : KeyStore
  pub local : User
  pub remote : User
  pub history : List Message
  pub history_line : ℕ
  pub history_width : ℕ
  pub history_height : ℤ
  pub input : Block
  pub cursor_index : ℕ
  pub receiving : Block
  pub received_size : ℕ
  pub sending : Block
  pub sent_size : ℕ
  pub running : Bool

-- `mblen` of the locale: the bytes of the first character, 0 at a NUL, `none` for -1. The screen's
-- size is what `getmaxyx` gives.
pub record Terminal : Type 0 where
  pub mblen : Bytes → Option ℕ
  pub width : ℕ
  pub height : ℕ

-- `now` is what `time` returns. `fresh` is what `realloc` leaves in the bytes that it adds.
pub record World : Type 0 where
  pub terminal : Terminal
  pub now : ℕ
  pub disk : Disk
  pub fresh : ℕ → ℕ
