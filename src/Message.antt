-- ===== src/Message.antt =====
-- message.h and message.c. `now` is what `time` returns.
use otpchat.Base.{ℕ, Option, some, Bytes, ◌>>=◌}
use otpchat.Block.{Block, null_block, block_create_from_str, block_clone, free_block}

pub record Message : Type 0 where
  pub id : ℕ
  pub timestamp : ℕ
  pub text : Block

unfoldable pub message_create : ℕ → ℕ → Message
message_create now id = record { id = id; timestamp = now; text = null_block }

unfoldable pub message_create_from_str : ℕ → ℕ → Bytes → Message
message_create_from_str now id str = record {
  id = id;
  timestamp = now;
  text = block_create_from_str str;
}

unfoldable pub message_create_from_block : ℕ → ℕ → Block → Option Message
message_create_from_block now id text = do
  cloned ← block_clone text
  some (record { id = id; timestamp = now; text = cloned })

unfoldable pub free_message : Message → Message
free_message msg = record { id = 0; timestamp = 0; text = free_block msg.text }
