-- ===== src/Transfer/Buffers.antt =====
-- What is left of a buffer that is freed.
use otpchat.Base.{ℕ, ◌≡◌, refl, inl, inr, Bytes}
use otpchat.Block.{Block, null_block, block_of, free_block}
use otpchat.State.Inv.{ReceiveInv, SendInv}
use otpchat.Transfer.{header}

pub freed_block : (b : Block) (xs : Bytes) → b ≡ block_of xs → free_block b ≡ null_block
unfolding free_block
freed_block b xs e = rw e refl

pub freed_send : (b : Block) (count : ℕ) → SendInv b count → free_block b ≡ null_block
unfolding free_block
freed_send b count (inl e) = rw e refl
freed_send b count (inr (xs, e, fits)) = freed_block b xs e

pub freed_is_null : (b : Block) (count : ℕ) → ReceiveInv b count → free_block b ≡ null_block
unfolding free_block
freed_is_null b count (inl e) = rw e refl
freed_is_null b count (inr (xs, e, header, fits)) = freed_block b xs e
