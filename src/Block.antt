-- ===== src/Block.antt =====
-- block.h and block.c. `bytes` is what `data` points to, `none` for NULL. Allocation succeeds, and
-- `malloc(0)` gives a pointer that is not NULL.
use otpchat.Base.{ℕ, ◌≡◌, ◌⊎◌, Option, none, some, [], Bytes, length, take, replicate}

pub record Block : Type 0 where
  pub bytes : Option Bytes
  pub size : ℕ

abbrev pub null_block : Block
null_block = record { bytes = none; size = 0 }

abbrev pub block_of : Bytes → Block
block_of xs = record { bytes = some xs; size = length xs }

-- The bytes of a block that is known not to be NULL.
abbrev pub content : Block → Bytes
content b = elim b.bytes [ none ↦ [] | some xs ↦ xs ]

-- Either NULL and empty, or a buffer of exactly `size` bytes.
abbrev pub IsBlock : Block → Type 0
IsBlock b = (b ≡ null_block) ⊎ ((xs : Bytes) × (b ≡ block_of xs))

unfoldable pub block_create_from_str : Bytes → Block
block_create_from_str str = record { bytes = some (take (length str) str); size = length str }

unfoldable pub block_create : ℕ → Block
block_create size = record { bytes = some (replicate size 0); size = size }

-- `memcpy(dst, src, size)` into a buffer of that size: NULL, or a source shorter than `size`, is
-- undefined.
unfoldable pub block_clone : Block → Option Block
block_clone src = elim src.bytes [
  | none ↦ none
  | some xs ↦ some (record { bytes = some (take src.size xs); size = src.size })
]

unfoldable pub free_block : Block → Block
free_block b = elim b.bytes [ none ↦ b | some _ ↦ null_block ]
