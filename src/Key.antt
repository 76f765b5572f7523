-- ===== src/Key.antt =====
-- key.h and key.c: key files, the store of keys, and the one-time pad. On a little-endian host
-- the eight bytes of `head` in memory are those of the file.
pub mod Xor
pub mod Pad
pub mod Create
pub mod Files
pub mod Stale
pub mod Total
use otpchat.Base.Endian.{to_le, from_le}
use otpchat.Base.{
  ℕ, zero, suc, ◌+◌, ◌-◌, ◌%◌, ◌^◌, Bool, true, false, not, ◌||◌, Option, none, some, List, [], ◌∷◌,
  ◌++◌, Bytes, ◌>>=◌, if◌then◌else◌, ◌==◌, ltb, equal_bytes, length, take, overwrite, min, bit_xor,
}
use otpchat.Block.{Block}
use otpchat.Disk.{
  FilePath, Disk, set_file, Stream, null, closed, opened, read_at, write_file, seek_fits,
}

-- "OTPCHAT0"
abbrev pub key_magic : Bytes
key_magic = b'O' ∷ b'T' ∷ b'P' ∷ b'C' ∷ b'H' ∷ b'A' ∷ b'T' ∷ b'0' ∷ []

abbrev pub key_head_offset : ℕ
key_head_offset = 8

abbrev pub key_id_offset : ℕ
key_id_offset = 16

abbrev pub key_data_offset : ℕ
key_data_offset = 32

abbrev pub buffer_size : ℕ
buffer_size = 4096

pub record Key : Type 0 where
  pub stream : Stream
  pub size : ℕ
  pub id : Bytes
  pub head : ℕ

abbrev refuse : Key → ℕ × Key
refuse k = (1, record k { stream = closed })

-- What follows the four reads: `head` and `id` are set, and the stream is moved to the key data.
seek_data : FilePath → Bytes → Key → ℕ × Key
seek_data path c k =
    let sized = record k { size = length c - key_data_offset } in
    let offset = (k.head + key_data_offset) % 2 ^ 64 in
    if seek_fits offset then (0, record sized { stream = opened path offset }) else refuse sized

-- The header: magic, head and id. A short read leaves what it got in the field.
read_header : Disk → FilePath → Bytes → Key → ℕ × Key
unfolding seek_data
read_header d path c k =
    let magic = read_at d path 0 8 in
    let head_bytes = read_at d path key_head_offset 8 in
    let k1 = record k { head = from_le (overwrite 0 head_bytes (to_le 8 k.head)) } in
    let id_bytes = read_at d path key_id_offset 16 in
    let k2 = record k1 { id = overwrite 0 id_bytes k.id } in
    if not (length magic == 8) || not (equal_bytes magic key_magic)
    then refuse k
    else if not (length head_bytes == 8)
    then refuse k1
    else if not (length id_bytes == 16)
    then refuse k2
    else seek_data path c k2

-- The status that `key_open` returns, and what is left in `*k`.
unfoldable pub key_open : Disk → FilePath → Key → ℕ × Key
unfolding read_header
key_open d path k = elim (d path) [
  | none ↦ (1, record k { stream = null })
  | some c ↦ read_header d path c k
]

-- One round of the loop of `key_create`: what `read` has at hand (`none` is -1), and whether
-- `fwrite` takes it all.
pub record Round : Type 0 where
  pub random : Option Bytes
  pub wrote : Bool

-- `fault` is a write from beyond the buffer, `unfinished` a loop that has more rounds to go.
pub data Creation : Type 0 where
  done failed : Bytes → Creation
  fault unfinished : Creation

-- `bsize<=0` holds at 0 alone, since `bsize` is unsigned.
create_step : (Bytes → Creation) → Bytes → Option Bytes → Bool → Creation
create_step next c none wrote = fault
create_step next c (some []) wrote = failed c
create_step next c (some bs) true = next bs
create_step next c (some bs) false = failed c

create_loop : ℕ → ℕ → Bytes → List Round → Creation
create_loop sz written c [] = if ltb written sz then unfinished else done c
create_loop sz written c (r ∷ rs) =
    let bsize = min buffer_size (sz - written) in
    let got = r.random >>= λ bs. some (take bsize bs) in
    let next = λ (bs : Bytes). create_loop sz (written + length bs) (c ++ bs) rs in
    if ltb written sz then create_step next c got r.wrote else done c

-- `key_create` on a path that can be opened for writing, or not. `id_random` is what `read` puts
-- into the id; its result is not looked at. `none` is undefined behaviour or a loop that waits.
created : Disk → FilePath → ℕ → Key → Creation → Option (Disk × ℕ × Key)
created d path sz k (done c) =
    some (set_file d path c, 0, record k { stream = opened path key_data_offset; size = sz })
created d path sz k (failed c) = some (set_file d path c, 1, record k { stream = closed })
created d path sz k _ = none

-- The header, whose writes the program does not check, is taken to be written whole.
unfoldable pub key_create :
    Disk → FilePath → Bool → Bytes → List Round → ℕ → Key → Option (Disk × ℕ × Key)
unfolding created create_loop create_step
key_create d path openable id_random rounds sz k =
    let k' = record k { head = 0; id = overwrite 0 (take 16 id_random) k.id } in
    let header = key_magic ++ (to_le 8 0 ++ k'.id) in
    if openable
    then created d path sz k' (create_loop sz 0 header rounds)
    else some (d, 1, record k { stream = null })

-- Saving the head and closing. `fclose` of a stream that is closed is undefined.
unfoldable pub key_close : Disk → Key → Option (Disk × Key)
key_close d k = elim k.stream [
  | null ↦ some (d, k)
  | closed ↦ none
  | opened path _ ↦
      some (write_file d path key_head_offset (to_le 8 k.head), record k { stream = null })
]

-- `fseek` wants a stream. An offset that it refuses leaves the position, and the head is set.
unfoldable pub key_seek : Key → ℕ → Option Key
key_seek k new_head =
    let offset = (new_head + key_data_offset) % 2 ^ 64 in
    elim k.stream [
      | null ↦ none
      | closed ↦ none
      | opened path pos ↦ some (record k {
        stream = opened path (if seek_fits offset then offset else pos);
        head = new_head;
      })
    ]

-- The status, the key behind what was read, and `key_block->data` up to its size.
unfoldable pub key_get_block : Disk → Key → ℕ → Option (ℕ × Key × Bytes)
key_get_block d k bytes = elim k.stream [
  | null ↦ none
  | closed ↦ none
  | opened path pos ↦
      let got = read_at d path pos bytes in
      let k' = record k {
        stream = opened path (pos + length got);
        head = (k.head + length got) % 2 ^ 64;
      } in
      some (if length got == bytes then 0 else 1, k', got)
]

-- The loop of `encrypt`; a byte beyond either buffer is undefined.
pub xor_loop : ℕ → Bytes → Bytes → Option Bytes
xor_loop zero ks ms = some ms
xor_loop (suc n) (k ∷ ks) (m ∷ ms) = do rest ← xor_loop n ks ms; some (bit_xor k m ∷ rest)
xor_loop (suc n) _ _ = none

-- `message->data`, NULL only for an empty message.
xor_block : Bytes → Block → Option Block
unfolding xor_loop
xor_block key_block message = elim message.bytes [
  | none ↦ if message.size == 0 then some message else none
  | some ms ↦
      xor_loop message.size key_block ms >>= λ out. some (record message { bytes = some out })
]

unfoldable pub encrypt : Disk → Key → Block → Option (ℕ × Key × Block)
unfolding key_get_block xor_block
encrypt d k message = do
  (status, k', key_block) ← key_get_block d k message.size
  if not (status == 0)
      then some (1, k', message)
      else do out ← xor_block key_block message; some (0, k', out)

unfoldable pub decrypt : Disk → Key → Block → Option (ℕ × Key × Block)
unfolding encrypt
decrypt d k message = encrypt d k message
