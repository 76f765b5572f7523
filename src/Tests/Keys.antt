-- ===== src/Tests/Keys.antt =====
-- Key files, the pad and the store.
use otpchat.Base.{
  ℕ, ◌+◌, ◌≡◌, refl, some, none, Option, true, false, List, [], ◌∷◌, Bytes, ◌>>=◌, arith, length,
  replicate, length-replicate,
}
use otpchat.Base.Endian.{to_le}
use otpchat.Block.{block_of}
use otpchat.Disk.{FilePath, Disk, null, opened}
use otpchat.Key.Create.{IsFull, key_create-KeyFile}
use otpchat.Key.Files.{layout, KeyFile, key_open-key_close}
use otpchat.Key.Pad.{Pad, KeyAt, advance, encrypt_all, encrypt_all_lem, decrypt-encrypt}
use otpchat.Key.Stale.{key_close-key_create_failed}
use otpchat.Key.Xor.{xor_with}
use otpchat.Key.{Key, Round, key_seek, key_open, key_close, key_create, encrypt, decrypt}
use otpchat.KeyStore.Close.{
  saved, key_store_close_total, key_store_close-key_store_open_local_failed,
}
use otpchat.KeyStore.Find.{Finds, key_store_find_lem}
use otpchat.KeyStore.{KeyStore, KeyRef, key_store_find, key_store_close, key_store_open_local}

abbrev pub path : FilePath
path = b'k' ∷ []

abbrev pub pad_bytes : Bytes
pad_bytes = 11 ∷ 22 ∷ 33 ∷ 44 ∷ 55 ∷ []

abbrev pub id : Bytes
id = replicate 16 7

abbrev pub file : Bytes
file = layout 1 id pad_bytes

abbrev pub disk : Disk
disk p = some file

-- A file that is no key file.
abbrev pub junk : Disk
junk p = some (1 ∷ 2 ∷ [])

abbrev pub fresh_key : Key
fresh_key = record { stream = null; size = 0; id = replicate 16 0; head = 0 }

abbrev pub key_at : ℕ → Key
key_at n = record { stream = opened path (n + 32); size = 5; id = id; head = n }

pub key_at_1 : KeyAt disk (key_at 1) pad_bytes
unfolding to_le
key_at_1 = record {
  path = path;
  open_at = refl;
  data_is = refl;
  head_fits = omega arith;
  data_fits = omega arith;
}

pub key_at_4 : KeyAt disk (key_at 4) pad_bytes
unfolding to_le
key_at_4 = record {
  path = path;
  open_at = refl;
  data_is = refl;
  head_fits = omega arith;
  data_fits = omega arith;
}

pub Pad-at_1 : Pad disk (key_at 1) (22 ∷ 33 ∷ 44 ∷ 55 ∷ [])
unfolding to_le
Pad-at_1 = record { path = path; pos = 33; open_at = refl; rest_is = refl }

abbrev pub message : Bytes
message = b'h' ∷ b'i' ∷ []

decrypt-encrypt_example :
    (cs : Bytes) × (k₁ : Key) × (k₂ : Key) × (encrypt disk (key_at 1) (block_of message)
      ≡ some (0, k₁, block_of cs))
    × ((key_seek (key_at 4) 1 >>= λ k. decrypt disk k (block_of cs))
        ≡ some (0, k₂, block_of message))
    × (k₁.head ≡ 3)
    × (k₂.head ≡ 3)
decrypt-encrypt_example = decrypt-encrypt message key_at_1 key_at_4 (omega arith)

encrypt_all_lem_example :
    (k : Key) × (encrypt_all disk (key_at 1) (message ∷ (5 ∷ []) ∷ [])
      ≡ some (k, xor_with (22 ∷ 33 ∷ 44 ∷ 55 ∷ []) (b'h' ∷ b'i' ∷ 5 ∷ [])))
    × Pad disk k (55 ∷ [])
encrypt_all_lem_example = encrypt_all_lem (message ∷ (5 ∷ []) ∷ []) Pad-at_1 (omega arith)

is_KeyFile : KeyFile disk path 1 id pad_bytes
is_KeyFile = record { file_is = refl; id_length = refl; head_fits = omega arith }

key_open-key_close_example :
    (d : Disk) × (key_close disk (advance (key_open disk path fresh_key).1 2)
      ≡ some (d, record (advance (key_open disk path fresh_key).1 2) { stream = null }))
    × (key_open d path fresh_key
        ≡ (0, record { stream = opened path 35; size = 5; id = id; head = 3 }))
key_open-key_close_example =
    key_open-key_close fresh_key fresh_key 2 is_KeyFile refl refl (omega arith) (omega arith)

junk_fails : (key_open junk path fresh_key).0 ≡ 1
unfolding key_open
junk_fails = refl

-- The disk takes nothing.
abbrev disk_full : List Round
disk_full = record { random = some (9 ∷ []); wrote = false } ∷ []

abbrev created_or : Option (Disk × ℕ × Key) → Disk × ℕ × Key
created_or none = (disk, 0, fresh_key)
created_or (some r) = r

create_fails :
    key_create disk path true id disk_full 5 fresh_key
    ≡ some (
      (created_or (key_create disk path true id disk_full 5 fresh_key)).0,
      1,
      (created_or (key_create disk path true id disk_full 5 fresh_key)).2,
    )
unfolding key_create
create_fails = refl

key_close-key_create_failed_example :
    key_close
      (created_or (key_create disk path true id disk_full 5 fresh_key)).0
      (created_or (key_create disk path true id disk_full 5 fresh_key)).2
    ≡ none
key_close-key_create_failed_example =
    key_close-key_create_failed disk
      (created_or (key_create disk path true id disk_full 5 fresh_key)).0 path id disk_full 5
      fresh_key (created_or (key_create disk path true id disk_full 5 fresh_key)).2 create_fails

-- One block of the random device.
abbrev pub one_block : Round
one_block = record { random = some (replicate 4096 9); wrote = true }

pub block_IsFull : IsFull one_block
block_IsFull =
    let nine : ℕ = 9 in (replicate 4096 9, refl, omega (arith, length-replicate 4096 nine), refl)

key_create-KeyFile_example :
    (d : Disk) × (k : Key) × (key_data : Bytes) × (key_create disk path true id
        (one_block ∷ [])
        5
        fresh_key
      ≡ some (d, 0, k))
    × KeyFile d path 0 k.id key_data
    × (length key_data ≡ 5)
    × (k.size ≡ 5)
    × (k.head ≡ 0)
    × KeyAt d k key_data
    × (k.stream ≡ opened path 32)
key_create-KeyFile_example =
    key_create-KeyFile disk path id (one_block ∷ []) 5 fresh_key refl (block_IsFull, tt)
      (omega arith) (omega arith)

abbrev pub store : KeyStore
store = record { local = key_at 1; remotes = key_at 4 ∷ []; remotes_size = 1 }

key_store_find_lem_example :
    (r : Option KeyRef) × (key_store_find store id ≡ some r) × Finds id (key_at 4 ∷ []) r
key_store_find_lem_example = key_store_find_lem store id refl

key_store_close_total_example :
    key_store_close disk store
    ≡ some (
      saved disk (key_at 1 ∷ key_at 4 ∷ []),
      record store { local = record (key_at 1) { stream = null }; remotes = [] },
    )
key_store_close_total_example =
    key_store_close_total disk store refl (λ e. ground arith) ((λ e. ground arith), tt)

abbrev empty_store : KeyStore
empty_store = record { local = fresh_key; remotes = []; remotes_size = 0 }

key_store_close-key_store_open_local_failed_example :
    (s : KeyStore) × (key_store_open_local junk empty_store path ≡ some (junk, 1, s))
    × (key_store_close junk s ≡ none)
key_store_close-key_store_open_local_failed_example =
    key_store_close-key_store_open_local_failed junk empty_store path (λ e. ground arith) refl
      junk_fails
