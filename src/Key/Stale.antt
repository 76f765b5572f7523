-- ===== src/Key/Stale.antt =====
-- Streams that `fclose` has freed. `key_open` and `key_create` leave one in `k->stream` when they
-- give up after the file is open, and `key_close` then uses it.
use otpchat.Base.{ℕ, ◌≡◌, ◌≢◌, none, some, List, Bytes, arith, true}
use otpchat.Disk.{FilePath, Disk, null}
use otpchat.Key.{Key, Round, key_open, key_close, key_create}

pub key_close_null : (d : Disk) (k : Key) → k.stream ≡ null → key_close d k ≡ some (d, k)
unfolding key_close
key_close_null d k e = ground arith

-- Whenever the file is there and `key_open` fails, closing the key that it leaves is undefined: the
-- header is not that of a key, is too short, or holds a head that `fseek` refuses.
pub key_close-key_open_failed :
    (d : Disk) (path : FilePath) (k : Key)
    → d path ≢ none
    → (key_open d path k).0 ≡ 1
    → key_close d (key_open d path k).1 ≡ none
unfolding key_open key_close
key_close-key_open_failed d path k there failed = ground arith

-- Whenever `key_create` fails after it has opened the file, closing the key is undefined.
pub key_close-key_create_failed :
    (d d' : Disk) (path : FilePath) (id_random : Bytes) (rounds : List Round) (sz : ℕ) (k k' : Key)
    → key_create d path true id_random rounds sz k ≡ some (d', 1, k')
    → key_close d' k' ≡ none
unfolding key_create key_close
key_close-key_create_failed d d' path id_random rounds sz k k' failed = ground arith

-- A file that cannot be opened leaves NULL, which `key_close` passes over.
pub key_close-key_open_missing :
    (d : Disk) (path : FilePath) (k : Key)
    → d path ≡ none
    → ((key_open d path k).0 ≡ 1)
      × (key_close d (key_open d path k).1 ≡ some (d, (key_open d path k).1))
unfolding key_open key_close
key_close-key_open_missing d path k missing = ground arith
