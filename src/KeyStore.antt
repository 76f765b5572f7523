-- ===== src/KeyStore.antt =====
-- `struct key_store` of key.h and its functions in key.c. `remotes` is the array, [] for NULL. A
-- `struct key*` into the store is a `KeyRef`.
pub mod Find
pub mod Close
use otpchat.Base.{
  ℕ, zero, suc, ◌+◌, ◌==◌, Option, none, some, List, [], ◌∷◌, ◌++◌, Bytes, ◌>>=◌, if◌then◌else◌,
  equal_bytes, get_elem?, set, not,
}
use otpchat.Disk.{FilePath, Disk, null}
use otpchat.Key.{Key, key_open, key_close}

pub record KeyStore : Type 0 where
  pub local : Key
  pub remotes : List Key
  pub remotes_size : ℕ

pub data KeyRef : Type 0 where
  local_key : KeyRef
  remote_key : ℕ → KeyRef

abbrev pub get_key : KeyStore → KeyRef → Option Key
get_key store local_key = some store.local
get_key store (remote_key i) = get_elem? store.remotes i

abbrev pub set_key : KeyStore → KeyRef → Key → KeyStore
set_key store local_key k = record store { local = k }
set_key store (remote_key i) k = record store { remotes = set store.remotes i k }

unfoldable pub key_store_init : KeyStore → KeyStore
key_store_init store = record {
  local = record store.local { stream = null };
  remotes = [];
  remotes_size = 0;
}

-- The loop that closes `remotes_size` keys from the front of the array.
close_remotes : ℕ → Disk → List Key → Option Disk
close_remotes zero d ks = some d
close_remotes (suc n) d [] = none
close_remotes (suc n) d (k ∷ ks) = do (d', _) ← key_close d k; close_remotes n d' ks

-- With `remotes` NULL the loop is passed over.
close_count : KeyStore → ℕ
close_count store = elim store.remotes [ [] ↦ 0 | _ ↦ store.remotes_size ]

-- The counter is left as it is.
unfoldable pub key_store_close : Disk → KeyStore → Option (Disk × KeyStore)
unfolding close_remotes close_count
key_store_close d store = do
  (d', local') ← key_close d store.local
  d'' ← close_remotes (close_count store) d' store.remotes
  some (d'', record store { local = local'; remotes = [] })

unfoldable pub key_store_open_local : Disk → KeyStore → FilePath → Option (Disk × ℕ × KeyStore)
key_store_open_local d store local_path = do
  (d', closed_local) ← key_close d store.local
  let opening = key_open d' local_path closed_local
  some (d', if not (opening.0 == 0) then 1 else 0, record store { local = opening.1 })

-- `remote` is the local variable that `key_open` fills.
unfoldable pub key_store_open_remote : Disk → KeyStore → Key → FilePath → ℕ × KeyStore
key_store_open_remote d store remote remote_path =
    let opening = key_open d remote_path remote in
    if not (opening.0 == 0) then (1, store) else (
      0,
      record store {
        remotes = store.remotes ++ opening.1 ∷ [];
        remotes_size = store.remotes_size + 1;
      },
    )

-- The search loop at index `i` with `n` keys left; the array must hold as many.
find_loop : ℕ → ℕ → List Key → Bytes → Option (Option ℕ)
find_loop zero i ks id = some none
find_loop (suc n) i [] id = none
find_loop (suc n) i (k ∷ ks) id =
    if equal_bytes k.id id then some (some i) else find_loop n (i + 1) ks id

unfoldable pub key_store_find : KeyStore → Bytes → Option (Option KeyRef)
unfolding find_loop
key_store_find store id = do
  found ← find_loop store.remotes_size 0 store.remotes id
  some (found >>= λ i. some (remote_key i))
