-- ===== src/KeyStore/Close.antt =====
-- Opening and closing the store: what stays well-formed, and what goes wrong after a failure.
use otpchat.Base.{
  ℕ, zero, suc, ◌≡◌, ◌≢◌, refl, sym, ap, ◌∙◌, none, some, List, [], ◌∷◌, arith, length,
  length-append,
}
use otpchat.Disk.{FilePath, Disk, Stream, null, closed, opened, write_file}
use otpchat.Key.Stale.{key_close_null, key_close-key_open_failed}
use otpchat.Base.Endian.{to_le}
use otpchat.Key.{Key, key_head_offset, key_open, key_close}
use otpchat.KeyStore.Find.{IsStore}
use otpchat.KeyStore.{
  KeyStore, key_store_close, close_count, close_remotes, key_store_open_local,
  key_store_open_remote,
}

-- No stream of the store has been freed.
abbrev pub AllLive : List Key → Type 0
AllLive [] = Unit
AllLive (k ∷ ks) = (k.stream ≢ closed) × AllLive ks

-- What is on the disk once the keys have been closed, in their order: each open key has its head
-- written into its file.
abbrev pub saved : Disk → List Key → Disk
saved d [] = d
saved d (k ∷ ks) =
    saved
      (elim k.stream [ opened path _ ↦ write_file d path key_head_offset (to_le 8 k.head) | _ ↦ d ])
      ks

key_close_live :
    (d : Disk) (k : Key)
    → k.stream ≢ closed
    → key_close d k ≡ some (saved d (k ∷ []), record k { stream = null })
unfolding key_close
key_close_live d k live = by_stream k.stream refl
  where
    by_stream :
        (s : Stream)
        → k.stream ≡ s
        → key_close d k ≡ some (saved d (k ∷ []), record k { stream = null })
    by_stream null e =
        key_close_null d k e ∙ ap (λ (s : Stream). some (d, record k { stream = s })) e ∙ rw e refl
    by_stream closed e = absurd (live e)
    by_stream (opened path pos) e = rw e refl

close_remotes_live :
    (n : ℕ) (d : Disk) (ks : List Key)
    → length ks ≡ n
    → AllLive ks
    → close_remotes n d ks ≡ some (saved d ks)
unfolding close_remotes
close_remotes_live zero d [] e live = refl
close_remotes_live zero d (k ∷ ks) e live = absurd (omega arith)
close_remotes_live (suc n) d [] e live = absurd (omega arith)
close_remotes_live (suc n) d (k ∷ ks) e (here, live) =
    rw (key_close_live d k here) (close_remotes_live n (saved d (k ∷ [])) ks (omega arith) live)

counted : (store : KeyStore) → IsStore store → length store.remotes ≡ close_count store
counted store h = by_array store.remotes refl
  where
    by_array : (ks : List Key) → store.remotes ≡ ks → length store.remotes ≡ close_count store
    by_array [] e = unfold close_count in rw (e, close_count)
    by_array (k ∷ ks) e = unfold close_count in rw (e, close_count) (ap length (sym e) ∙ h)

-- Opening a remote key keeps the counter right, whether it succeeds or not.
pub key_store_open_remote-IsStore :
    (d : Disk) (store : KeyStore) (remote : Key) (path : FilePath)
    → IsStore store
    → IsStore (key_store_open_remote d store remote path).1
unfolding key_store_open_remote
key_store_open_remote-IsStore d store remote path h =
    ground (arith, length-append store.remotes ((key_open d path remote).1 ∷ []))

-- A store that counts its keys and holds no freed stream closes. The local key and each remote key
-- that is open, in this order, has its head written into its file; the local stream is NULL then, and
-- no remote key is left.
pub key_store_close_total :
    (d : Disk) (store : KeyStore)
    → IsStore store
    → store.local.stream ≢ closed
    → AllLive store.remotes
    → key_store_close d store
      ≡ some (
        saved d (store.local ∷ store.remotes),
        record store { local = record store.local { stream = null }; remotes = [] },
      )
unfolding key_store_close
key_store_close_total d store h here live =
    let local_closes = key_close_live d store.local here in
    let rest =
      close_remotes_live (close_count store) (saved d (store.local ∷ [])) store.remotes
        (counted store h) live in
    rw (local_closes, rest) refl

-- When, on a store whose local key is not open, `key_store_open_local` fails on a file that is there, `key_store_close` is undefined: it
-- closes the stream a second time. `chat_init` calls the two in this order.
pub key_store_close-key_store_open_local_failed :
    (d : Disk) (store : KeyStore) (path : FilePath)
    → d path ≢ none
    → store.local.stream ≡ null
    → (key_open d path store.local).0 ≡ 1
    → (store' : KeyStore) × (key_store_open_local d store path ≡ some (d, 1, store'))
      × (key_store_close d store' ≡ none)
unfolding key_store_open_local key_store_close
key_store_close-key_store_open_local_failed d store path there fresh failed = (
  record store { local = (key_open d path store.local).1 },
  rw (key_close_null d store.local fresh) (rw failed),
  rw (key_close-key_open_failed d path store.local there failed),
)
