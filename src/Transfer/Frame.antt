-- ===== src/Transfer/Frame.antt =====
-- The bytes of a message on the wire, cut and put together.
use otpchat.Base.Endian.{to_be, from_be, length-to_be, from_be-to_be}
use otpchat.Base.{
  ℕ, ◌+◌, ◌^◌, ◌≤◌, ◌<◌, ◌≡◌, refl, sym, ap, ap₂, ◌∙◌, ◌++◌, Bytes, arith, length, take, drop,
  length-append, take-append, drop-append, take_all, overwrite, take-add, take-overwrite,
  drop-overwrite, some, get_elem?-set_self,
}
use otpchat.Key.{Key}
use otpchat.KeyStore.{KeyStore, KeyRef, local_key, remote_key, get_key, set_key}
use otpchat.Transfer.{header}

pub length-header : (size head : ℕ) → length (header size head) ≡ 12
length-header size head =
    omega
      (arith, length-append (to_be 4 size) (to_be 8 head), length-to_be 4 size, length-to_be 8 head)

pub header_size : (size head : ℕ) → size < 2 ^ 32 → from_be (take 4 (header size head)) ≡ size
header_size size head h =
    ap from_be (take-append 4 (to_be 4 size) (to_be 8 head) (sym (length-to_be 4 size)))
    ∙ from_be-to_be 4 size h

pub header_head :
    (size head : ℕ) → head < 2 ^ 64 → from_be (take 8 (drop 4 (header size head))) ≡ head
header_head size head h =
    ap (λ (bs : Bytes). from_be (take 8 bs))
      (drop-append 4 (to_be 4 size) (to_be 8 head) (sym (length-to_be 4 size)))
    ∙ ap from_be (take_all 8 (to_be 8 head) (omega (arith, length-to_be 8 head)))
    ∙ from_be-to_be 8 head h

-- A message on the wire.
abbrev pub frame : ℕ → Bytes → Bytes
frame head cs = header (length cs) head ++ cs

pub length-frame : (head : ℕ) (cs : Bytes) → length (frame head cs) ≡ 12 + length cs
length-frame head cs =
    omega (arith, length-append (header (length cs) head) cs, length-header (length cs) head)

pub take-frame : (head : ℕ) (cs : Bytes) → take 12 (frame head cs) ≡ header (length cs) head
take-frame head cs =
    take-append 12 (header (length cs) head) cs (sym (length-header (length cs) head))

pub drop-frame : (head : ℕ) (cs : Bytes) → drop 12 (frame head cs) ≡ cs
drop-frame head cs =
    drop-append 12 (header (length cs) head) cs (sym (length-header (length cs) head))

-- A buffer that holds the first `at` bytes of `whole` holds `length got` more after they are written
-- behind them.
pub take_filled :
    (at : ℕ) (got xs whole : Bytes)
    → at + length got ≤ length xs
    → take at xs ≡ take at whole
    → got ≡ take (length got) (drop at whole)
    → take (at + length got) (overwrite at got xs) ≡ take (at + length got) whole
take_filled at got xs whole fits front next =
    take-add at (length got) (overwrite at got xs)
    ∙ ap₂ ◌++◌ (take-overwrite at got xs (omega arith) ∙ front) (
        ap (take (length got)) (drop-overwrite at got xs (omega arith))
        ∙ take-append (length got) got (drop (at + length got) xs) refl
        ∙ next)
    ∙ sym (take-add at (length got) whole)

pub get-set_key :
    (store : KeyStore) (ref : KeyRef) {k : Key} (k' : Key)
    → get_key store ref ≡ some k
    → get_key (set_key store ref k') ref ≡ some k'
get-set_key store local_key k' h = refl
get-set_key store (remote_key i) k' h = get_elem?-set_self store.remotes i k' h
