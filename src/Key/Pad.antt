-- ===== src/Key/Pad.antt =====
-- `encrypt` and `decrypt` against the pad: the bytes of the key file that are not used yet.
use native.Mathlib.Nat.{add_comm}
use otpchat.Base.{
  ℕ, ◌+◌, ◌%◌, ◌^◌, ◌≤◌, ◌<◌, ◌≡◌, refl, sym, ap, ◌∙◌, some, Option, List, [], ◌∷◌, ◌++◌, Bytes,
  arith, ◌>>=◌, min, length, take, drop, length-take, length-drop, length-append, drop-drop,
  take_all, if◌then◌else◌, ◌==◌, ==_refl, lt→ltb, false,
}
use otpchat.Block.{block_of, content}
use otpchat.Disk.{FilePath, Disk, contents, Stream, null, closed, opened}
use otpchat.Key.Xor.{
  xor_with, xor_loop-xor_with, xor_with_twice, xor_with-nil, length-xor_with, xor_with-take,
  xor_with-append,
}
use otpchat.Key.{Key, key_data_offset, key_seek, key_get_block, encrypt, decrypt}

-- `rest` is what the stream of `k` has still to give.
pub record Pad (d : Disk) (k : Key) (rest : Bytes) : Type 0 where
  pub path : FilePath
  pub pos : ℕ
  pub open_at : k.stream ≡ opened path pos
  pub rest_is : drop pos (contents d path) ≡ rest

abbrev pub advance_stream : Stream → ℕ → Stream
advance_stream (opened path pos) n = opened path (pos + n)
advance_stream null n = null
advance_stream closed n = closed

-- The key after `n` bytes of it are used.
abbrev pub advance : Key → ℕ → Key
advance k n = record k { stream = advance_stream k.stream n; head = (k.head + n) % 2 ^ 64 }

pub Pad-advance :
    {d : Disk} {k : Key} {rest : Bytes} (n : ℕ) → Pad d k rest → Pad d (advance k n) (drop n rest)
Pad-advance n p = record {
  path = p.path;
  pos = p.pos + n;
  open_at = ap (λ s. advance_stream s n) p.open_at;
  rest_is = sym (drop-drop n p.pos _) ∙ ap (drop n) p.rest_is;
}

-- What `key_get_block` reads, and the key that it leaves.
key_get_block_lem :
    {d : Disk} {k : Key} {rest : Bytes} (n : ℕ)
    → Pad d k rest
    → key_get_block d k n
      ≡ some
          (if min n (length rest) == n then 0 else 1, advance k (min n (length rest)), take n rest)
unfolding key_get_block
key_get_block_lem {d} {k} {rest} n p = rw (p.open_at, p.rest_is, length-take n rest)

key_get_block_full :
    {d : Disk} {k : Key} {rest : Bytes} (n : ℕ)
    → Pad d k rest
    → n ≤ length rest
    → key_get_block d k n ≡ some (0, advance k n, take n rest)
key_get_block_full {rest} n p h =
    let all : min n (length rest) ≡ n = omega arith in key_get_block_lem n p ∙ rw (all, ==_refl n)

key_get_block_short :
    {d : Disk} {k : Key} {rest : Bytes} (n : ℕ)
    → Pad d k rest
    → length rest < n
    → key_get_block d k n ≡ some (1, advance k (length rest), rest)
key_get_block_short {rest} n p h =
    let part : min n (length rest) ≡ length rest = omega arith in
    let differs : (length rest == n) ≡ false = ground arith in
    key_get_block_lem n p ∙ rw (part, differs, take_all n rest (omega arith))

-- With enough key left, `encrypt` succeeds: it combines the message with the next bytes of the
-- key file, and moves the key on by exactly as many.
pub encrypt_lem :
    {d : Disk} {k : Key} {rest : Bytes} (ms : Bytes)
    → Pad d k rest
    → length ms ≤ length rest
    → encrypt d k (block_of ms) ≡ some (0, advance k (length ms), block_of (xor_with rest ms))
unfolding encrypt
encrypt_lem {d} {k} {rest} ms p h = rw (
  key_get_block_full (length ms) p h,
  xor_loop-xor_with (length ms) (take (length ms) rest) ms refl
      (omega (arith, length-take (length ms) rest)),
  xor_with-take (length ms) rest ms (omega arith),
  length-xor_with rest ms,
)

-- With too little key left, `encrypt` fails, leaves the message as it is, and uses the key up.
pub encrypt_short :
    {d : Disk} {k : Key} {rest : Bytes} (ms : Bytes)
    → Pad d k rest
    → length rest < length ms
    → encrypt d k (block_of ms) ≡ some (1, advance k (length rest), block_of ms)
unfolding encrypt
encrypt_short {d} {k} {rest} ms p h = rw (key_get_block_short (length ms) p h)

-- A stream of messages through one key: the ciphertexts in one row, and the key behind them.
abbrev pub encrypt_all : Disk → Key → List Bytes → Option (Key × Bytes)
encrypt_all d k [] = some (k, [])
encrypt_all d k (m ∷ ms) = do
  (_, k', c) ← encrypt d k (block_of m)
  (k'', cs) ← encrypt_all d k' ms
  some (k'', content c ++ cs)

abbrev pub concat : List Bytes → Bytes
concat [] = []
concat (m ∷ ms) = m ++ concat ms

-- Successive messages take successive bytes of the key, and no byte of it twice: together they
-- are combined with one stretch of the key, as the one message of all their bytes would be.
pub encrypt_all_lem :
    {d : Disk} {k : Key} {rest : Bytes} (ms : List Bytes)
    → Pad d k rest
    → length (concat ms) ≤ length rest
    → (k' : Key) × (encrypt_all d k ms ≡ some (k', xor_with rest (concat ms)))
      × Pad d k' (drop (length (concat ms)) rest)
encrypt_all_lem {k} {rest} [] p h = (k, rw (xor_with-nil rest), p)
encrypt_all_lem {d} {k} {rest} (m ∷ ms) p h =
    let later =
      encrypt_all_lem {d = d} {k = advance k (length m)} {rest = drop (length m) rest} ms
        (Pad-advance (length m) p)
        (omega (arith, length-append m (concat ms), length-drop (length m) rest)) in
    (
      later.0,
      rw (encrypt_lem m p here, later.1, xor_with-append rest m (concat ms)),
      rw (length-append m (concat ms), ← drop-drop (length (concat ms)) (length m) rest) later.2,
    )
  where
    here : length m ≤ length rest
    here = omega (arith, length-append m (concat ms))

-- The stream of `k` stands at its head, over a file whose key bytes are `key_data`.
pub record KeyAt (d : Disk) (k : Key) (key_data : Bytes) : Type 0 where
  pub path : FilePath
  pub open_at : k.stream ≡ opened path (k.head + key_data_offset)
  pub data_is : drop key_data_offset (contents d path) ≡ key_data
  pub head_fits : k.head + key_data_offset < 2 ^ 63
  pub data_fits : length key_data + key_data_offset < 2 ^ 63

pub KeyAt-Pad :
    {d : Disk} {k : Key} {key_data : Bytes} → KeyAt d k key_data → Pad d k (drop k.head key_data)
KeyAt-Pad {d} {k} a = record {
  path = a.path;
  pos = k.head + key_data_offset;
  open_at = a.open_at;
  rest_is =
      ap (λ (t : ℕ). drop t (contents d a.path)) (add_comm k.head key_data_offset)
      ∙ sym (drop-drop k.head key_data_offset (contents d a.path))
      ∙ ap (drop k.head) a.data_is;
}

-- Using bytes that are there keeps the stream at the head.
pub KeyAt-advance :
    {d : Disk} {k : Key} {key_data : Bytes} (n : ℕ)
    → KeyAt d k key_data
    → k.head + n ≤ length key_data
    → KeyAt d (advance k n) key_data × ((advance k n).head ≡ k.head + n)
KeyAt-advance {d} {k} {key_data} n a h = (
  record {
    path = a.path;
    open_at =
        ap (λ s. advance_stream s n) a.open_at
        ∙ ap (opened a.path) (let f = a.data_fits in omega arith);
    data_is = a.data_is;
    head_fits = let f = a.data_fits in omega arith;
    data_fits = a.data_fits;
  },
  let f = a.data_fits in omega arith,
)

pub key_seek_lem :
    {d : Disk} {k : Key} {key_data : Bytes} (new_head : ℕ)
    → KeyAt d k key_data
    → new_head + key_data_offset < 2 ^ 63
    → (k' : Key) × (key_seek k new_head ≡ some k') × KeyAt d k' key_data × (k'.head ≡ new_head)
unfolding key_seek
key_seek_lem {d} {k} new_head a h = (
  record k { stream = opened a.path (new_head + key_data_offset); head = new_head },
  rw (a.open_at, whole, lt→ltb _ _ h),
  record {
    path = a.path;
    open_at = refl;
    data_is = a.data_is;
    head_fits = h;
    data_fits = a.data_fits;
  },
  refl,
)
  where
    whole : (new_head + key_data_offset) % 2 ^ 64 ≡ new_head + key_data_offset
    whole = omega arith

-- The one-time pad: with a copy of the key bytes, moved to the head that the sender had, the
-- receiver decrypts to the message, whatever its own position was before. Both keys are then
-- behind the bytes used.
pub decrypt-encrypt :
    {d₁ d₂ : Disk} {k₁ k₂ : Key} {key_data : Bytes} (ms : Bytes)
    → KeyAt d₁ k₁ key_data
    → KeyAt d₂ k₂ key_data
    → k₁.head + length ms ≤ length key_data
    → (cs : Bytes) × (k₁' : Key) × (k₂' : Key) × (encrypt d₁ k₁ (block_of ms)
        ≡ some (0, k₁', block_of cs))
      × ((key_seek k₂ k₁.head >>= λ k. decrypt d₂ k (block_of cs)) ≡ some (0, k₂', block_of ms))
      × (k₁'.head ≡ k₁.head + length ms)
      × (k₂'.head ≡ k₁.head + length ms)
unfolding decrypt
decrypt-encrypt {d₂} {k₁} {k₂} {key_data} ms a₁ a₂ h = (
  cs,
  advance k₁ (length ms),
  advance s.0 (length cs),
  encrypt_lem ms (KeyAt-Pad a₁) fits,
  rw (s.1, encrypt_lem cs (KeyAt-Pad s.2) (rw (s.3, length-xor_with pad ms) fits), s.3)
      (rw (xor_with_twice pad ms)),
  (KeyAt-advance (length ms) a₁ h).1,
  (KeyAt-advance (length cs) s.2 (omega (arith, s.3, length-xor_with pad ms))).1
      ∙ omega (arith, s.3, length-xor_with pad ms),
)
  where
    pad : Bytes
    pad = drop k₁.head key_data

    cs : Bytes
    cs = xor_with pad ms

    fits : length ms ≤ length pad
    fits = omega (arith, length-drop k₁.head key_data)

    s : (k : Key) × (key_seek k₂ k₁.head ≡ some k) × KeyAt d₂ k key_data × (k.head ≡ k₁.head)
    s = key_seek_lem k₁.head a₂ a₁.head_fits
