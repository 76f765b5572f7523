-- ===== src/Key/Total.antt =====
-- The operations of key.c on a key that is open.
use otpchat.Base.{
  ℕ, zero, suc, ◌+◌, ◌%◌, ◌^◌, ◌≤◌, ◌≡◌, refl, ap, inl, inr, some, [], ◌∷◌, Bytes, arith,
  if◌then◌else◌, ◌==◌, length, Bool-cases, bit_xor,
}
use otpchat.Disk.{FilePath, Disk, opened, seek_fits, read_at}
use otpchat.Key.{
  Key, key_data_offset, key_open, key_seek, key_get_block, xor_loop, xor_block, encrypt,
}

abbrev pub IsOpen : Key → Type 0
IsOpen k = (path : Bytes) × (pos : ℕ) × (k.stream ≡ opened path pos)

pub key_seek_total :
    (k : Key) (new_head : ℕ) → IsOpen k → (k' : Key) × (key_seek k new_head ≡ some k') × IsOpen k'
unfolding key_seek
key_seek_total k new_head (path, pos, e) =
    let offset = (new_head + key_data_offset) % 2 ^ 64 in
    let pos' = if seek_fits offset then offset else pos in
    (record k { stream = opened path pos'; head = new_head }, rw e, (path, pos', refl))

key_get_block_total :
    (d : Disk) (k : Key) (bytes : ℕ)
    → IsOpen k
    → (got : Bytes) × (k' : Key) × (key_get_block d k bytes
        ≡ some (if length got == bytes then 0 else 1, k', got))
      × IsOpen k'
unfolding key_get_block
key_get_block_total d k bytes (path, pos, e) =
    let got = read_at d path pos bytes in
    (
      got,
      record k { stream = opened path (pos + length got); head = (k.head + length got) % 2 ^ 64 },
      rw e,
      (path, pos + length got, refl),
    )

xor_loop_total :
    (n : ℕ) (ks ms : Bytes)
    → n ≤ length ks
    → n ≤ length ms
    → (out : Bytes) × (xor_loop n ks ms ≡ some out) × (length out ≡ length ms)
unfolding xor_loop
xor_loop_total zero ks ms h h' = (ms, refl, refl)
xor_loop_total (suc n) [] ms h h' = absurd (omega arith)
xor_loop_total (suc n) (k ∷ ks) [] h h' = absurd (omega arith)
xor_loop_total (suc n) (k ∷ ks) (m ∷ ms) h h' =
    let (out, e, same) = xor_loop_total n ks ms (omega arith) (omega arith) in
    (bit_xor k m ∷ out, rw e, ap suc same)

-- The bytes of a buffer that is as long as the message says, or longer, stay as many.
pub encrypt_total :
    (d : Disk) (k : Key) (ms : Bytes) (size : ℕ)
    → IsOpen k
    → size ≤ length ms
    → (status : ℕ) × (k' : Key) × (out : Bytes) × (encrypt d k
          (record { bytes = some ms; size = size })
        ≡ some (status, k', record { bytes = some out; size = size }))
      × IsOpen k'
      × (length out ≡ length ms)
unfolding encrypt xor_block
encrypt_total d k ms size o h =
    let (got, k', gets, o') = key_get_block_total d k size o in
    elim (Bool-cases (length got == size)) [
      | inl whole ↦
          let (out, e, same) = xor_loop_total size got ms (ground arith) h in
          (0, k', out, rw (gets, whole, e), o', same)
      | inr short ↦ (1, k', ms, rw (gets, short), o', refl)
    ]

-- A key that is accepted is open.
pub key_open-IsOpen :
    (d : Disk) (path : FilePath) (k : Key)
    → (key_open d path k).0 ≡ 0
    → IsOpen (key_open d path k).1
unfolding key_open
key_open-IsOpen d path k e =
    let k' = (key_open d path k).1 in
    let is_open : k'.stream ≡ opened path ((k'.head + key_data_offset) % 2 ^ 64) = ground arith in
    (path, (k'.head + key_data_offset) % 2 ^ 64, is_open)
