-- ===== src/Key/Create.antt =====
-- `key_create`: the loop ends once it has written `sz` bytes, and the file it leaves is a key.
use otpchat.Base.Endian.{to_le}
use otpchat.Base.{
  ℕ, ◌+◌, ◌-◌, ◌*◌, ◌^◌, ◌≤◌, ◌<◌, ◌≡◌, refl, ap, ◌∙◌, some, List, [], ◌∷◌, ◌++◌, Bytes, arith, min,
  length, take, length-take, length-append, true, ltb, overwrite, append_assoc, append-nil,
  Bool-cases, inl, inr, le→ltb, length-overwrite,
}
use otpchat.Disk.{FilePath, Disk, set_file, set_file_self, opened}
use otpchat.Key.Files.{layout, KeyFile, KeyFile-data}
use otpchat.Key.Pad.{KeyAt}
use otpchat.Key.{
  Key, Round, Creation, done, key_magic, key_data_offset, buffer_size, create_loop, create_step,
  created, key_create,
}

-- A round in which `read` has as many bytes as the buffer takes, and the disk takes them.
abbrev pub IsFull : Round → Type 0
IsFull r = (bs : Bytes) × (r.random ≡ some bs) × (buffer_size ≤ length bs) × (r.wrote ≡ true)

abbrev pub AllFull : List Round → Type 0
AllFull [] = Unit
AllFull (r ∷ rs) = IsFull r × AllFull rs

create_step_full :
    (next : Bytes → Creation) (c bs : Bytes)
    → 0 < length bs
    → create_step next c (some bs) true ≡ next bs
unfolding create_step
create_step_full next c [] h = absurd (omega arith)
create_step_full next c (b ∷ bs) h = refl

-- The result of the loop: what was there, and as many random bytes as are missing.
create_loop_full :
    (rs : List Round) (sz written : ℕ) (c : Bytes)
    → AllFull rs
    → written ≤ sz
    → sz ≤ written + buffer_size * length rs
    → (random : Bytes) × (create_loop sz written c rs ≡ done (c ++ random))
      × (written + length random ≡ sz)
unfolding create_loop
create_loop_full [] sz written c full le enough =
    ([], rw (le→ltb written sz (omega arith), append-nil c), omega arith)
create_loop_full (r ∷ rs) sz written c (f, full) le enough = elim (Bool-cases (ltb written sz)) [
  | inr ended ↦ ([], rw (ended, append-nil c), ground arith)
  | inl goes ↦
      let got = take (min buffer_size (sz - written)) f.0 in
      let got_length : length got ≡ min buffer_size (sz - written) =
        omega (arith, length-take (min buffer_size (sz - written)) f.0, f.2) in
      let w : written < sz = ground arith in
      let rest =
        create_loop_full rs sz (written + length got) (c ++ got) full (omega arith) (omega arith) in
      (
        got ++ rest.0,
        rw (goes, f.1, f.3)
            (create_step_full _ c got (omega arith) ∙ rest.1 ∙ ap done (append_assoc c got rest.0)),
        omega (arith, length-append got rest.0, rest.2),
      )
]

-- Where the random device and the disk serve every round, and there are rounds enough, the loop
-- of `key_create` ends, and what it leaves is a key file of `sz` fresh bytes with its head at 0,
-- open at the first of them.
pub key_create-KeyFile :
    (d : Disk) (path : FilePath) (id_random : Bytes) (rounds : List Round) (sz : ℕ) (k : Key)
    → length k.id ≡ 16
    → AllFull rounds
    → sz ≤ buffer_size * length rounds
    → sz + key_data_offset < 2 ^ 63
    → (d' : Disk) × (k' : Key) × (key_data : Bytes) × (key_create d path true id_random rounds sz k
        ≡ some (d', 0, k'))
      × KeyFile d' path 0 k'.id key_data
      × (length key_data ≡ sz)
      × (k'.size ≡ sz)
      × (k'.head ≡ 0)
      × KeyAt d' k' key_data
      × (k'.stream ≡ opened path key_data_offset)
unfolding key_create created
key_create-KeyFile d path id_random rounds sz k kl full enough small = (
  set_file d path (layout 0 id loop.0),
  k',
  loop.0,
  rw (loop.1, shape),
  file,
  grown,
  refl,
  refl,
  record {
    path = path;
    open_at = refl;
    data_is = KeyFile-data file;
    head_fits = omega arith;
    data_fits = omega (arith, grown);
  },
  refl,
)
  where
    id : Bytes
    id = overwrite 0 (take 16 id_random) k.id

    id_length : length id ≡ 16
    id_length =
        length-overwrite 0 (take 16 id_random) k.id (omega (arith, length-take 16 id_random)) ∙ kl

    k' : Key
    k' = record { stream = opened path key_data_offset; size = sz; id = id; head = 0 }

    header : Bytes
    header = key_magic ++ (to_le 8 0 ++ id)

    loop :
        (random : Bytes) × (create_loop sz 0 header rounds ≡ done (header ++ random))
        × (0 + length random ≡ sz)
    loop = create_loop_full rounds sz 0 header full (omega arith) (omega arith)

    shape : header ++ loop.0 ≡ layout 0 id loop.0
    shape = ap (◌++◌ key_magic) (append_assoc (to_le 8 0) id loop.0)

    grown : length loop.0 ≡ sz
    grown = omega (arith, loop.2)

    file : KeyFile (set_file d path (layout 0 id loop.0)) path 0 id loop.0
    file = record {
      file_is = set_file_self d path (layout 0 id loop.0);
      id_length = id_length;
      head_fits = omega arith;
    }
