-- ===== src/Disk.antt =====
-- Files and stdio streams, as far as key.c uses them: `fopen`, `fread`, `fwrite`, `fseek`. A
-- stream names its file, so two streams on one path see one file.
use otpchat.Base.{
  ℕ, ◌-◌, ◌^◌, ◌≤◌, ◌≡◌, ap, ◌∙◌, append-nil, Bool, Option, none, some, [], ◌++◌, Bytes, arith,
  equal_bytes, equal_bytes_iff, if◌then◌else◌, length, take, drop, replicate, overwrite, ltb,
}

abbrev pub FilePath : Type 0
FilePath = Bytes

abbrev pub Disk : Type 0
Disk = FilePath → Option Bytes

unfoldable pub set_file : Disk → FilePath → Bytes → Disk
set_file d path c q = if equal_bytes path q then some c else d q

pub set_file_self : (d : Disk) (path : FilePath) (c : Bytes) → set_file d path c path ≡ some c
unfolding set_file
set_file_self d path c = ground (arith, equal_bytes_iff path path)

abbrev pub contents : Disk → FilePath → Bytes
contents d path = elim (d path) [ none ↦ [] | some c ↦ c ]

-- `null` is NULL, `closed` a pointer to a stream that `fclose` has freed.
pub data Stream : Type 0 where
  null closed : Stream
  opened : FilePath → ℕ → Stream

-- `fread(…, 1, n, …)` from position `pos`.
abbrev pub read_at : Disk → FilePath → ℕ → ℕ → Bytes
read_at d path pos n = take n (drop pos (contents d path))

-- `fwrite` at position `pos`; a gap behind the end is filled with zeros.
unfoldable pub write_at : ℕ → Bytes → Bytes → Bytes
write_at pos src c = overwrite pos src (c ++ replicate (pos - length c) 0)

pub write_at_inside :
    (pos : ℕ) (src c : Bytes) → pos ≤ length c → write_at pos src c ≡ overwrite pos src c
unfolding write_at
write_at_inside pos src c h =
    let none_missing : pos - length c ≡ 0 = omega arith in
    ap (overwrite pos src) (ap (λ (t : ℕ). c ++ replicate t 0) none_missing ∙ append-nil c)

-- A file that has been unlinked has no contents that another `fopen` could see.
unfoldable pub write_file : Disk → FilePath → ℕ → Bytes → Disk
write_file d path pos src = elim (d path) [
  | none ↦ d
  | some c ↦ set_file d path (write_at pos src c)
]

-- `fseek(…, offset, SEEK_SET)` of an offset given by its 64 bits: a negative one is refused.
abbrev pub seek_fits : ℕ → Bool
seek_fits offset = ltb offset (2 ^ 63)
