-- ===== src/Key/Files.antt =====
-- The layout of a key file, and what `key_open`, `key_close` and `key_create` do with it.
use otpchat.Base.Endian.{to_le, from_le, length-to_le, from_le-to_le}
use otpchat.Base.{
  ℕ, ◌+◌, ◌-◌, ◌%◌, ◌^◌, ◌≤◌, ◌<◌, ◌≡◌, refl, sym, ap, ◌∙◌, some, ◌++◌, Bytes, arith, length, take,
  drop, length-append, drop-drop, equal_bytes, overwrite_whole, overwrite_field, take-append,
  drop-append, lt→ltb,
}
use otpchat.Disk.{
  FilePath, Disk, contents, null, opened, set_file, set_file_self, write_file, write_at_inside,
}
use otpchat.Key.Pad.{advance}
use otpchat.Key.{Key, key_magic, key_head_offset, key_data_offset, key_open, key_close, read_header}

-- The bytes of a key file: the magic, the head in little endian, the id, and the key itself.
abbrev pub layout : ℕ → Bytes → Bytes → Bytes
layout head id key_data = key_magic ++ (to_le 8 head ++ (id ++ key_data))

pub record KeyFile (d : Disk) (path : FilePath) (head : ℕ) (id key_data : Bytes) : Type 0 where
  pub file_is : d path ≡ some (layout head id key_data)
  pub id_length : length id ≡ 16
  pub head_fits : head < 2 ^ 64

drop-layout :
    (head : ℕ) (id key_data : Bytes)
    → length id ≡ 16
    → (drop 8 (layout head id key_data) ≡ to_le 8 head ++ (id ++ key_data))
      × (drop 16 (layout head id key_data) ≡ id ++ key_data)
      × (drop 32 (layout head id key_data) ≡ key_data)
drop-layout head id key_data e = (refl, past_head, past_id)
  where
    past_head : drop 16 (layout head id key_data) ≡ id ++ key_data
    past_head = drop-append 8 (to_le 8 head) (id ++ key_data) (sym (length-to_le 8 head))

    past_id : drop 32 (layout head id key_data) ≡ key_data
    past_id =
        sym (drop-drop 16 16 (layout head id key_data))
        ∙ ap (drop 16) past_head
        ∙ drop-append 16 id key_data (sym e)

length-layout :
    (head : ℕ) (id key_data : Bytes)
    → length id ≡ 16
    → length (layout head id key_data) ≡ length key_data + 32
length-layout head id key_data e = omega (
  arith,
  length-append (to_le 8 head) (id ++ key_data),
  length-append id key_data,
  length-to_le 8 head,
)

pub KeyFile-data :
    {d : Disk} {path : FilePath} {head : ℕ} {id key_data : Bytes}
    → KeyFile d path head id key_data
    → drop key_data_offset (contents d path) ≡ key_data
KeyFile-data {head} {id} {key_data} f =
    rw (f.file_is, contents) (drop-layout head id key_data f.id_length).2

-- The four reads on contents that hold the magic and are long enough.
read_header_lem :
    (d : Disk) (path : FilePath) (c head_bytes id_bytes : Bytes) (k : Key)
    → contents d path ≡ c
    → take 8 c ≡ key_magic
    → take 8 (drop 8 c) ≡ head_bytes
    → length head_bytes ≡ 8
    → take 16 (drop 16 c) ≡ id_bytes
    → length id_bytes ≡ 16
    → length k.id ≡ 16
    → from_le head_bytes + key_data_offset < 2 ^ 63
    → read_header d path c k ≡ (
      0,
      record {
        stream = opened path (from_le head_bytes + key_data_offset);
        size = length c - key_data_offset;
        id = id_bytes;
        head = from_le head_bytes;
      },
    )
unfolding read_header equal_bytes
read_header_lem d path c head_bytes id_bytes k e magic hb hl ib il kl h =
    rw
      (
        e,
        magic,
        hb,
        hl,
        ib,
        il,
        overwrite_whole head_bytes (to_le 8 k.head) (hl ∙ sym (length-to_le 8 k.head)),
        overwrite_whole id_bytes k.id (il ∙ sym kl),
      )
      (rw (whole, lt→ltb _ _ h))
  where
    whole : (from_le head_bytes + key_data_offset) % 2 ^ 64 ≡ from_le head_bytes + key_data_offset
    whole = omega arith

-- A well-formed key file opens: the stream stands at the first unused key byte.
pub key_open_lem :
    {d : Disk} {path : FilePath} {head : ℕ} {id key_data : Bytes} (k : Key)
    → KeyFile d path head id key_data
    → length k.id ≡ 16
    → head + key_data_offset < 2 ^ 63
    → key_open d path k ≡ (
      0,
      record {
        stream = opened path (head + key_data_offset);
        size = length key_data;
        id = id;
        head = head;
      },
    )
unfolding key_open
key_open_lem {d} {path} {head} {id} {key_data} k f e h =
    rw (f.file_is, key_open)
      (read_header_lem d path (layout head id key_data) (to_le 8 head) id k
          (rw (f.file_is, contents)) refl
          (take-append 8 (to_le 8 head) (id ++ key_data) (sym (length-to_le 8 head)))
          (length-to_le 8 head)
          (ap (take 16) (drop-layout head id key_data f.id_length).1
            ∙ take-append 16 id key_data (sym f.id_length))
          f.id_length e (rw stored h)
        ∙ rw (stored, sized))
  where
    stored : from_le (to_le 8 head) ≡ head
    stored = from_le-to_le 8 head f.head_fits

    sized : length (layout head id key_data) - key_data_offset ≡ length key_data
    sized = omega (arith, length-layout head id key_data f.id_length)

-- Closing an open key writes its head into the file, and leaves the rest as it was.
pub key_close_lem :
    {d : Disk} {path : FilePath} {head pos : ℕ} {id key_data : Bytes} {k : Key}
    → KeyFile d path head id key_data
    → k.stream ≡ opened path pos
    → k.head < 2 ^ 64
    → (d' : Disk) × (key_close d k ≡ some (d', record k { stream = null }))
      × KeyFile d' path k.head id key_data
unfolding key_close
key_close_lem {d} {path} {head} {id} {key_data} {k} f open_at h = (
  set_file d path (layout k.head id key_data),
  rw (open_at, written),
  record {
    file_is = set_file_self d path (layout k.head id key_data);
    id_length = f.id_length;
    head_fits = h;
  },
)
  where
    written :
        write_file d path key_head_offset (to_le 8 k.head)
        ≡ set_file d path (layout k.head id key_data)
    written =
        unfold write_file in
        rw (f.file_is, write_file)
          (ap (set_file d path) (
            write_at_inside 8 (to_le 8 k.head) (layout head id key_data)
              (omega (arith, length-layout head id key_data f.id_length))
            ∙ overwrite_field 8 key_magic (to_le 8 head) (to_le 8 k.head) (id ++ key_data) refl
                (length-to_le 8 k.head ∙ sym (length-to_le 8 head))))

-- A session with a key file, where the key bytes suffice and a file offset holds their number: the
-- key is opened, `n` bytes of it are used, and it is closed. The next session opens
-- the same key behind the bytes that were used, so none of them is used again.
pub key_open-key_close :
    {d : Disk} {path : FilePath} {head : ℕ} {id key_data : Bytes} (k next : Key) (n : ℕ)
    → KeyFile d path head id key_data
    → length k.id ≡ 16
    → length next.id ≡ 16
    → head + n ≤ length key_data
    → length key_data + key_data_offset < 2 ^ 63
    → (d' : Disk) × (key_close d (advance (key_open d path k).1 n)
        ≡ some (d', record (advance (key_open d path k).1 n) { stream = null }))
      × (key_open d' path next ≡ (
        0,
        record {
          stream = opened path (head + n + key_data_offset);
          size = length key_data;
          id = id;
          head = head + n;
        },
      ))
key_open-key_close {d} {path} {head} {id} {key_data} k next n f kl nl fits small =
    rw opens (closes.0, closes.1, key_open_lem next resumed nl (omega arith))
  where
    opens : key_open d path k ≡ (
      0,
      record {
        stream = opened path (head + key_data_offset);
        size = length key_data;
        id = id;
        head = head;
      },
    )
    opens = key_open_lem k f kl (omega arith)

    used : Key
    used = record {
      stream = opened path (head + key_data_offset + n);
      size = length key_data;
      id = id;
      head = (head + n) % 2 ^ 64;
    }

    closes :
        (d' : Disk) × (key_close d used ≡ some (d', record used { stream = null }))
        × KeyFile d' path used.head id key_data
    closes = key_close_lem f refl (omega arith)

    no_wrap : used.head ≡ head + n
    no_wrap = omega arith

    resumed : KeyFile closes.0 path (head + n) id key_data
    resumed = rw no_wrap at closes.2
