-- ===== src/Loop/Start/Generate.antt =====
-- main.c: making a new key file.
use otpchat.Args.{GenerateArgs, Args, generate, generate_flag, parse_args}
use otpchat.Args.Parse.{parse_args_generate}
use otpchat.Base.{
  ℕ, ◌+◌, ◌*◌, ◌^◌, ◌≤◌, ◌<◌, ◌≡◌, refl, ap, ◌∙◌, true, Option, none, some, List, [], ◌∷◌, Bytes,
  ◌>>=◌, arith, length,
}
use otpchat.Command.{Calls}
use otpchat.Disk.{Disk}
use otpchat.Key.Create.{AllFull, key_create-KeyFile}
use otpchat.Key.Files.{KeyFile, key_close_lem}
use otpchat.Key.{Key, key_data_offset, buffer_size, key_create, key_close}
use otpchat.Loop.Start.{Making, generate_key, run_mode, main}
use otpchat.Loop.{Event}
use otpchat.State.{ChatState, World}
use otpchat.Text.{decimal}

makes :
    (d d' d'' : Disk) (m : Making) (key made closed : Key) (a : GenerateArgs) (path : Bytes)
    (status : ℕ)
    → a.key_path ≡ some path
    → m.openable ≡ true
    → key_create d path true m.id_random m.rounds a.key_size key ≡ some (d', status, made)
    → key_close d' made ≡ some (d'', closed)
    → generate_key d m key a ≡ some d''
unfolding generate_key
makes d d' d'' m key made closed a path status is_path openable creates closes =
    simp (is_path, openable, creates, closes)

main_made :
    (w : World) (calls : Calls) (memory : ChatState) (key : Key) (events : List Event) (m : Making)
    (argv : List Bytes) (a : GenerateArgs) (d : Disk)
    → parse_args argv ≡ some (generate a)
    → generate_key w.disk m key a ≡ some d
    → main w calls memory key events m argv ≡ some (some (0, d))
unfolding main run_mode
main_made w calls memory key events m argv a d parses made =
    ap
      (λ (o : Option Args). elim o as (λ _. Option (Option (ℕ × Disk))) [
        | none ↦ some (some (1, w.disk))
        | some args ↦ run_mode w calls memory key events m args
      ])
      parses
    ∙ ap (λ (o : Option Disk). o >>= λ d. some (some (0, d))) made

-- `otpchat --generate <size> <path>`, where the file can be opened for writing, the random device
-- and the disk serve every round, and there are rounds enough: the program exits with 0, and the
-- file is a key file of `size` bytes with its head at 0.
pub main_generate :
    (w : World) (calls : Calls) (memory : ChatState) (key : Key) (events : List Event) (m : Making)
    (program path : Bytes) (size : ℕ)
    → 0 < size
    → size + key_data_offset < 2 ^ 63
    → length key.id ≡ 16
    → m.openable ≡ true
    → AllFull m.rounds
    → size ≤ buffer_size * length m.rounds
    → (d : Disk) × (id key_data : Bytes) × (main w calls memory key events m
          (program ∷ generate_flag ∷ decimal size ∷ path ∷ [])
        ≡ some (some (0, d)))
      × KeyFile d path 0 id key_data
      × (length key_data ≡ size)
main_generate w calls memory key events m program path size some_bytes fits id_size openable full
      enough =
    let (d, k, key_data, creates, file, filled, _, at_head, _, is_open) =
      key_create-KeyFile w.disk path m.id_random m.rounds size key id_size full enough fits in
    let (d', closes, file') = key_close_lem {k = k} file is_open (omega (arith, at_head)) in
    (
      d',
      k.id,
      key_data,
      main_made w calls memory key events m _ (record { key_size = size; key_path = some path }) d'
          (parse_args_generate program path size some_bytes (omega arith))
          (makes w.disk d d' m key k _ _ path 0 refl openable creates closes),
      rw at_head at file',
      filled,
    )
