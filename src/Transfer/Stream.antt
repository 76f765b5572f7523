-- ===== src/Transfer/Stream.antt =====
-- `chat_handle_recv` again and again, over the pieces that the connection delivers.
use otpchat.Base.{
  ℕ, ◌+◌, ◌-◌, ◌≤◌, ◌<◌, ◌≡◌, refl, sym, ap, ◌∙◌, false, Option, some, List, [], ◌∷◌, ◌++◌, Bytes,
  ◌>>=◌, arith, if◌then◌else◌, ◌==◌, ==_refl, length, take, drop, length-append, drop-drop,
  replicate, take_all, drop-append, take-append, length-overwrite, overwrite,
}
use otpchat.Block.{null_block, block_of, block_create}
use otpchat.Key.Pad.{concat}
use otpchat.Node.Life.{node_recv-arrived}
use otpchat.Node.{arrived}
use otpchat.State.{ChatState, World}
use otpchat.Transfer.Frame.{take_filled}
use otpchat.Transfer.{handle_header, handle_text, begin_receiving, chat_handle_recv}

-- The loop of the program goes on while the status is 0.
abbrev pub recv_all : World → ChatState → List Bytes → Option (ℕ × ChatState)
recv_all w st [] = some (0, st)
recv_all w st (p ∷ ps) = do
  (status, st') ← chat_handle_recv (arrived p) w st
  let rest = recv_all w st' ps
  if status == 0 then rest else some (status, st')

-- `recv` gives at least a byte while the peer is there.
abbrev pub AllNonEmpty : List Bytes → Type 0
AllNonEmpty [] = Unit
AllNonEmpty (p ∷ ps) = (0 < length p) × AllNonEmpty ps

abbrev pub filling : ChatState → Bytes → ℕ → ChatState
filling st xs at = record st { receiving = block_of xs; received_size = at }

-- What happens when the buffer is full.
unfoldable pub on_full : World → ChatState → Bytes → Option (ℕ × ChatState)
on_full w st whole =
    let full = filling st whole (length whole) in
    if length whole == 12 then handle_header w full whole else handle_text w full whole

abbrev pub go_on : World → List Bytes → ℕ × ChatState → Option (ℕ × ChatState)
go_on w ps (status, st) = if status == 0 then recv_all w st ps else some (status, st)

-- One piece that does not fill the buffer.
pub recv_part :
    (w : World) (st : ChatState) (xs p : Bytes) (at fd : ℕ)
    → st.remote.node.socket ≡ some fd
    → 0 < length p
    → at + length p < length xs
    → chat_handle_recv (arrived p) w (filling st xs at)
      ≡ some (0, filling st (overwrite at p xs) (at + length p))
unfolding chat_handle_recv begin_receiving
recv_part w st xs p at fd connected h fits =
    let full : (length xs == 0) ≡ false = ground arith in
    let some_bytes : (length p == 0) ≡ false = ground arith in
    let not_yet : (at + length p == length xs) ≡ false = ground arith in
    simp (
      full,
      node_recv-arrived p st.remote.node (length xs - at) fd connected h (omega arith),
      some_bytes,
      not_yet,
      length-overwrite at p xs (omega arith),
    )

pub recv_last :
    (w : World) (st : ChatState) (xs p whole : Bytes) (at fd : ℕ)
    → st.remote.node.socket ≡ some fd
    → 0 < length p
    → at + length p ≡ length xs
    → length whole ≡ length xs
    → overwrite at p xs ≡ whole
    → chat_handle_recv (arrived p) w (filling st xs at) ≡ on_full w st whole
unfolding chat_handle_recv begin_receiving on_full
recv_last w st xs p whole at fd connected h fits len is_whole =
    let full : (length xs == 0) ≡ false = ground arith in
    let some_bytes : (length p == 0) ≡ false = ground arith in
    simp (
      full,
      node_recv-arrived p st.remote.node (length xs - at) fd connected h (omega arith),
      some_bytes,
      fits,
      ==_refl (length xs),
      is_whole,
      len,
    )

fits_piece :
    (at : ℕ) (xs p ms : Bytes)
    → at + length (p ++ ms) ≡ length xs
    → at + length p + length ms ≡ length xs
fits_piece at xs p ms size = omega (arith, length-append p ms)

pub filled :
    (at : ℕ) (xs whole p ms : Bytes)
    → take at xs ≡ take at whole
    → at + length p ≤ length xs
    → p ++ ms ≡ drop at whole
    → take (at + length p) (overwrite at p xs) ≡ take (at + length p) whole
filled at xs whole p ms front fits is_rest =
    take_filled at p xs whole fits front
      (sym (take-append (length p) p ms refl) ∙ ap (take (length p)) is_rest)

pub filled_whole :
    (at : ℕ) (xs whole p : Bytes)
    → length whole ≡ length xs
    → take at xs ≡ take at whole
    → at + length p ≡ length xs
    → p ++ [] ≡ drop at whole
    → overwrite at p xs ≡ whole
filled_whole at xs whole p len front size is_rest =
    sym (
      take_all (at + length p) (overwrite at p xs)
        (omega (arith, length-overwrite at p xs (omega arith))))
    ∙ filled at xs whole p [] front (omega arith) is_rest
    ∙ take_all (at + length p) whole (omega arith)

-- Pieces that together are what the buffer lacks, put there one after the other.
pub recv_all-fill :
    (w : World) (st : ChatState) (xs whole p : Bytes) (ps more : List Bytes) (at fd : ℕ)
    → st.remote.node.socket ≡ some fd
    → 0 < length p
    → AllNonEmpty ps
    → length whole ≡ length xs
    → take at xs ≡ take at whole
    → at + length (concat (p ∷ ps)) ≡ length xs
    → concat (p ∷ ps) ≡ drop at whole
    → recv_all w (filling st xs at) ((p ∷ ps) ++ more) ≡ (on_full w st whole >>= go_on w more)
recv_all-fill w st xs whole p [] more at fd connected h all len front size is_rest =
    let fits = fits_piece at xs p [] size in
    ap (λ o. o >>= go_on w more)
      (recv_last w st xs p whole at fd connected h (omega arith) len
        (filled_whole at xs whole p len front (omega arith) is_rest))
recv_all-fill w st xs whole p (q ∷ ps) more at fd connected h all len front size is_rest =
    let fits = fits_piece at xs p (concat (q ∷ ps)) size in
    let here : at + length p < length xs =
      (let h' = all.0 in omega (arith, fits, length-append q (concat ps))) in
    ap (λ o. o >>= go_on w ((q ∷ ps) ++ more)) (recv_part w st xs p at fd connected h here)
    ∙ recv_all-fill w st (overwrite at p xs) whole q ps more (at + length p) fd connected all.0
        all.1 (omega (arith, length-overwrite at p xs (omega arith)))
        (filled at xs whole p (concat (q ∷ ps)) front (omega arith) is_rest)
        (omega (arith, fits, length-overwrite at p xs (omega arith)))
        (sym (drop-append (length p) p (concat (q ∷ ps)) refl)
          ∙ ap (drop (length p)) is_rest
          ∙ drop-drop (length p) at whole)

-- A message starts with an empty buffer for the header.
pub recv-idle :
    (w : World) (st : ChatState) (p : Bytes)
    → st.receiving ≡ null_block
    → chat_handle_recv (arrived p) w st
      ≡ chat_handle_recv (arrived p) w (filling st (replicate 12 0) 0)
unfolding chat_handle_recv begin_receiving block_create
recv-idle w st p idle = simp idle
