-- ===== src/Transfer/Pieces.antt =====
-- A message arrives: what `chat_handle_recv` does with the pieces of its header and of its text.
use otpchat.Base.{
  ℕ, ◌+◌, ◌^◌, ◌<◌, ◌≡◌, refl, sym, ap, ◌∙◌, false, some, List, [], ◌∷◌, ◌++◌, Bytes, ◌>>=◌, arith,
  ◌==◌, length, length-append, take-append, append-nil, replicate,
}
use otpchat.Block.{null_block}
use otpchat.Chat.Push.{CanDraw}
use otpchat.Key.Pad.{KeyAt, concat}
use otpchat.Key.{Key}
use otpchat.KeyStore.{set_key}
use otpchat.State.{ChatState, World}
use otpchat.Transfer.Frame.{length-header, frame, length-frame, take-frame, drop-frame}
use otpchat.Transfer.Receive.{HasRemoteKey, length-added, handle_header_lem}
use otpchat.Transfer.Stream.{
  recv_all, AllNonEmpty, filling, on_full, go_on, recv_all-fill, recv-idle,
}
use otpchat.Transfer.{header, added, handle_header, handle_text}

-- The connection of a message that is on its way, with the receiver's key and a screen.
pub record Receives (w : World) (st : ChatState) (key_data : Bytes) (head : ℕ) (cs : Bytes)
    : Type 0 where
  pub fd : ℕ
  pub connected : st.remote.node.socket ≡ some fd
  pub key : Key
  pub has_key : HasRemoteKey w st key_data key
  pub head_fits : head + 32 < 2 ^ 63
  pub size_fits : length cs < 2 ^ 32
  pub draws : CanDraw w st

header_branch :
    (w : World) (st : ChatState) (whole : Bytes)
    → length whole ≡ 12
    → on_full w st whole ≡ handle_header w (filling st whole 12) whole
unfolding on_full
header_branch w st whole e = rw e

pub text_branch :
    (w : World) (st : ChatState) (whole : Bytes) (n : ℕ)
    → 0 < n
    → length whole ≡ 12 + n
    → on_full w st whole ≡ handle_text w (filling st whole (length whole)) whole
unfolding on_full
text_branch w st whole n h e = let longer : (length whole == 12) ≡ false = ground arith in rw longer

module _ (w : World) (st : ChatState) (key_data : Bytes) (head : ℕ) (cs : Bytes)
    (r : Receives w st key_data head cs) where
  -- With the header there, the key is moved and the buffer waits for the text.
  pub header_full :
      (k : Key) × (on_full w st (header (length cs) head)
        ≡ some (
          0,
          filling
              (record st { keys = set_key st.keys r.has_key.ref k })
              (header (length cs) head ++ added w.fresh (length cs))
              12,
        ))
      × KeyAt w.disk k key_data
      × (k.head ≡ head)
  header_full =
      let hd = header (length cs) head in
      let h = r.has_key in
      let (k, handles, at, at_head) =
        handle_header_lem w key_data head cs r.head_fits r.size_fits (filling st hd 12) r.key
          (record { ref = h.ref; key_is = h.key_is; held = h.held; data_at = h.data_at }) in
      (
        k,
        header_branch w st hd (length-header (length cs) head)
            ∙ handles
            ∙ ap
                (λ (n : ℕ). some (
                  0,
                  record st {
                    keys = set_key st.keys h.ref k;
                    receiving = record { bytes = some (hd ++ added w.fresh (length cs)); size = n };
                    received_size = 12;
                  },
                ))
                (omega (
                  arith,
                  length-append hd (added w.fresh (length cs)),
                  length-added w.fresh (length cs),
                )),
        at,
        at_head,
      )

  pub recv_header :
      (p : Bytes) (ps more : List Bytes)
      → st.receiving ≡ null_block
      → 0 < length p
      → AllNonEmpty ps
      → concat (p ∷ ps) ≡ header (length cs) head
      → recv_all w st ((p ∷ ps) ++ more) ≡ (on_full w st (header (length cs) head) >>= go_on w more)
  recv_header p ps more idle hp all_p is_header =
      ap (λ o. o >>= go_on w (ps ++ more)) (recv-idle w st p idle)
      ∙ recv_all-fill w st (replicate 12 0) (header (length cs) head) p ps more 0 r.fd r.connected
          hp all_p (length-header (length cs) head) refl
          (omega (arith, ap length is_header, length-header (length cs) head)) is_header

  pub recv_text :
      (k : Key) (q : Bytes) (qs : List Bytes)
      → 0 < length q
      → AllNonEmpty qs
      → concat (q ∷ qs) ≡ cs
      → recv_all w
          (filling
            (record st { keys = set_key st.keys r.has_key.ref k })
            (header (length cs) head ++ added w.fresh (length cs))
            12)
          (q ∷ qs)
        ≡ (on_full w (record st { keys = set_key st.keys r.has_key.ref k }) (frame head cs)
            >>= go_on w [])
  recv_text k q qs hq all_q is_cs =
      let moved : ChatState = record st { keys = set_key st.keys r.has_key.ref k } in
      let hd = header (length cs) head in
      let xs = hd ++ added w.fresh (length cs) in
      let xs_size : length xs ≡ 12 + length cs = omega (
        arith,
        length-append hd (added w.fresh (length cs)),
        length-added w.fresh (length cs),
        length-header (length cs) head,
      ) in
      ap (recv_all w (filling moved xs 12)) (sym (append-nil (q ∷ qs)))
      ∙ recv_all-fill w moved xs (frame head cs) q qs [] 12 r.fd r.connected hq all_q
          (omega (arith, xs_size, length-frame head cs))
          (take-append 12 hd (added w.fresh (length cs)) (sym (length-header (length cs) head))
            ∙ sym (take-frame head cs))
          (omega (arith, xs_size, ap length is_cs)) (is_cs ∙ sym (drop-frame head cs))
