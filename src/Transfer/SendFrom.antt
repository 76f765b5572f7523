-- ===== src/Transfer/SendFrom.antt =====
-- What calls of `chat_handle_send` that the socket accepts do, from the buffer alone.
use otpchat.Base.{
  ℕ, suc, Bool, true, false, ◌≡◌, refl, ap, ap₂, ◌∙◌, some, List, [], ◌∷◌, ◌++◌, Bytes,
  if◌then◌else◌, ◌==◌, ◌+◌, length, take, drop, min,
}
use otpchat.Block.{Block, content, free_block}
use otpchat.Node.Life.{node_send-accepted}
use otpchat.Node.{accepted}
use otpchat.State.{ChatState}
use otpchat.Transfer.Apart.{put}
use otpchat.Transfer.Progress.{takes}
use otpchat.Transfer.Send.{given, send_all}
use otpchat.Transfer.{chat_handle_send}

-- What `chat_handle_send` leaves of the buffer, as far as the socket takes it.
abbrev pub sent_on : ℕ → Block → ℕ → Block × ℕ
sent_on c b n =
    let left = drop n (content b) in
    let n' = n + min c (length left) in
    if b.size == 0 then (b, n) else if n' == b.size then (free_block b, 0) else (b, n')

abbrev pub sent_bytes : ℕ → Block → ℕ → Bytes
sent_bytes c b n = take (min c (length (drop n (content b)))) (drop n (content b))

put_if :
    (st : ChatState) (idle all : Bool) (n : ℕ)
    → (if idle then st else if all then put (free_block st.sending) 0 st else put st.sending n st)
      ≡ (let next : Block × ℕ =
            if idle
            then (st.sending, st.sent_size)
            else if all
            then (free_block st.sending, 0)
            else (st.sending, n) in
          put next.0 next.1 st)
put_if st true all n = refl
put_if st false true n = refl
put_if st false false n = refl

pub send_lem :
    (c fd : ℕ) (st : ChatState)
    → st.remote.node.socket ≡ some fd
    → chat_handle_send (accepted c) st
      ≡ (let next = sent_on c st.sending st.sent_size in put next.0 next.1 st)
unfolding chat_handle_send
send_lem c fd st connected =
    let left = drop st.sent_size (content st.sending) in
    let e = node_send-accepted c st.remote.node left fd connected in
    rw e (
      put_if st (st.sending.size == 0) (st.sent_size + min c (length left) == st.sending.size)
        (st.sent_size + min c (length left)))

pub given_lem :
    (c fd : ℕ) (st : ChatState)
    → st.remote.node.socket ≡ some fd
    → given (accepted c) st ≡ sent_bytes c st.sending st.sent_size
given_lem c fd st connected =
    let left = drop st.sent_size (content st.sending) in
    ap (λ r. take r.1 left) (node_send-accepted c st.remote.node left fd connected)

-- What many calls send, from the buffer alone.
abbrev pub send_from : List ℕ → Block → ℕ → Bytes × Block × ℕ
send_from [] b n = ([], b, n)
send_from (c ∷ cs) b n =
    let next = sent_on (suc c) b n in
    let rest = send_from cs next.0 next.1 in (sent_bytes (suc c) b n ++ rest.0, rest.1, rest.2)

pub send_from_lem :
    (cs : List ℕ) (fd : ℕ) (st : ChatState)
    → st.remote.node.socket ≡ some fd
    → send_all (takes cs) st
      ≡ (let r = send_from cs st.sending st.sent_size in (r.0, put r.1 r.2 st))
send_from_lem [] fd st connected = refl
send_from_lem (c ∷ cs) fd st connected =
    let next = sent_on (suc c) st.sending st.sent_size in
    ap₂
      (λ (xs : Bytes) (s : ChatState). (let rest = send_all (takes cs) s in (xs ++ rest.0, rest.1)))
      (given_lem (suc c) fd st connected) (send_lem (suc c) fd st connected)
    ∙ ap (λ (r : Bytes × ChatState). (sent_bytes (suc c) st.sending st.sent_size ++ r.0, r.1))
        (send_from_lem cs fd (put next.0 next.1 st) connected)
