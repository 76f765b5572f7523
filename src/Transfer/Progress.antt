-- ===== src/Transfer/Progress.antt =====
-- A connection that takes something each time takes all of a message.
use otpchat.Base.{
  ℕ, suc, ◌+◌, ◌≤◌, ◌<◌, ◌≡◌, refl, sym, ap, ap₂, ◌∙◌, Bool, false, some, List, [], ◌∷◌, ◌++◌,
  Bytes, arith, if◌then◌else◌, ◌==◌, min, length, take, drop, length-drop, take_all, append-nil,
  drop-drop, take-append-drop, Bool-cases, inl, inr,
}
use otpchat.Block.{null_block, free_block}
use otpchat.Node.Life.{node_send-accepted}
use otpchat.Node.{Sent, accepted}
use otpchat.State.{ChatState}
use otpchat.Transfer.Send.{given, offering, send_all, send_all_idle}
use otpchat.Transfer.{chat_handle_send}

-- Calls of `send` that take so many bytes each.
abbrev pub takes : List ℕ → List Sent
takes [] = []
takes (c ∷ cs) = accepted (suc c) ∷ takes cs

given-accepted :
    (c fd : ℕ) (st : ChatState) (ys : Bytes) (at : ℕ)
    → st.remote.node.socket ≡ some fd
    → given (accepted c) (offering st ys at) ≡ take (min c (length (drop at ys))) (drop at ys)
given-accepted c fd st ys at connected =
    ap (λ r. take r.1 (drop at ys)) (node_send-accepted c st.remote.node (drop at ys) fd connected)

chat_handle_send-accepted :
    (c fd : ℕ) (st : ChatState) (ys : Bytes) (at : ℕ)
    → st.remote.node.socket ≡ some fd
    → at < length ys
    → chat_handle_send (accepted c) (offering st ys at) ≡ (
        if at + min c (length (drop at ys)) == length ys
        then record st { sending = null_block; sent_size = 0 }
        else offering st ys (at + min c (length (drop at ys))))
unfolding chat_handle_send free_block
chat_handle_send-accepted c fd st ys at connected h =
    let some_bytes : (length ys == 0) ≡ false = ground arith in
    simp (some_bytes, node_send-accepted c st.remote.node (drop at ys) fd connected)

-- As many calls as there are bytes give the socket all of them, and leave no buffer.
pub send_all_left :
    (cs : List ℕ) (fd : ℕ) (st : ChatState) (ys : Bytes) (at : ℕ)
    → st.remote.node.socket ≡ some fd
    → at < length ys
    → length ys ≤ at + length cs
    → send_all (takes cs) (offering st ys at)
      ≡ (drop at ys, record st { sending = null_block; sent_size = 0 })
send_all_left [] fd st ys at connected h enough = absurd (omega arith)
send_all_left (c ∷ cs) fd st ys at connected h enough =
    let n : ℕ = min (suc c) (length (drop at ys)) in
    let n_pos : 0 < n = omega (arith, length-drop at ys) in
    let done : ChatState = record st { sending = null_block; sent_size = 0 } in
    let next : Bool → ChatState = λ b. if b then done else offering st ys (at + n) in
    let now = given-accepted (suc c) fd st ys at connected in
    let step = chat_handle_send-accepted (suc c) fd st ys at connected h in
    let joined : Bytes → ChatState → Bytes × ChatState =
      λ xs s. (let rest = send_all (takes cs) s in (xs ++ rest.0, rest.1)) in
    ap₂ joined now step ∙ elim (Bool-cases (at + n == length ys)) [
      | inl e ↦
          let all : length (drop at ys) ≤ n = ground (arith, length-drop at ys) in
          ap (λ b. joined (take n (drop at ys)) (next b)) e
          ∙ ap (λ (r : Bytes × ChatState). (take n (drop at ys) ++ r.0, r.1))
              (send_all_idle (takes cs) done refl)
          ∙ ap (λ (xs : Bytes). (xs, done))
              (append-nil (take n (drop at ys)) ∙ take_all n (drop at ys) all)
      | inr e ↦
          let more : at + n < length ys = ground (arith, length-drop at ys) in
          ap (λ b. joined (take n (drop at ys)) (next b)) e
          ∙ ap (λ (r : Bytes × ChatState). (take n (drop at ys) ++ r.0, r.1))
              (send_all_left cs fd st ys (at + n) connected more (omega arith))
          ∙ ap (λ (xs : Bytes). (take n (drop at ys) ++ xs, done)) (sym (drop-drop n at ys))
          ∙ ap (λ (xs : Bytes). (xs, done)) (take-append-drop n (drop at ys))
    ]

-- While the peer is there and each call takes a byte at least, as many calls as there are bytes
-- send them all, and the buffer is freed.
pub send_all_done :
    (cs : List ℕ) (fd : ℕ) (st : ChatState) (ys : Bytes) (at : ℕ)
    → st.remote.node.socket ≡ some fd
    → at < length ys
    → length ys ≤ at + length cs
    → ((send_all (takes cs) (offering st ys at)).0 ≡ drop at ys)
      × ((send_all (takes cs) (offering st ys at)).1.sending ≡ null_block)
send_all_done cs fd st ys at connected h enough =
    let left = send_all_left cs fd st ys at connected h enough in
    (ap (λ (r : Bytes × ChatState). r.0) left, ap (λ (r : Bytes × ChatState). r.1.sending) left)
