-- ===== src/Node/Keeps.antt =====
-- What a call leaves of a node: its address, and its socket or none.
use otpchat.Base.{ℕ, ◌≡◌, refl, ap, ◌∙◌, ◌⊎◌, inl, inr, Option, none, some, [], ◌∷◌, Bytes}
use otpchat.Node.{
  Node, Sent, accepted, send_error, node_send, Received, node_recv, recv_result, send_result,
  recv_bytes,
}

-- The address is kept, and the socket is kept or given up.
pub record Keeps (n n' : Node) : Type 0 where
  pub info_is : n'.info ≡ n.info
  pub socket_is : (n'.socket ≡ none) ⊎ (n'.socket ≡ n.socket)

pub Keeps-refl : (n : Node) → Keeps n n
Keeps-refl n = record { info_is = refl; socket_is = inr refl }

pub Keeps-trans : (a b c : Node) → Keeps a b → Keeps b c → Keeps a c
Keeps-trans a b c h k = record {
  info_is = k.info_is ∙ h.info_is;
  socket_is = elim k.socket_is [
    | inl gone ↦ inl gone
    | inr same ↦ elim h.socket_is [
      | inl gone ↦ inl (same ∙ gone)
      | inr as_was ↦ inr (same ∙ as_was)
    ]
  ];
}

by_socket :
    {A : Type 0} (n : Node) (o : Option ℕ) (without with_socket : Node × A)
    → Keeps n without.0
    → Keeps n with_socket.0
    → Keeps n (elim o as (λ _. Node × A) [ none ↦ without | some _ ↦ with_socket ]).0
by_socket n none without with_socket h k = h
by_socket n (some fd) without with_socket h k = k

recv_result-Keeps : (n : Node) (xs : Bytes) → Keeps n (recv_result n xs).0
unfolding recv_result
recv_result-Keeps n [] = record { info_is = refl; socket_is = inl refl }
recv_result-Keeps n (x ∷ xs) = Keeps-refl n

pub node_recv-Keeps : (r : Received) (n : Node) (size : ℕ) → Keeps n (node_recv r n size).0
unfolding node_recv
node_recv-Keeps r n size =
    by_socket n n.socket (n, []) (recv_result n (recv_bytes r size)) (Keeps-refl n)
      (recv_result-Keeps n (recv_bytes r size))

send_result-Keeps : (s : Sent) (n : Node) (xs : Bytes) → Keeps n (send_result s n xs).0
unfolding send_result
send_result-Keeps (accepted count) n xs = Keeps-refl n
send_result-Keeps (send_error e) n xs = record { info_is = refl; socket_is = inl refl }

pub node_send-Keeps : (s : Sent) (n : Node) (xs : Bytes) → Keeps n (node_send s n xs).0
unfolding node_send
node_send-Keeps s n xs =
    by_socket n n.socket (n, 0) (send_result s n xs) (Keeps-refl n) (send_result-Keeps s n xs)

-- On -1 nothing is received.
pub node_recv_closed :
    (r : Received) (n : Node) (size : ℕ) → n.socket ≡ none → (node_recv r n size).1 ≡ []
unfolding node_recv
node_recv_closed r n size e =
    ap
      (λ (s : Option ℕ).
        (elim s as (λ _. Node × Bytes) [
          | none ↦ (n, [])
          | some _ ↦ recv_result n (recv_bytes r size)
        ]).1)
      e
