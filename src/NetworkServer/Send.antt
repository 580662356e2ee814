-- ===== src/NetworkServer/Send.antt =====
-- `sendToClient` and `broadcast`: who is put on the list to disconnect, and what that does to the
-- next `pollMessages`.
use snake_multiplayer.Base.{
  is_empty, ℕ, ◌<◌, ◌≡◌, refl, subst, ap, sym, ◌∙◌, ◌⊎◌, inl, inr, ◌∈◌, true, false, List, [], ◌∷◌,
  length, ltb, ltb→lt, lt→ltb, err, assertion_failed, Bool-cases,
}
use snake_multiplayer.Base.Int.{ℤ, ◌==ℤ◌, ==ℤ→eq}
use snake_multiplayer.Base.Map.{lookup, keys, int_key}
use snake_multiplayer.Base.Map.Assign.{keys-lookup}
use snake_multiplayer.Frame.{frame}
use snake_multiplayer.Socket.{Sent, taken, send_failed}
use snake_multiplayer.NetworkServer.{
  NetworkServer, Event, is_member, insert, doom, poll_messages, network_send, send_each, broadcast,
}
use snake_multiplayer.NetworkServer.Connected.{Connection, IsConnected, insert-∈, doom-IsConnected}

-- `send` did not take the whole frame.
abbrev pub IsShort : List ℕ → Sent → Type 0
IsShort bytes (taken n) = n < length (frame bytes)
IsShort bytes send_failed = Unit {0}

is_member-∈ : (fd : ℤ) (xs : List ℤ) → is_member fd xs ≡ true → fd ∈ xs
is_member-∈ fd [] e = cc e
is_member-∈ fd (x ∷ xs) e = elim (Bool-cases (x ==ℤ fd)) [
  | inl hit ↦ inl (sym (==ℤ→eq x fd hit))
  | inr miss ↦ inr (is_member-∈ fd xs (rw miss at e))
]

∈-insert : (a fd : ℤ) (xs : List ℤ) → (a ≡ fd) ⊎ (a ∈ xs) → a ∈ insert fd xs
∈-insert a fd xs h = elim (Bool-cases (is_member fd xs)) [
  | inl there ↦ rw there (elim h [
    | inl same ↦ subst (λ x. x ∈ xs) (sym same) (is_member-∈ fd xs there)
    | inr old ↦ old
  ])
  | inr new ↦ rw new h
]

-- One `send`: the descriptor is put on the list exactly if the frame was not taken whole.
pub record IsSent (s : NetworkServer) (fd : ℤ) (bytes : List ℕ) (r : Sent) (s' : NetworkServer)
    : Type 0 where
  pub connected : (id : ℤ) → Connection s fd id → IsConnected s → IsConnected s'
  pub same : s'.fd_to_client_id ≡ s.fd_to_client_id
  pub only :
      (a : ℤ) → a ∈ s'.fds_to_disconnect → (a ∈ s.fds_to_disconnect) ⊎ ((a ≡ fd) × IsShort bytes r)
  pub all :
      (a : ℤ) → (a ∈ s.fds_to_disconnect) ⊎ ((a ≡ fd) × IsShort bytes r) → a ∈ s'.fds_to_disconnect

doom-IsSent :
    (s : NetworkServer) (fd : ℤ) (bytes : List ℕ) (r : Sent)
    → IsShort bytes r
    → IsSent s fd bytes r (doom fd s)
unfolding doom
doom-IsSent s fd bytes r short = record {
  connected = λ id known v. doom-IsConnected fd id s known v;
  same = refl;
  only = λ a x. elim (insert-∈ a fd s.fds_to_disconnect x) [
    | inl this ↦ inr (this, short)
    | inr old ↦ inl old
  ];
  all = λ a x.
      ∈-insert a fd s.fds_to_disconnect (elim x [ inl old ↦ inr old | inr this ↦ inl this.0 ]);
}

whole-IsSent :
    (s : NetworkServer) (fd : ℤ) (bytes : List ℕ) (r : Sent)
    → (IsShort bytes r → ⊥)
    → IsSent s fd bytes r s
whole-IsSent s fd bytes r whole = record {
  connected = λ id known v. v;
  same = refl;
  only = λ a x. inl x;
  all = λ a x. elim x [ inl old ↦ old | inr this ↦ absurd (whole this.1) ];
}

pub network_send-IsSent :
    (s : NetworkServer) (fd : ℤ) (bytes : List ℕ) (r : Sent)
    → IsSent s fd bytes r (network_send s fd bytes r)
unfolding network_send
network_send-IsSent s fd bytes send_failed = doom-IsSent s fd bytes send_failed tt
network_send-IsSent s fd bytes (taken n) = elim (Bool-cases (ltb n (length (frame bytes)))) [
  | inl short ↦ rw short (doom-IsSent s fd bytes (taken n) (ltb→lt n (length (frame bytes)) short))
  | inr whole ↦ rw whole (
      whole-IsSent s fd bytes (taken n)
        (λ l. absurd (cc (whole, lt→ltb n (length (frame bytes)) l))))
]

-- A loop of sends.
record IsSentAll (s : NetworkServer) (fds : List (ℤ × ℤ)) (bytes : List ℕ) (sent : ℤ → Sent)
    (s' : NetworkServer) : Type 0 where
  connected : IsConnected s'
  same : s'.fd_to_client_id ≡ s.fd_to_client_id
  only :
      (a : ℤ)
      → a ∈ s'.fds_to_disconnect
      → (a ∈ s.fds_to_disconnect) ⊎ ((a ∈ keys fds) × IsShort bytes (sent a))
  all :
      (a : ℤ)
      → (a ∈ s.fds_to_disconnect) ⊎ ((a ∈ keys fds) × IsShort bytes (sent a))
      → a ∈ s'.fds_to_disconnect

send_each-IsSentAll :
    (s : NetworkServer) (fds : List (ℤ × ℤ)) (bytes : List ℕ) (sent : ℤ → Sent)
    → ((a : ℤ) → a ∈ keys fds → (id : ℤ) × Connection s a id)
    → IsConnected s
    → IsSentAll s fds bytes sent (send_each s fds bytes sent)
unfolding send_each
send_each-IsSentAll s [] bytes sent known v = record {
  connected = v;
  same = refl;
  only = λ a x. inl x;
  all = λ a x. elim x [ inl old ↦ old | inr never ↦ absurd never.0 ];
}
send_each-IsSentAll s ((fd, id) ∷ fds) bytes sent known v =
    let s₁ = network_send s fd bytes (sent fd) in
    let one = network_send-IsSent s fd bytes (sent fd) in
    let (i, conn) = known fd (inl refl) in
    let rest =
      send_each-IsSentAll s₁ fds bytes sent
        (λ a x. let (j, k) = known a (inr x) in (j, ap (lookup a) one.same ∙ k))
        (one.connected i conn v) in
    record {
      connected = rest.connected;
      same = rest.same ∙ one.same;
      only = λ a x. elim (rest.only a x) [
        | inr later ↦ inr (inr later.0, later.1)
        | inl before ↦ elim (one.only a before) [
          | inl old ↦ inl old
          | inr this ↦ inr (inl this.0, subst (λ y. IsShort bytes (sent y)) (sym this.0) this.1)
        ]
      ];
      all = λ a x. elim x [
        | inl old ↦ rest.all a (inl (one.all a (inl old)))
        | inr (inl this, short) ↦
            rest.all a
              (inl (one.all a (inr (this, subst (λ y. IsShort bytes (sent y)) this short))))
        | inr (inr later, short) ↦ rest.all a (inr (later, short))
      ];
    }

-- `broadcast` keeps consistent maps consistent, and puts on the list to disconnect the connected
-- descriptors whose `send` did not take the whole frame, and no others.
pub broadcast-IsConnected :
    (s : NetworkServer) (bytes : List ℕ) (sent : ℤ → Sent)
    → IsConnected s
    → IsConnected (broadcast s bytes sent)
      × ((fd : ℤ)
          → (fd ∈ (broadcast s bytes sent).fds_to_disconnect
              → (fd ∈ s.fds_to_disconnect)
                ⊎ ((fd ∈ keys s.fd_to_client_id) × IsShort bytes (sent fd)))
            × ((fd ∈ s.fds_to_disconnect)
                  ⊎ ((fd ∈ keys s.fd_to_client_id) × IsShort bytes (sent fd))
                → fd ∈ (broadcast s bytes sent).fds_to_disconnect))
unfolding broadcast
broadcast-IsConnected s bytes sent v =
    let r =
      send_each-IsSentAll s s.fd_to_client_id bytes sent (λ a x. keys-lookup a s.fd_to_client_id x)
        v in
    (r.connected, λ fd. (r.only fd, r.all fd))

nonempty : (fd : ℤ) (fds : List ℤ) → fd ∈ fds → is_empty fds ≡ false
nonempty fd [] x = absurd x
nonempty fd (a ∷ fds) x = refl

-- A `broadcast` in which one client does not take the whole frame makes the assertion at the head of
-- the next `pollMessages` fail, whatever has happened on the sockets.
pub broadcast-poll_messages :
    (s : NetworkServer) (bytes : List ℕ) (sent : ℤ → Sent) (fd : ℤ) (es : List Event)
    → IsConnected s
    → fd ∈ keys s.fd_to_client_id
    → IsShort bytes (sent fd)
    → poll_messages (broadcast s bytes sent) es ≡ err assertion_failed
unfolding poll_messages
broadcast-poll_messages s bytes sent fd es v known short =
    let doomed = ((broadcast-IsConnected s bytes sent v).1 fd).1 (inr (known, short)) in
    rw (nonempty fd (broadcast s bytes sent).fds_to_disconnect doomed) refl
