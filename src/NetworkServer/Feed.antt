-- ===== src/NetworkServer/Feed.antt =====
-- One connection in `pollMessages`: its bytes go through its parser, and the frames get its id.
use snake_multiplayer.Base.{
  ℕ, ◌≡◌, ◌≢◌, refl, ap, sym, ◌∙◌, ◌⊎◌, inl, inr, ◌∈◌, Bool, true, false, List, [], ◌∷◌, ◌++◌,
  append-nil, some, ok, err, Result, system_call_failed, Bool-cases, if◌then◌else◌,
}
use snake_multiplayer.Base.Int.{ℤ, ◌==ℤ◌, ==ℤ→eq, ==ℤ→ne, ==ℤ_refl}
use snake_multiplayer.Base.Map.{lookup, assign, int_key}
use snake_multiplayer.Base.Map.Laws.{ne→beq}
use snake_multiplayer.Base.Map.Assign.{lookup-assign_self, lookup-assign_ne}
use snake_multiplayer.Frame.{Parsed, server_parse}
use snake_multiplayer.Socket.{would_block, recv_failed, closed, received}
use snake_multiplayer.NetworkServer.{
  NetworkServer, Event, accept_failed, accepted, readable, Messages, doom, parse_received_packet,
  receive_from_client, tag, poll_event,
}
use snake_multiplayer.NetworkServer.Connected.{
  Connection, IsConnected, doom-IsConnected, buffer-IsConnected,
}

-- What the kernel documents of descriptors: `accept` returns one that is not open, and `epoll_wait`
-- reports those that were registered. Whether `fcntl` and `epoll_ctl` take an accepted descriptor is
-- left open.
abbrev pub IsEvents : List ℤ → List Event → Type 0
IsEvents fds [] = Unit
IsEvents fds (accept_failed ∷ es) = IsEvents fds es
IsEvents fds (accepted fd true ∷ es) = (fd ∈ fds → ⊥) × IsEvents (fd ∷ fds) es
IsEvents fds (accepted fd false ∷ es) = (fd ∈ fds → ⊥) × IsEvents fds es
IsEvents fds (readable fd what ∷ es) = (fd ∈ fds) × IsEvents fds es

-- Whether each accepted descriptor could be made non-blocking and registered.
abbrev pub registers : List Event → Bool
registers [] = true
registers (accepted fd false ∷ es) = false
registers (accepted fd true ∷ es) = registers es
registers (accept_failed ∷ es) = registers es
registers (readable fd what ∷ es) = registers es

-- What is read from a descriptor, in order.
abbrev pub chunks : ℤ → List Event → List (List ℕ)
chunks fd [] = []
chunks fd (accept_failed ∷ es) = chunks fd es
chunks fd (accepted a b ∷ es) = chunks fd es
chunks fd (readable a would_block ∷ es) = chunks fd es
chunks fd (readable a recv_failed ∷ es) = chunks fd es
chunks fd (readable a closed ∷ es) = chunks fd es
chunks fd (readable a (received bytes) ∷ es) =
    let rest = chunks fd es in if a ==ℤ fd then bytes ∷ rest else rest

-- The parser of one connection, fed with its chunks: the frames, and what is left.
abbrev pub feed : List ℕ → List (List ℕ) → List (List ℕ) × List ℕ
feed buffer [] = ([], buffer)
feed buffer (c ∷ cs) =
    let p = server_parse buffer c in let r = feed p.buffer cs in (p.frames ++ r.0, r.1)

-- The frames that come out under an id.
abbrev pub frames_of : ℤ → Messages → List (List ℕ)
frames_of id [] = []
frames_of id ((i, bytes) ∷ ms) =
    let rest = frames_of id ms in if i ==ℤ id then bytes ∷ rest else rest

pub frames_of-append :
    (id : ℤ) (xs ys : Messages) → frames_of id (xs ++ ys) ≡ frames_of id xs ++ frames_of id ys
frames_of-append id [] ys = refl
frames_of-append id ((i, b) ∷ xs) ys = elim (Bool-cases (i ==ℤ id)) [
  | inl hit ↦ rw hit (ap (λ (fs : List (List ℕ)). b ∷ fs) (frames_of-append id xs ys))
  | inr miss ↦ rw miss (frames_of-append id xs ys)
]

-- Messages of one id.
abbrev pub tagged : ℤ → List (List ℕ) → Messages
tagged id [] = []
tagged id (b ∷ bs) = (id, b) ∷ tagged id bs

frames_of-tagged : (id : ℤ) (bs : List (List ℕ)) → frames_of id (tagged id bs) ≡ bs
frames_of-tagged id [] = refl
frames_of-tagged id (b ∷ bs) =
    rw (==ℤ_refl id) (ap (λ (fs : List (List ℕ)). b ∷ fs) (frames_of-tagged id bs))

frames_of-tagged_ne : (i id : ℤ) (bs : List (List ℕ)) → i ≢ id → frames_of id (tagged i bs) ≡ []
frames_of-tagged_ne i id [] ne = refl
frames_of-tagged_ne i id (b ∷ bs) ne = rw (ne→beq i id ne) (frames_of-tagged_ne i id bs ne)

pub tag-tagged :
    (s : NetworkServer) (fd id : ℤ) (bs : List (List ℕ))
    → Connection s fd id
    → tag s fd bs ≡ ok (tagged id bs)
unfolding tag
tag-tagged s fd id [] known = refl
tag-tagged s fd id (b ∷ bs) known = rw known (rw (tag-tagged s fd id bs known) refl)

-- From a state to a later one, in which every connection is still there and has been fed.
pub record IsPolled (s : NetworkServer) (es : List Event) (s' : NetworkServer) (ms : Messages)
    : Type 0 where
  pub connected : IsConnected s'
  pub stays :
      (fd id : ℤ) (b : List ℕ)
      → Connection s fd id
      → lookup fd s.fd_to_buffer ≡ some b
      → Connection s' fd id
        × (lookup fd s'.fd_to_buffer ≡ some (feed b (chunks fd es)).1)
        × (frames_of id ms ≡ (feed b (chunks fd es)).0)

-- What comes of a batch of events: where each accepted descriptor is registered nothing is thrown and
-- every connection has been fed, and otherwise the failed call is thrown.
abbrev pub PollOutcome : NetworkServer → List Event → Result (NetworkServer × Messages) → Type 0
PollOutcome s es r =
    ((registers es ≡ true)
      × ((s' : NetworkServer) × (ms : Messages) × (r ≡ ok (s', ms)) × IsPolled s es s' ms))
    ⊎ ((registers es ≡ false) × (r ≡ err system_call_failed))

-- A connection that is put on the list to disconnect, or not.
maybe_doomed :
    (o : Bool) (fd id : ℤ) (s : NetworkServer)
    → Connection s fd id
    → IsConnected s
    → IsConnected (if o then doom fd s else s)
      × ((if o then doom fd s else s).fd_to_client_id ≡ s.fd_to_client_id)
      × ((if o then doom fd s else s).fd_to_buffer ≡ s.fd_to_buffer)
unfolding doom
maybe_doomed true fd id s known v = (doom-IsConnected fd id s known v, refl, refl)
maybe_doomed false fd id s known v = (v, refl, refl)

pub some_inj : {A : Type 0} (a b : A) → some a ≡ some b → a ≡ b
some_inj a b e = cc e

-- Bytes on one connection.
module _ (s : NetworkServer) (fd id : ℤ) (input : List ℕ) (known : Connection s fd id)
    (v : IsConnected s) where
  abbrev old_buffer : List ℕ
  old_buffer = (v.buffers fd id known).0

  abbrev parsed : Parsed
  parsed = server_parse old_buffer input

  abbrev kept : NetworkServer
  kept = record s { fd_to_buffer = assign fd parsed.buffer s.fd_to_buffer }

  abbrev after : NetworkServer
  after = if parsed.oversized then doom fd kept else kept

  pub after-IsConnected :
      IsConnected after
      × (after.fd_to_client_id ≡ s.fd_to_client_id)
      × (after.fd_to_buffer ≡ kept.fd_to_buffer)
  after-IsConnected =
      maybe_doomed parsed.oversized fd id kept known
        (buffer-IsConnected fd id parsed.buffer s known v)

  abbrev HasFed : ℤ → ℤ → List ℕ → List (List ℕ) → Type 0
  HasFed a i b cs =
      Connection after a i
      × (lookup a after.fd_to_buffer ≡ some (feed b cs).1)
      × (frames_of i (tagged id parsed.frames) ≡ (feed b cs).0)

  same-Connection : (a i : ℤ) → Connection s a i → Connection after a i
  same-Connection a i ka = ap (lookup a) after-IsConnected.1 ∙ ka

  fed_here :
      (a i : ℤ) (b : List ℕ)
      → Connection s a i
      → lookup a s.fd_to_buffer ≡ some b
      → fd ≡ a
      → HasFed a i b (input ∷ [])
  fed_here a i b ka ba same =
      let same_id : id ≡ i =
        some_inj id i (sym known ∙ ap (λ x. lookup x s.fd_to_client_id) same ∙ ka) in
      let same_b : old_buffer ≡ b =
        some_inj old_buffer b
          (sym (v.buffers fd id known).1 ∙ ap (λ x. lookup x s.fd_to_buffer) same ∙ ba) in
      (
        same-Connection a i ka,
        ap (lookup a) after-IsConnected.2
            ∙ ap (λ x. lookup x kept.fd_to_buffer) (sym same)
            ∙ lookup-assign_self fd parsed.buffer s.fd_to_buffer
            ∙ ap (λ x. some (server_parse x input).buffer) same_b,
        ap (λ x. frames_of x (tagged id parsed.frames)) (sym same_id)
            ∙ frames_of-tagged id parsed.frames
            ∙ ap (λ x. (server_parse x input).frames) same_b
            ∙ sym (append-nil (server_parse b input).frames),
      )

  fed_there :
      (a i : ℤ) (b : List ℕ)
      → Connection s a i
      → lookup a s.fd_to_buffer ≡ some b
      → a ≢ fd
      → HasFed a i b []
  fed_there a i b ka ba other =
      let one_fd : id ≡ i → a ≡ fd =
        λ e. some_inj a fd (sym (v.forth a i ka) ∙ v.forth fd i (known ∙ ap some e)) in
      (
        same-Connection a i ka,
        ap (lookup a) after-IsConnected.2
            ∙ lookup-assign_ne a fd parsed.buffer s.fd_to_buffer other
            ∙ ba,
        frames_of-tagged_ne id i parsed.frames (λ e. other (one_fd e)),
      )

  pub received-IsPolled :
      (poll_event s (readable fd (received input)) ≡ ok (after, tagged id parsed.frames))
      × IsPolled s (readable fd (received input) ∷ []) after (tagged id parsed.frames)
  unfolding poll_event receive_from_client parse_received_packet
  received-IsPolled = (
    rw (v.buffers fd id known).1
        (rw (tag-tagged after fd id parsed.frames (same-Connection fd id known)) refl),
    record {
      connected = after-IsConnected.0;
      stays = λ a i b ka ba. elim (Bool-cases (fd ==ℤ a)) [
        | inl hit ↦ rw hit (fed_here a i b ka ba (==ℤ→eq fd a hit))
        | inr miss ↦ rw miss (fed_there a i b ka ba (λ e. ==ℤ→ne fd a miss (sym e)))
      ];
    },
  )
