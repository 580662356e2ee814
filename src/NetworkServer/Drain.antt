-- ===== src/NetworkServer/Drain.antt =====
-- `drainDisconnects`: exactly the connections on the list go.
use snake_multiplayer.Base.{
  ◌≡◌, ◌≢◌, refl, ap, sym, ◌∙◌, inl, inr, ◌∈◌, false, List, [], ◌∷◌, some, ok, Bool-cases,
}
use snake_multiplayer.Base.Int.{ℤ, ==ℤ→eq, ==ℤ→ne, ◌==ℤ◌}
use snake_multiplayer.Base.Map.{lookup, contains, erase, int_key}
use snake_multiplayer.Base.Map.Laws.{lookup-erase_ne}
use snake_multiplayer.Base.Map.Assign.{contains-lookup, lookup-contains, lookup-erase_cases}
use snake_multiplayer.NetworkServer.{NetworkServer, disconnect_client, drain, drain_disconnects}
use snake_multiplayer.NetworkServer.Connected.{Connection, IsConnected}
use snake_multiplayer.NetworkServer.Feed.{some_inj}

-- The list to disconnect put aside.
abbrev quiet : NetworkServer → NetworkServer
quiet s = record s { fds_to_disconnect = [] }

-- The maps without a connection.
abbrev without : NetworkServer → ℤ → ℤ → NetworkServer
without s fd id = record s {
  client_id_to_fd = erase id s.client_id_to_fd;
  fd_to_client_id = erase fd s.fd_to_client_id;
  fd_to_buffer = erase fd s.fd_to_buffer;
}

without-IsConnected :
    (s : NetworkServer) (fd id : ℤ)
    → Connection s fd id
    → IsConnected (quiet s)
    → IsConnected (quiet (without s fd id))
without-IsConnected s fd id known v =
    let other_id : (a i : ℤ) → Connection s a i → a ≢ fd → i ≢ id = λ a i ka ne e.
      ne (some_inj a fd (sym (v.forth a i ka) ∙ v.forth fd i (known ∙ ap some (sym e)))) in
    let other_fd : (a i : ℤ) → Connection s a i → i ≢ id → a ≢ fd =
      λ a i ka ne e. ne (some_inj i id (sym ka ∙ ap (λ x. lookup x s.fd_to_client_id) e ∙ known)) in
    record {
      forth = λ a i x.
          let (ne, ka) = lookup-erase_cases a fd i s.fd_to_client_id x in
          lookup-erase_ne i id s.client_id_to_fd (other_id a i ka ne) ∙ v.forth a i ka;
      back = λ a i x.
          let (ne, old) = lookup-erase_cases i id a s.client_id_to_fd x in
          let ka = v.back a i old in
          lookup-erase_ne a fd s.fd_to_client_id (other_fd a i ka ne) ∙ ka;
      ids = λ a i x. v.ids a i (lookup-erase_cases a fd i s.fd_to_client_id x).1;
      buffers = λ a i x.
          let (ne, ka) = lookup-erase_cases a fd i s.fd_to_client_id x in
          let (b, e) = v.buffers a i ka in (b, lookup-erase_ne a fd s.fd_to_buffer ne ∙ e);
      orphans = λ a b x.
          let (ne, old) = lookup-erase_cases a fd b s.fd_to_buffer x in
          let (i, ka) = v.orphans a b old in (i, lookup-erase_ne a fd s.fd_to_client_id ne ∙ ka);
      doomed = λ a x. absurd x;
    }

-- What is left after the descriptors `fds` have gone, and whose ids are reported.
pub record IsDrained (s : NetworkServer) (fds : List ℤ) (s' : NetworkServer) (ids : List ℤ)
    : Type 0 where
  pub connected : IsConnected (quiet s')
  pub gone :
      (fd id : ℤ) → Connection s fd id → fd ∈ fds → (id ∈ ids) × ((i : ℤ) → Connection s' fd i → ⊥)
  pub stays :
      (fd id : ℤ)
      → Connection s fd id
      → (fd ∈ fds → ⊥)
      → Connection s' fd id × (lookup fd s'.fd_to_buffer ≡ lookup fd s.fd_to_buffer)
  pub shrinks : (fd id : ℤ) → Connection s' fd id → Connection s fd id
  pub listed : (id : ℤ) → id ∈ ids → (fd : ℤ) × (fd ∈ fds) × Connection s fd id

one-IsDrained :
    (s : NetworkServer) (fd id : ℤ) (fds : List ℤ) (s' : NetworkServer) (ids : List ℤ)
    → Connection s fd id
    → IsDrained (without s fd id) fds s' ids
    → IsDrained s (fd ∷ fds) s' (id ∷ ids)
one-IsDrained s fd id fds s' ids known r =
    let old : (a i : ℤ) → Connection s' a i → (a ≢ fd) × Connection s a i =
      λ a i x. lookup-erase_cases a fd i s.fd_to_client_id (r.shrinks a i x) in
    let kept : (a i : ℤ) → Connection s a i → a ≢ fd → Connection (without s fd id) a i =
      λ a i ka ne. lookup-erase_ne a fd s.fd_to_client_id ne ∙ ka in
    record {
      connected = r.connected;
      gone = λ a i ka x. elim (Bool-cases (a ==ℤ fd)) [
        | inl hit ↦
            let same = ==ℤ→eq a fd hit in
            (
              inl (some_inj i id (sym ka ∙ ap (λ y. lookup y s.fd_to_client_id) same ∙ known)),
              λ j y. (old a j y).0 same,
            )
        | inr miss ↦ elim x [
          | inl same ↦ absurd (==ℤ→ne a fd miss same)
          | inr later ↦
              let (there, away) = r.gone a i (kept a i ka (==ℤ→ne a fd miss)) later in
              (inr there, away)
        ]
      ];
      stays = λ a i ka x.
          let ne : a ≢ fd = λ e. x (inl e) in
          let (ka', b) = r.stays a i (kept a i ka ne) (λ y. x (inr y)) in
          (ka', b ∙ lookup-erase_ne a fd s.fd_to_buffer ne);
      shrinks = λ a i x. (old a i x).1;
      listed = λ i x. elim x [
        | inl same ↦ (fd, inl refl, known ∙ ap some (sym same))
        | inr later ↦
            let (a, on, ka) = r.listed i later in
            (a, inr on, (lookup-erase_cases a fd i s.fd_to_client_id ka).1)
      ];
    }

none-IsDrained :
    (s : NetworkServer) (fd : ℤ) (fds : List ℤ) (s' : NetworkServer) (ids : List ℤ)
    → contains fd s.fd_to_client_id ≡ false
    → IsDrained s fds s' ids
    → IsDrained s (fd ∷ fds) s' ids
none-IsDrained s fd fds s' ids missing r =
    let unknown : (a i : ℤ) → Connection s a i → a ≡ fd → ⊥ = λ a i ka e. absurd (
      cc (
        missing,
        lookup-contains fd s.fd_to_client_id i (ap (λ y. lookup y s.fd_to_client_id) (sym e) ∙ ka),
      )) in
    record {
      connected = r.connected;
      gone = λ a i ka x. elim x [
        | inl same ↦ absurd (unknown a i ka same)
        | inr later ↦ r.gone a i ka later
      ];
      stays = λ a i ka x. r.stays a i ka (λ y. x (inr y));
      shrinks = r.shrinks;
      listed = λ i x. let (a, on, ka) = r.listed i x in (a, inr on, ka);
    }

drain-IsDrained :
    (s : NetworkServer) (fds : List ℤ)
    → IsConnected (quiet s)
    → (s' : NetworkServer) × (ids : List ℤ) × (drain s fds ≡ ok (s', ids)) × IsDrained s fds s' ids
unfolding drain disconnect_client
drain-IsDrained s [] v = (
  s,
  [],
  refl,
  record {
    connected = v;
    gone = λ fd id known x. absurd x;
    stays = λ fd id known x. (known, refl);
    shrinks = λ fd id x. x;
    listed = λ id x. absurd x;
  },
)
drain-IsDrained s (fd ∷ fds) v = elim (Bool-cases (contains fd s.fd_to_client_id)) [
  | inl there ↦
      let (id, known) = contains-lookup fd s.fd_to_client_id there in
      let (s', ids, e, r) =
        drain-IsDrained (without s fd id) fds (without-IsConnected s fd id known v) in
      (s', id ∷ ids, rw there (rw known (rw e refl)), one-IsDrained s fd id fds s' ids known r)
  | inr missing ↦
      let (s', ids, e, r) = drain-IsDrained s fds v in
      (s', ids, rw missing e, none-IsDrained s fd fds s' ids missing r)
]

-- With consistent maps `drainDisconnects` does not throw, and leaves the maps consistent and the list
-- to disconnect empty. It reports the ids of the connections on the list and no others; these
-- connections are gone; every other connection is still there, with its buffer.
pub drain_disconnects-IsDrained :
    (s : NetworkServer)
    → IsConnected s
    → (s' : NetworkServer) × (ids : List ℤ) × (drain_disconnects s ≡ ok (s', ids))
      × IsDrained s s.fds_to_disconnect s' ids
      × IsConnected s'
      × (s'.fds_to_disconnect ≡ [])
unfolding drain_disconnects
drain_disconnects-IsDrained s v =
    let idle : IsConnected (quiet s) = record {
      forth = v.forth;
      back = v.back;
      ids = v.ids;
      buffers = v.buffers;
      orphans = v.orphans;
      doomed = λ a x. absurd x;
    } in
    let (s', ids, e, r) = drain-IsDrained s s.fds_to_disconnect idle in
    (
      quiet s',
      ids,
      rw e refl,
      record {
        connected = r.connected;
        gone = r.gone;
        stays = r.stays;
        shrinks = r.shrinks;
        listed = r.listed;
      },
      r.connected,
      refl,
    )
