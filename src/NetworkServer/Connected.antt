-- ===== src/NetworkServer/Connected.antt =====
-- The three maps of `NetworkServer` speak of the same connections.
use snake_multiplayer.Base.{
  ℕ, ◌≡◌, ◌≢◌, ap, sym, ◌∙◌, subst, inl, inr, ◌∈◌, List, [], ◌∷◌, none, some, arith, Bool-cases,
}
use snake_multiplayer.Base.Int.{ℤ, pos, ◌+ℤ◌, ◌<ℤ◌, ◌==ℤ◌, ==ℤ→eq, ==ℤ→ne, +ℤ_parts}
use snake_multiplayer.Base.Map.{lookup, assign, int_key}
use snake_multiplayer.Base.Map.Assign.{lookup-assign_self, lookup-assign_ne, lookup-assign_cases}
use snake_multiplayer.NetworkServer.{NetworkServer, insert, is_member, doom, add_client}

-- A descriptor is known by this id.
abbrev pub Connection : NetworkServer → ℤ → ℤ → Type 0
Connection s fd id = lookup fd s.fd_to_client_id ≡ some id

pub record IsConnected (s : NetworkServer) : Type 0 where
  pub forth : (fd id : ℤ) → Connection s fd id → lookup id s.client_id_to_fd ≡ some fd
  pub back : (fd id : ℤ) → lookup id s.client_id_to_fd ≡ some fd → Connection s fd id
  pub ids : (fd id : ℤ) → Connection s fd id → id <ℤ s.next_client_id
  pub buffers :
      (fd id : ℤ) → Connection s fd id → (b : List ℕ) × (lookup fd s.fd_to_buffer ≡ some b)
  pub orphans :
      (fd : ℤ) (b : List ℕ) → lookup fd s.fd_to_buffer ≡ some b → (id : ℤ) × Connection s fd id
  pub doomed : (fd : ℤ) → fd ∈ s.fds_to_disconnect → (id : ℤ) × Connection s fd id

pub insert-∈ : (a fd : ℤ) (xs : List ℤ) → a ∈ insert fd xs → a ∈ (fd ∷ xs)
insert-∈ a fd xs h = elim (Bool-cases (is_member fd xs)) [
  | inl there ↦ inr (rw there at h)
  | inr new ↦ rw new at h
]

pub doom-IsConnected :
    (fd id : ℤ) (s : NetworkServer) → Connection s fd id → IsConnected s → IsConnected (doom fd s)
unfolding doom
doom-IsConnected fd id s known v = record {
  forth = v.forth;
  back = v.back;
  ids = v.ids;
  buffers = v.buffers;
  orphans = v.orphans;
  doomed = λ a x. elim (insert-∈ a fd s.fds_to_disconnect x) [
    | inl same ↦ (id, ap (λ y. lookup y s.fd_to_client_id) same ∙ known)
    | inr old ↦ v.doomed a old
  ];
}

-- A buffer of a known descriptor is replaced.
pub buffer-IsConnected :
    (fd id : ℤ) (b : List ℕ) (s : NetworkServer)
    → Connection s fd id
    → IsConnected s
    → IsConnected (record s { fd_to_buffer = assign fd b s.fd_to_buffer })
buffer-IsConnected fd id b s known v = record {
  forth = v.forth;
  back = v.back;
  ids = v.ids;
  buffers = λ a i x. elim (Bool-cases (a ==ℤ fd)) [
    | inl same ↦ (
      b,
      ap (λ y. lookup y (assign fd b s.fd_to_buffer)) (==ℤ→eq a fd same)
          ∙ lookup-assign_self fd b s.fd_to_buffer,
    )
    | inr other ↦
        let (c, e) = v.buffers a i x in
        (c, lookup-assign_ne a fd b s.fd_to_buffer (==ℤ→ne a fd other) ∙ e)
  ];
  orphans = λ a c x. elim (Bool-cases (a ==ℤ fd)) [
    | inl same ↦ (id, ap (λ y. lookup y s.fd_to_client_id) (==ℤ→eq a fd same) ∙ known)
    | inr other ↦
        v.orphans a c (sym (lookup-assign_ne a fd b s.fd_to_buffer (==ℤ→ne a fd other)) ∙ x)
  ];
  doomed = v.doomed;
}

below_next : (a b : ℤ) → a <ℤ b → a <ℤ (b +ℤ pos 1)
below_next a b l = omega (arith, l, +ℤ_parts b (pos 1))

here_next : (a : ℤ) → a <ℤ (a +ℤ pos 1)
here_next a = omega (arith, +ℤ_parts a (pos 1))

none-some : {A : Type 0} (a : A) → none ≡ some a → ⊥
none-some a e = cc e

pub add_client-IsConnected :
    (fd : ℤ) (s : NetworkServer)
    → lookup fd s.fd_to_client_id ≡ none
    → IsConnected s
    → IsConnected (add_client s fd)
unfolding add_client
add_client-IsConnected fd s new v =
    let n = s.next_client_id in
    let fresh : (a : ℤ) → Connection s a n → ⊥ = λ a x. absurd (omega (arith, v.ids a n x)) in
    let known_ne : (a i : ℤ) → Connection s a i → a ≢ fd = λ a i x y.
      absurd (none-some i (sym new ∙ ap (λ z. lookup z s.fd_to_client_id) (sym y) ∙ x)) in
    record {
      forth = λ a i x. elim (lookup-assign_cases a fd i n s.fd_to_client_id x) [
        | inl (ea, ei) ↦
            ap (λ y. lookup y (assign n fd s.client_id_to_fd)) ei
            ∙ lookup-assign_self n fd s.client_id_to_fd
            ∙ ap some (sym ea)
        | inr (ne, old) ↦
            lookup-assign_ne i n fd s.client_id_to_fd (λ y. fresh a (old ∙ ap some y))
            ∙ v.forth a i old
      ];
      back = λ a i x. elim (lookup-assign_cases i n a fd s.client_id_to_fd x) [
        | inl (ei, ea) ↦
            ap (λ y. lookup y (assign fd n s.fd_to_client_id)) ea
            ∙ lookup-assign_self fd n s.fd_to_client_id
            ∙ ap some (sym ei)
        | inr (ne, old) ↦
            let was = v.back a i old in
            lookup-assign_ne a fd n s.fd_to_client_id (known_ne a i was) ∙ was
      ];
      ids = λ a i x. elim (lookup-assign_cases a fd i n s.fd_to_client_id x) [
        | inl (ea, ei) ↦ subst (λ y. y <ℤ (n +ℤ pos 1)) (sym ei) (here_next n)
        | inr (ne, old) ↦ below_next i n (v.ids a i old)
      ];
      buffers = λ a i x. elim (lookup-assign_cases a fd i n s.fd_to_client_id x) [
        | inl (ea, ei) ↦ (
          [],
          ap (λ y. lookup y (assign fd [] s.fd_to_buffer)) ea
              ∙ lookup-assign_self fd [] s.fd_to_buffer,
        )
        | inr (ne, old) ↦
            let (b, e) = v.buffers a i old in (b, lookup-assign_ne a fd [] s.fd_to_buffer ne ∙ e)
      ];
      orphans = λ a b x. elim (lookup-assign_cases a fd b [] s.fd_to_buffer x) [
        | inl (ea, eb) ↦ (
          n,
          ap (λ y. lookup y (assign fd n s.fd_to_client_id)) ea
              ∙ lookup-assign_self fd n s.fd_to_client_id,
        )
        | inr (ne, old) ↦
            let (i, e) = v.orphans a b old in (i, lookup-assign_ne a fd n s.fd_to_client_id ne ∙ e)
      ];
      doomed = λ a x.
          let (i, e) = v.doomed a x in
          (i, lookup-assign_ne a fd n s.fd_to_client_id (known_ne a i e) ∙ e);
    }
