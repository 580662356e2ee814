-- ===== src/Protocol/Kinds.antt =====
-- The type in the header of a message that `deserialise` returns is that of its alternative, so the
-- `std::get` of a dispatch on the type never fails.
use snake_multiplayer.Base.{
  ℕ, ◌+◌, ◌<◌, ◌≡◌, refl, subst, sym, ◌∙◌, ◌⊎◌, inl, inr, List, arith, length, Result, Error, ok,
  err, Bool-cases, ltb, Result-cases, drop, truncated_frame, length-drop, take,
}
use snake_multiplayer.Base.Int.{ℤ}
use snake_multiplayer.Protocol.Bytes.{Reader, ◌>>=◌, return, read_raw_bytes, read_i32, read_i64}
use snake_multiplayer.Protocol.Bytes.Laws.{bind_err, bind_ok}
use snake_multiplayer.Protocol.Types.{
  Header, MessageVariant, server_config, client_input, client_disconnect, server_welcome,
  client_join, game_state, header,
}
use snake_multiplayer.Protocol.Types.MessageType
use snake_multiplayer.Protocol.Read.{
  read_header, read_body, read_client_join, read_client_input, read_game_state, read_server_config,
  deserialise,
}

abbrev pub kind : MessageVariant → ℤ
kind (server_config m) = MessageType.server_config
kind (client_input m) = MessageType.client_input
kind (client_disconnect m) = MessageType.client_disconnect
kind (server_welcome m) = MessageType.server_welcome
kind (client_join m) = MessageType.client_join
kind (game_state m) = MessageType.game_state

-- What a reader returns, where it returns, satisfies `Q`.
abbrev Yields : {A : Type 0} → (A → Type 0) → Reader A → Type 0
Yields {A} Q p = (bs rest : List ℕ) (a : A) → p bs ≡ ok (a, rest) → Q a

>>=-Yields :
    {A B : Type 0} (Q : B → Type 0) (p : Reader A) (f : A → Reader B)
    → ((a : A) → Yields Q (f a))
    → Yields Q (p >>= f)
unfolding ◌>>=◌
>>=-Yields {A} {B} Q p f each bs rest b e = step (p bs) e
  where
    step :
        (r : Result (A × List ℕ))
        → (elim r [ ok (a, more) ↦ f a more | err x ↦ err x ]) ≡ ok (b, rest)
        → Q b
    step (ok (a, more)) e = each a more rest b e
    step (err x) e = cc

-- The message has header `h` and is of type `t`.
abbrev IsOf : Header → ℤ → MessageVariant → Type 0
IsOf h t msg = (header msg ≡ h) × (kind msg ≡ t)

return-Yields : {A : Type 0} (Q : A → Type 0) (a : A) → Q a → Yields Q (return a)
return-Yields Q a q bs rest b e = subst Q (cc) q

module _ (h : Header) where
  join-Yields : Yields (IsOf h MessageType.client_join) (read_client_join h)
  unfolding read_client_join header
  join-Yields =
      >>=-Yields _ _ _ λ name. return-Yields (IsOf h MessageType.client_join) _ (refl, refl)

  input-Yields : Yields (IsOf h MessageType.client_input) (read_client_input h)
  unfolding read_client_input header
  input-Yields =
      >>=-Yields _ _ _ λ c. return-Yields (IsOf h MessageType.client_input) _ (refl, refl)

  config-Yields : Yields (IsOf h MessageType.server_config) (read_server_config h)
  unfolding read_server_config header
  config-Yields = >>=-Yields _ _ _ λ a. >>=-Yields _ _ _ λ b. >>=-Yields _ _ _ λ c.
      >>=-Yields _ _ _ λ d. >>=-Yields _ _ _ λ e. >>=-Yields _ _ _ λ f. >>=-Yields _ _ _ λ g.
        >>=-Yields _ _ _ λ i.
          >>=-Yields _ _ _ λ j.
            >>=-Yields _ _ _ λ k. return-Yields (IsOf h MessageType.server_config) _ (refl, refl)

  state-Yields : Yields (IsOf h MessageType.game_state) (read_game_state h)
  unfolding read_game_state header
  state-Yields = >>=-Yields _ _ _ λ a. >>=-Yields _ _ _ λ b. >>=-Yields _ _ _ λ c.
      >>=-Yields _ _ _ λ d. >>=-Yields _ _ _ λ e. >>=-Yields _ _ _ λ f.
        >>=-Yields _ _ _
          λ g. >>=-Yields _ _ _ λ i. return-Yields (IsOf h MessageType.game_state) _ (refl, refl)

  read_body_kind : (buf : List ℕ) → Yields (IsOf h h.message_type) (read_body h buf)
  unfolding read_body header
  read_body_kind buf raw rest msg e = ground (
    arith,
    join-Yields raw rest msg,
    input-Yields raw rest msg,
    config-Yields raw rest msg,
    state-Yields raw rest msg,
  )

-- Whatever the frame, a message that `deserialise` returns is of the alternative that its header
-- names.
pub deserialise_kind :
    (buf : List ℕ) (msg : MessageVariant)
    → deserialise buf ≡ ok msg
    → (header msg).message_type ≡ kind msg
unfolding deserialise
deserialise_kind buf msg e = elim (Result-cases (read_header buf)) [
  | inl ((h, more), r) ↦ elim (Result-cases (read_body h buf (drop 24 buf))) [
    | inl ((m, rest), b) ↦ ground (arith, body r b, read_body_kind h buf (drop 24 buf) rest m b)
    | inr (x, b) ↦ cc (failed r b)
  ]
  | inr (x, r) ↦ cc (no_header r)
]
  where
    body :
        {h : Header} {more rest : List ℕ} {m : MessageVariant}
        → read_header buf ≡ ok (h, more)
        → read_body h buf (drop 24 buf) ≡ ok (m, rest)
        → ok msg ≡ ok m
    body r b = sym e ∙ rw (r, deserialise) (rw (b, deserialise))

    failed :
        {h : Header} {more : List ℕ} {x : Error}
        → read_header buf ≡ ok (h, more)
        → read_body h buf (drop 24 buf) ≡ err x
        → ok msg ≡ err x
    failed r b = sym e ∙ rw (r, deserialise) (rw (b, deserialise))

    no_header : {x : Error} → read_header buf ≡ err x → ok msg ≡ err x
    no_header r = sym e ∙ rw (r, deserialise)

-- A reader of `n` bytes: it throws on fewer, and otherwise leaves `n` fewer.
abbrev Needs : {A : Type 0} → ℕ → Reader A → Type 0
Needs {A} n p =
    (bs : List ℕ)
    → (p bs ≡ err truncated_frame)
      ⊎ ((a : A) × (rest : List ℕ) × (p bs ≡ ok (a, rest)) × (length rest + n ≡ length bs))

read_raw_bytes-Needs : (n : ℕ) → Needs n (read_raw_bytes n)
unfolding read_raw_bytes
read_raw_bytes-Needs n bs = elim (Bool-cases (ltb (length bs) n)) [
  | inl e ↦ inl (rw (e, read_raw_bytes))
  | inr e ↦ inr (take n bs, drop n bs, rw (e, read_raw_bytes), ground (arith, length-drop n bs))
]

word-Needs :
    {A : Type 0} (n : ℕ) (f : List ℕ → A) → Needs n (read_raw_bytes n >>= (λ bs. return (f bs)))
word-Needs n f bs = elim (read_raw_bytes-Needs n bs) [
  | inl e ↦ inl (bind_err _ _ e)
  | inr (a, rest, e, l) ↦ inr (f a, rest, bind_ok _ _ e, l)
]

read_i32-Needs : Needs 4 read_i32
unfolding read_i32
read_i32-Needs = word-Needs 4 _

read_i64-Needs : Needs 8 read_i64
unfolding read_i64
read_i64-Needs = word-Needs 8 _

short_bind :
    {A B : Type 0} (n m : ℕ) (p : Reader A) (f : A → Reader B)
    → Needs n p
    → ((a : A) (rest : List ℕ) → length rest < m → f a rest ≡ err truncated_frame)
    → (bs : List ℕ) → length bs < n + m
    → (p >>= f) bs ≡ err truncated_frame
short_bind n m p f needs next bs h = elim (needs bs) [
  | inl e ↦ bind_err p f e
  | inr (a, rest, e, l) ↦ bind_ok p f e ∙ next a rest (omega arith)
]

read_header_short : (buf : List ℕ) → length buf < 24 → read_header buf ≡ err truncated_frame
unfolding read_header
read_header_short = short_bind 4 20 read_i32 _ read_i32-Needs λ a.
    short_bind 4 16 read_i32 _ read_i32-Needs λ b.
      short_bind 8 8 read_i64 _ read_i64-Needs
        λ c. short_bind 8 0 read_i64 _ read_i64-Needs λ d rest h. absurd (omega arith)

-- A frame that is too short for a header, an empty one too, makes `deserialise` throw.
pub deserialise_short : (buf : List ℕ) → length buf < 24 → deserialise buf ≡ err truncated_frame
unfolding deserialise
deserialise_short buf h = rw (read_header_short buf h, deserialise)
