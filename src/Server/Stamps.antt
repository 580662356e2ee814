-- ===== src/Server/Stamps.antt =====
-- Stamped messages in the log: what was written there, and the next sequence number.
use snake_multiplayer.Base.{
  ℕ, suc, ◌+◌, ◌≡◌, refl, ap, sym, ◌∙◌, inl, inr, List, [], ◌∷◌, ◌++◌, arith, length, length-append,
  Result, Result-cases, ok, ◌>>=◌,
}
use snake_multiplayer.Base.Int.{ℤ, pos, ◌+ℤ◌}
use snake_multiplayer.Protocol.Types.{MessageVariant, header, with_header}
use snake_multiplayer.Protocol.Write.{serialise}
use snake_multiplayer.Base.Map.{int_key}
use snake_multiplayer.MessageLog.{log}
use snake_multiplayer.MessageLog.Replay.{logged}

-- Messages stamped at one time, with sequence numbers without a gap from `n` on.
abbrev pub stamped : ℤ → ℤ → List MessageVariant → List MessageVariant
stamped tick n [] = []
stamped tick n (m ∷ ms) =
    with_header m (record (header m) { sequence = n; transact_time = tick })
    ∷ stamped tick (n +ℤ pos 1) ms

-- A log `out` with the next number `n`, and what they are after these messages were recorded.
pub record Recorded (tick : ℤ) (messages : List MessageVariant) (out : List ℕ) (n : ℤ)
    (out' : List ℕ) (n' : ℤ) : Type 0 where
  pub written : out' ≡ logged out (stamped tick n messages)
  pub next : n' ≡ n +ℤ pos (length messages)

add_step : (n : ℤ) (k : ℕ) → (n +ℤ pos 1) +ℤ pos k ≡ n +ℤ pos (suc k)
unfolding ◌+ℤ◌
add_step n k = ground arith

add_zero : (n : ℤ) → n +ℤ pos 0 ≡ n
unfolding ◌+ℤ◌
add_zero n = ground arith

add_sum : (n : ℤ) (j k : ℕ) → (n +ℤ pos j) +ℤ pos k ≡ n +ℤ pos (j + k)
unfolding ◌+ℤ◌
add_sum n j k = ground arith

logged-append :
    (out : List ℕ) (ms ns : List MessageVariant) → logged out (ms ++ ns) ≡ logged (logged out ms) ns
logged-append out [] ns = refl
logged-append out (m ∷ ms) ns = logged-append (log out (serialise m)) ms ns

stamped-append :
    (tick n : ℤ) (ms ns : List MessageVariant)
    → stamped tick n (ms ++ ns) ≡ stamped tick n ms ++ stamped tick (n +ℤ pos (length ms)) ns
stamped-append tick n [] ns = ap (λ k. stamped tick k ns) (sym (add_zero n))
stamped-append tick n (m ∷ ms) ns =
    ap
      (λ (xs : List MessageVariant).
        with_header m (record (header m) { sequence = n; transact_time = tick }) ∷ xs)
      (stamped-append tick (n +ℤ pos 1) ms ns
        ∙ ap (λ k. stamped tick (n +ℤ pos 1) ms ++ stamped tick k ns) (add_step n (length ms)))

pub Recorded-refl : (tick : ℤ) (out : List ℕ) (n : ℤ) → Recorded tick [] out n out n
Recorded-refl tick out n = record { written = refl; next = sym (add_zero n) }

pub Recorded-trans :
    (tick : ℤ) (ms ns : List MessageVariant) (a b c : List ℕ) (n k l : ℤ)
    → Recorded tick ms a n b k
    → Recorded tick ns b k c l
    → Recorded tick (ms ++ ns) a n c l
Recorded-trans tick ms ns a b c n k l r s = record {
  written =
      s.written
      ∙ ap (λ (x : List ℕ). logged x (stamped tick k ns)) r.written
      ∙ ap (λ i. logged (logged a (stamped tick n ms)) (stamped tick i ns)) r.next
      ∙ sym (logged-append a (stamped tick n ms) (stamped tick (n +ℤ pos (length ms)) ns))
      ∙ ap (logged a) (sym (stamped-append tick n ms ns));
  next =
      s.next
      ∙ ap (λ (i : ℤ). i +ℤ pos (length ns)) r.next
      ∙ add_sum n (length ms) (length ns)
      ∙ ap (λ (i : ℕ). n +ℤ pos i) (sym (length-append ms ns));
}

-- A successful bind, taken apart.
pub bound :
    {A B : Type 0} (r : Result A) (next : A → Result B) (b : B)
    → (r >>= next) ≡ ok b
    → (a : A) × (r ≡ ok a) × (next a ≡ ok b)
bound r next b e = elim (Result-cases r) [
  | inl (a, x) ↦ (a, x, sym (rw x) ∙ e)
  | inr (t, x) ↦ cc (e, x)
]
