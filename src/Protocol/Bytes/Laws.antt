-- ===== src/Protocol/Bytes/Laws.antt =====
-- What is written raw is read back raw, for each width.
use native.Mathlib.Nat.{pow-suc}
use snake_multiplayer.Base.{
  ℕ, zero, suc, ◌+◌, ◌-◌, ◌/◌, ◌^◌, ◌≤◌, ◌<◌, ◌≡◌, refl, ◌∙◌, List, [], ◌∷◌, ◌++◌, arith, length,
  take, replicate, ok, err, Error, truncated_frame, length-append, take-append, drop-append,
}
use snake_multiplayer.Base.Int.{ℤ, pos, negsuc}
use snake_multiplayer.Protocol.Bytes.{
  IsI32, IsI64, IsU32, i32_word, i64_word, word_i32, word_i64, word_bytes, bytes_word, i32_bytes,
  i64_bytes, u32_bytes, read_raw_bytes, read_i32, read_i64, read_u32, read_char, ◌>>=◌, Reader,
  resize, append_raw_bytes, cursor_at,
}

length-word_bytes : (k w : ℕ) → length (word_bytes k w) ≡ k
unfolding word_bytes
length-word_bytes zero w = refl
length-word_bytes (suc k) w = omega (arith, length-word_bytes k (w / 256))

pub length-i32_bytes : (z : ℤ) → length (i32_bytes z) ≡ 4
unfolding i32_bytes
length-i32_bytes z = length-word_bytes 4 (i32_word z)

pub length-i64_bytes : (z : ℤ) → length (i64_bytes z) ≡ 8
unfolding i64_bytes
length-i64_bytes z = length-word_bytes 8 (i64_word z)

pub length-u32_bytes : (n : ℕ) → length (u32_bytes n) ≡ 4
unfolding u32_bytes
length-u32_bytes n = length-word_bytes 4 n

-- Words survive the trip through their bytes.
pub bytes_word-word_bytes : (k w : ℕ) → w < 256 ^ k → bytes_word (word_bytes k w) ≡ w
unfolding bytes_word word_bytes
bytes_word-word_bytes zero w h = omega arith
bytes_word-word_bytes (suc k) w h =
    omega (arith, pow-suc 256 k, bytes_word-word_bytes k (w / 256) (omega (arith, pow-suc 256 k)))

i32_word-lt : (z : ℤ) → i32_word z < 2 ^ 32
unfolding i32_word
i32_word-lt (pos n) = omega arith
i32_word-lt (negsuc n) = omega arith

i64_word-lt : (z : ℤ) → i64_word z < 2 ^ 64
unfolding i64_word
i64_word-lt (pos n) = omega arith
i64_word-lt (negsuc n) = omega arith

word_i32-i32_word : (z : ℤ) → IsI32 z → word_i32 (i32_word z) ≡ z
unfolding word_i32 i32_word
word_i32-i32_word (pos n) h = ground arith
word_i32-i32_word (negsuc n) h = ground arith

word_i64-i64_word : (z : ℤ) → IsI64 z → word_i64 (i64_word z) ≡ z
unfolding word_i64 i64_word
word_i64-i64_word (pos n) h = ground arith
word_i64-i64_word (negsuc n) h = ground arith

pub read_raw_bytes-append :
    (n : ℕ) (xs rest : List ℕ) → length xs ≡ n → read_raw_bytes n (xs ++ rest) ≡ ok (xs, rest)
unfolding read_raw_bytes
read_raw_bytes-append n xs rest e =
    ground (arith, length-append xs rest, take-append n xs rest e, drop-append n xs rest e)

pub read_raw_bytes_short :
    (n : ℕ) (xs : List ℕ) → length xs < n → read_raw_bytes n xs ≡ err truncated_frame
unfolding read_raw_bytes
read_raw_bytes_short n xs h = ground arith

-- Running a reader first, then the rest.
pub bind_ok :
    {A B : Type 0} (p : Reader A) (f : A → Reader B) {bs rest : List ℕ} {a : A}
    → p bs ≡ ok (a, rest)
    → (p >>= f) bs ≡ f a rest
unfolding ◌>>=◌
bind_ok p f e = rw (e, ◌>>=◌)

pub bind_err :
    {A B : Type 0} (p : Reader A) (f : A → Reader B) {bs : List ℕ} {e : Error}
    → p bs ≡ err e
    → (p >>= f) bs ≡ err e
unfolding ◌>>=◌
bind_err p f h = rw (h, ◌>>=◌)

pub read_i32-i32_bytes :
    (z : ℤ) (rest : List ℕ) → IsI32 z → read_i32 (i32_bytes z ++ rest) ≡ ok (z, rest)
unfolding read_i32 i32_bytes
read_i32-i32_bytes z rest h =
    bind_ok _ _ (read_raw_bytes-append 4 (word_bytes 4 (i32_word z)) rest (length-word_bytes 4 _))
    ∙ rw (bytes_word-word_bytes 4 (i32_word z) (i32_word-lt z), word_i32-i32_word z h)

pub read_i64-i64_bytes :
    (z : ℤ) (rest : List ℕ) → IsI64 z → read_i64 (i64_bytes z ++ rest) ≡ ok (z, rest)
unfolding read_i64 i64_bytes
read_i64-i64_bytes z rest h =
    bind_ok _ _ (read_raw_bytes-append 8 (word_bytes 8 (i64_word z)) rest (length-word_bytes 8 _))
    ∙ rw (bytes_word-word_bytes 8 (i64_word z) (i64_word-lt z), word_i64-i64_word z h)

pub read_u32-u32_bytes :
    (n : ℕ) (rest : List ℕ) → IsU32 n → read_u32 (u32_bytes n ++ rest) ≡ ok (n, rest)
unfolding read_u32 u32_bytes
read_u32-u32_bytes n rest h =
    bind_ok _ _ (read_raw_bytes-append 4 (word_bytes 4 n) rest (length-word_bytes 4 n))
    ∙ rw (bytes_word-word_bytes 4 n h)

pub read_char_lem : (c : ℕ) (rest : List ℕ) → read_char (c ∷ rest) ≡ ok (c, rest)
unfolding read_char
read_char_lem c rest =
    bind_ok _ _ (read_raw_bytes-append 1 (c ∷ []) rest refl) ∙ (unfold bytes_word in ground arith)

take_all : (n : ℕ) (xs : List ℕ) → length xs ≤ n → take n xs ≡ xs
take_all zero [] h = refl
take_all zero (x ∷ xs) h = absurd (omega arith)
take_all (suc n) [] h = refl
take_all (suc n) (x ∷ xs) h = rw (take_all n xs (omega arith))

-- A buffer that is resized upwards keeps its bytes, with zeros behind them.
pub cursor_at-resize :
    (n k : ℕ) (buf : List ℕ)
    → length buf ≡ n
    → cursor_at n (resize (n + k) buf) ≡ record { before = buf; after = replicate k 0 }
unfolding cursor_at resize
cursor_at-resize n k buf e =
    let grown : n + k - length buf ≡ k = omega arith in
    rw (take_all (n + k) buf (omega arith), take-append n buf _ e, drop-append n buf _ e, grown)

pub append_raw_bytes_lem : (source dest : List ℕ) → append_raw_bytes source dest ≡ dest ++ source
unfolding append_raw_bytes
append_raw_bytes_lem source dest = rw (
  take_all (length dest + length source) dest (omega arith),
  take-append (length dest) dest _ refl,
)
