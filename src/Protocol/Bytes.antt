-- ===== src/Protocol/Bytes.antt =====
-- The raw reads and writes of include/common/Protocol.h. A byte is a number below 256, a buffer a
-- list of bytes, and an integer is laid out least significant byte first, as on the hosts that the
-- source assumes.
pub mod Laws
use snake_multiplayer.Base.{
  ℕ, zero, suc, ◌+◌, ◌-◌, ◌*◌, ◌/◌, ◌%◌, ◌^◌, ◌<◌, List, [], ◌∷◌, ◌++◌, ltb, if◌then◌else◌, length,
  take, drop, replicate, Result, ok, err, truncated_frame,
}
use snake_multiplayer.Base.Int.{ℤ, pos, negsuc}

abbrev pub IsByte : ℕ → Type 0
IsByte b = b < 256

abbrev pub IsI32 : ℤ → Type 0
IsI32 (pos n) = n < 2 ^ 31
IsI32 (negsuc n) = n < 2 ^ 31

abbrev pub IsI64 : ℤ → Type 0
IsI64 (pos n) = n < 2 ^ 63
IsI64 (negsuc n) = n < 2 ^ 63

abbrev pub IsU32 : ℕ → Type 0
IsU32 n = n < 2 ^ 32

-- Two's complement.
unfoldable pub i32_word : ℤ → ℕ
i32_word (pos n) = n % 2 ^ 32
i32_word (negsuc n) = 2 ^ 32 - 1 - n % 2 ^ 32

unfoldable pub i64_word : ℤ → ℕ
i64_word (pos n) = n % 2 ^ 64
i64_word (negsuc n) = 2 ^ 64 - 1 - n % 2 ^ 64

unfoldable pub word_i32 : ℕ → ℤ
word_i32 w = if ltb w (2 ^ 31) then pos w else negsuc (2 ^ 32 - 1 - w)

unfoldable pub word_i64 : ℕ → ℤ
word_i64 w = if ltb w (2 ^ 63) then pos w else negsuc (2 ^ 64 - 1 - w)

-- The object representation of a `k`-byte word, and back.
unfoldable pub word_bytes : ℕ → ℕ → List ℕ
word_bytes zero w = []
word_bytes (suc k) w = w % 256 ∷ word_bytes k (w / 256)

unfoldable pub bytes_word : List ℕ → ℕ
bytes_word [] = 0
bytes_word (b ∷ bs) = b + 256 * bytes_word bs

unfoldable pub i32_bytes : ℤ → List ℕ
i32_bytes z = word_bytes 4 (i32_word z)

unfoldable pub i64_bytes : ℤ → List ℕ
i64_bytes z = word_bytes 8 (i64_word z)

unfoldable pub u32_bytes : ℕ → List ℕ
u32_bytes n = word_bytes 4 n

-- What is left of the buffer between the read pointer and its end.
abbrev pub Reader : Type 0 → Type 0
Reader A = List ℕ → Result (A × List ℕ)

infixl 5 ◌>>=◌
unfoldable pub ◌>>=◌ : {A B : Type 0} → Reader A → (A → Reader B) → Reader B
◌>>=◌ p f bs = elim (p bs) [ ok (a, rest) ↦ f a rest | err e ↦ err e ]

abbrev pub return : {A : Type 0} → A → Reader A
return a bs = ok (a, bs)

-- `readRawBytes` at a type of `n` bytes.
unfoldable pub read_raw_bytes : ℕ → Reader (List ℕ)
read_raw_bytes n source =
    if ltb (length source) n then err truncated_frame else ok (take n source, drop n source)

unfoldable pub read_i32 : Reader ℤ
read_i32 = do bs ← read_raw_bytes 4; return (word_i32 (bytes_word bs))

unfoldable pub read_i64 : Reader ℤ
read_i64 = do bs ← read_raw_bytes 8; return (word_i64 (bytes_word bs))

unfoldable pub read_u32 : Reader ℕ
read_u32 = do bs ← read_raw_bytes 4; return (bytes_word bs)

unfoldable pub read_char : Reader ℕ
read_char = do bs ← read_raw_bytes 1; return (bytes_word bs)

-- A buffer of fixed size in the course of being written: the bytes before the write pointer, and
-- those after it.
pub record Cursor : Type 0 where
  pub before : List ℕ
  pub after : List ℕ

unfoldable pub write_raw_bytes : List ℕ → Cursor → Cursor
write_raw_bytes source dest = record {
  before = dest.before ++ source;
  after = drop (length source) dest.after;
}

abbrev pub buffer : Cursor → List ℕ
buffer c = c.before ++ c.after

-- `std::string::resize`: new bytes are 0.
unfoldable pub resize : ℕ → List ℕ → List ℕ
resize n buf = take n buf ++ replicate (n - length buf) 0

unfoldable pub append_raw_bytes : List ℕ → List ℕ → List ℕ
unfolding resize
append_raw_bytes source dest =
    take (length dest) (resize (length dest + length source) dest) ++ source

-- A write pointer `n` bytes into a buffer.
unfoldable pub cursor_at : ℕ → List ℕ → Cursor
cursor_at n buf = record { before = take n buf; after = drop n buf }
