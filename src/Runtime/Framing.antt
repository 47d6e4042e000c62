-- ===== src/Runtime/Framing.antt =====
-- runtime/src/protocol.rs: messages on a TCP stream, each behind its length. Bytes are numbers below
-- 256. The JSON library is a parameter: `to_vec` and `from_slice`.
use cortex_engine.Common.{
  ℕ, zero, suc, ◌+◌, ◌-◌, ◌*◌, ◌/◌, ◌%◌, ◌^◌, Option, none, some, List, [], ◌∷◌, ◌++◌,
  if◌then◌else◌, leb, length, take, drop,
}

-- What the peer's writes have become: pieces of bytes as they arrive, or an error of the socket.
pub data Segment : Type 0 where
  bytes : List ℕ → Segment
  broken : Segment

abbrev pub Stream : Type 0
Stream = List Segment

-- `stream.read(buf)`, for a buffer of `n` bytes: what it returns, and what is still to come. Nothing
-- at all means that the stream is closed.
unfoldable pub read : ℕ → Stream → Option (List ℕ) × Stream
read n [] = (some [], [])
read n (broken ∷ s) = (none, s)
read n (bytes b ∷ s) =
    if leb (length b) n then (some b, s) else (some (take n b), bytes (drop n b) ∷ s)

pub data Filled : Type 0 where
  full : List ℕ → Filled
  closed : Filled
  io_error : Filled

-- The loop of `read_exact_or_closed`, on fuel, for the `need` bytes that the buffer still lacks.
unfoldable pub read_loop : ℕ → ℕ → List ℕ → Stream → Filled × Stream
unfolding read
read_loop fuel zero got s = (Filled.full got, s)
read_loop zero (suc need) got s = (Filled.io_error, s)
read_loop (suc fuel) (suc need) got s =
    let (piece, rest) = read (suc need) s in
    elim piece [
      | none ↦ (Filled.io_error, rest)
      | some [] ↦ (Filled.closed, rest)
      | some (b ∷ bs) ↦ read_loop fuel (suc need - length (b ∷ bs)) (got ++ b ∷ bs) rest
    ]

-- Every read brings a byte, so that as many turns as bytes are enough.
unfoldable pub read_exact_or_closed : ℕ → Stream → Filled × Stream
unfolding read_loop
read_exact_or_closed n s = read_loop n n [] s

unfoldable pub u32_to_be_bytes : ℕ → List ℕ
u32_to_be_bytes n = n / 2 ^ 24 % 256 ∷ n / 2 ^ 16 % 256 ∷ n / 2 ^ 8 % 256 ∷ n % 256 ∷ []

unfoldable pub u32_from_be_bytes : List ℕ → ℕ
u32_from_be_bytes (a ∷ b ∷ c ∷ d ∷ []) = a * 2 ^ 24 + b * 2 ^ 16 + c * 2 ^ 8 + d
u32_from_be_bytes bs = 0

pub data Received (Value : Type 0) : Type 0 where
  message : Value → Received Value
  end_of_stream : Received Value
  failure : Received Value

module _ {Value : Type 0} (to_vec : Value → List ℕ) (from_slice : List ℕ → Option Value) where
  abbrev parsed : Option Value → Received Value
  parsed none = Received.failure
  parsed (some v) = Received.message v

  abbrev pub body : Filled × Stream → Received Value × Stream
  body (Filled.full data_bytes, s) = (parsed (from_slice data_bytes), s)
  body (Filled.closed, s) = (Received.end_of_stream, s)
  body (Filled.io_error, s) = (Received.failure, s)

  abbrev pub after_header : Filled × Stream → Received Value × Stream
  after_header (Filled.full header, s) = body (read_exact_or_closed (u32_from_be_bytes header) s)
  after_header (Filled.closed, s) = (Received.end_of_stream, s)
  after_header (Filled.io_error, s) = (Received.failure, s)

  unfoldable pub recv_msg : Stream → Received Value × Stream
  unfolding read_exact_or_closed u32_from_be_bytes
  recv_msg s = after_header (read_exact_or_closed 4 s)

  -- The bytes that `send_msg` writes; the length is cut to 32 bits.
  unfoldable pub send_msg : Value → List ℕ
  unfolding u32_to_be_bytes
  send_msg msg = u32_to_be_bytes (length (to_vec msg) % 2 ^ 32) ++ to_vec msg
