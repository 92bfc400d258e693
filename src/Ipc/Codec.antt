-- ===== src/Ipc/Codec.antt =====
-- src/ipc/codec.rs: one value per line, and the reader of lines, whose wait for the socket can be dropped
-- half-way. A byte is a number; the socket is what `read_until` of the asynchronous library gives.
pub mod Lines
pub mod Reads
pub mod Frames
pub mod Session
pub mod Values
pub mod Tests
use obsctl_rs.Prelude.{
  ℕ, ◌+◌, ◌-◌, ◌*◌, Bool, true, false, not, ◌&&◌, ◌||◌, Option, none, some, List, [], ◌∷◌, ◌++◌,
  Result, ok, err, map_err, ◌>>=◌, ltb, length, if◌then◌else◌, ◌==◌, nat_eq,
}
use obsctl_rs.Prelude
use obsctl_rs.Text.{Text, is_empty}
use obsctl_rs.Errors.{ObsctlError, ipc_protocol_error, other_message, empty_frame}

unfoldable max_ipc_line_bytes : ℕ
max_ipc_line_bytes = 64 * 1024

-- `serde_json` for the values of one type, and UTF-8.
pub record Format (V : Type 0) : Type 0 where
  pub to_string : V → Result Text Text
  pub from_str : Text → Result Text V
  pub as_bytes : Text → List ℕ
  pub from_utf8 : List ℕ → Option Text

-- What became of a wait for the socket: `Ok` with the number of bytes read, `Err`, or the future was
-- dropped before it was done.
pub data Wait : Type 0 where
  finished : ℕ → Wait
  failed : Text → Wait
  dropped : Wait

-- `take(budget)` and `read_until(b'\n', ..)`: the bytes that were appended to the buffer, what became of
-- the wait, and the reader afterwards.
pub record Read (R : Type 0) : Type 0 where
  pub bytes : List ℕ
  pub wait : Wait
  pub reader : R

pub data FrameEncodeError : Type 0 where
  encode_failed : ObsctlError → FrameEncodeError
  oversized_frame : ℕ → FrameEncodeError

pub data FrameError : Type 0 where
  oversized : FrameError
  missing_delimiter : FrameError
  not_utf8 : List ℕ → FrameError
  io : Text → FrameError

-- `trim_end_matches(['\n', '\r'])`.
unfoldable is_line_end : ℕ → Bool
is_line_end c = c == 10 || c == 13

unfoldable trim_end_matches : Text → Text
trim_end_matches [] = []
trim_end_matches (c ∷ cs) =
    let rest = trim_end_matches cs in if is_empty rest && is_line_end c then [] else c ∷ rest

module _ {V : Type 0} (format : Format V) where
  unfoldable encode : V → Result ObsctlError Text
  encode value = do
    s ← map_err (λ e. ipc_protocol_error (other_message e)) (format.to_string value)
    ok (s ++ 10 ∷ [])

  unfoldable decode : Text → Result ObsctlError V
  decode line =
      let trimmed = trim_end_matches line in
      if is_empty trimmed
      then err (ipc_protocol_error empty_frame)
      else map_err (λ e. ipc_protocol_error (other_message e)) (format.from_str trimmed)

  unfoldable encode_framed : V → Result FrameEncodeError Text
  encode_framed value = do
    encoded ← map_err encode_failed (encode value)
    let len = length (format.as_bytes encoded)
    if ltb max_ipc_line_bytes len then err (oversized_frame len) else ok encoded

-- `ends_with(b"\n")`.
unfoldable ends_with_newline : List ℕ → Bool
ends_with_newline [] = false
ends_with_newline (c ∷ []) = c == 10
ends_with_newline (c ∷ d ∷ cs) = ends_with_newline (d ∷ cs)

-- `u64::checked_sub`.
unfoldable checked_sub : ℕ → ℕ → Option ℕ
checked_sub a b = if ltb a b then none else some (a - b)

pub record FrameReader (R : Type 0) : Type 0 where
  pub reader : R
  pub partial : List ℕ

module _ {R : Type 0} (from_utf8 : List ℕ → Option Text) (read_until : ℕ → R → Read R) where
  unfoldable has_partial_frame : FrameReader R → Bool
  has_partial_frame frames = not (is_empty frames.partial)

  -- The frame that is complete.
  unfoldable completed :
      R → List ℕ → Option Text → Option (Result FrameError (Option Text)) × FrameReader R
  completed reader partial (some frame) =
      (some (ok (some frame)), record { reader = reader; partial = [] })
  completed reader partial none =
      (some (err (not_utf8 partial)), record { reader = reader; partial = [] })

  -- The arms of the match on what the wait gave; `none` is a call that was dropped.
  unfoldable received : R → List ℕ → Wait → Option (Result FrameError (Option Text)) × FrameReader R
  received reader partial dropped = (none, record { reader = reader; partial = partial })
  received reader partial (failed e) =
      (some (err (io e)), record { reader = reader; partial = partial })
  received reader partial (finished n) =
      if n == 0
      then (some (ok none), record { reader = reader; partial = partial })
      else if not (ends_with_newline partial)
      then (
        some (
            err (if ltb max_ipc_line_bytes (length partial) then oversized else missing_delimiter)),
        record { reader = reader; partial = partial },
      )
      else completed reader partial (from_utf8 partial)

  unfoldable within :
      Option ℕ → FrameReader R → Option (Result FrameError (Option Text)) × FrameReader R
  within none frames = (some (err oversized), frames)
  within (some budget) frames =
      if budget == 0
      then (some (err oversized), frames)
      else (let read = read_until budget frames.reader in
          received read.reader (frames.partial ++ read.bytes) read.wait)

  unfoldable next_frame : FrameReader R → Option (Result FrameError (Option Text)) × FrameReader R
  next_frame frames = within (checked_sub (max_ipc_line_bytes + 1) (length frames.partial)) frames
