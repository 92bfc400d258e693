-- ===== src/Ipc/Codec/Session.antt =====
-- src/ipc/codec.rs: what a run of calls of the frame reader delivers, and a frame from one end to the other.
use obsctl_rs.Prelude.{
  ℕ, zero, suc, ◌+◌, ◌≤◌, ◌<◌, ◌≡◌, refl, sym, false, Option, none, some, List, [], ◌∷◌, ◌++◌, map,
  append_assoc, Result, ok, err, any, All, length, nat_eq,
}
use obsctl_rs.Text.{Text}
use obsctl_rs.Ipc.Codec.{
  max_ipc_line_bytes, Read, FrameError, oversized, missing_delimiter, not_utf8, io, FrameReader,
  next_frame,
}
use obsctl_rs.Ipc.Codec.Lines.{has_newline, lines, lines_none, lines_first}
use obsctl_rs.Ipc.Codec.Reads.{
  IsLine, IsSource, pending, Gives, cancelled, broken, framed, garbled, closed, truncated, flooded,
  next_frame-Gives,
}

-- How a run of calls ended: it may go on, the peer closed the connection, or a call failed.
pub data Last : Type 0 where
  going_on : Last
  ended : Last
  stopped : FrameError → Last

pub has_newline_none : (bytes : List ℕ) → bytes ≡ [] → has_newline bytes ≡ false
unfolding has_newline any
has_newline_none bytes h = rw h refl

-- The lines of a text that starts with a line.
lines_line : (line rest : List ℕ) → IsLine line → lines (line ++ rest) ≡ line ∷ lines rest
lines_line line rest l =
    rw (l.ends, append_assoc l.front (10 ∷ []) rest) (lines_first l.front rest l.plain)

module _ {R : Type 0} (from_utf8 : List ℕ → Option Text) (read_until : ℕ → R → Read R) where
  unfoldable pub proceed :
      Option (Result FrameError (Option Text))
      → FrameReader R
      → List Text × Last × FrameReader R
      → List Text × Last × FrameReader R
  proceed none frames rest = rest
  proceed (some (ok (some frame))) frames (later, last, frames') = (frame ∷ later, last, frames')
  proceed (some (ok none)) frames rest = ([], ended, frames)
  proceed (some (err e)) frames rest = ([], stopped e, frames)

  -- The frames of so many calls, as a connection's loop makes them: a call that was dropped is made
  -- again, and the end of the stream or an error ends the loop.
  unfoldable pub read_frames : ℕ → FrameReader R → List Text × Last × FrameReader R
  read_frames zero frames = ([], going_on, frames)
  read_frames (suc n) frames =
      let called = next_frame from_utf8 read_until frames in
      let rest = read_frames n called.1 in proceed called.0 called.1 rest

  module _ (left : R → List ℕ) (as_bytes : Text → List ℕ) where
    -- What is left of the stream when a run of calls ends, and why it ended.
    abbrev pub Leaves : Last → FrameReader R → List ℕ → Type 0
    Leaves going_on frames rest = rest ≡ pending left frames
    Leaves ended frames rest = (lines rest ≡ []) × (left frames.reader ≡ [])
    Leaves (stopped oversized) frames rest =
        (rest ≡ pending left frames)
        × (has_newline frames.partial ≡ false)
        × (max_ipc_line_bytes < length frames.partial)
    Leaves (stopped missing_delimiter) frames rest =
        (lines rest ≡ []) × (0 < length rest) × (length rest ≤ max_ipc_line_bytes)
    Leaves (stopped (not_utf8 line)) frames rest =
        IsLine line × (from_utf8 line ≡ none) × (rest ≡ line ++ pending left frames)
    Leaves (stopped (io e)) frames rest = rest ≡ pending left frames

    -- The frames are the lines of the stream, up to where the run ended.
    pub record Delivers (frames : FrameReader R) (run : List Text × Last × FrameReader R)
        : Type 0 where
      pub rest : List ℕ
      pub frames_are_lines : lines (pending left frames) ≡ map as_bytes run.0 ++ lines rest
      pub short : All (λ t. length (as_bytes t) ≤ max_ipc_line_bytes + 1) run.0
      pub leaves : Leaves run.1 run.2 rest

    kept-Delivers :
        (frames frames' : FrameReader R) (run : List Text × Last × FrameReader R)
        → pending left frames' ≡ pending left frames
        → Delivers frames' run
        → Delivers frames run
    kept-Delivers frames frames' run same d = record {
      rest = d.rest;
      frames_are_lines = rw (← same) d.frames_are_lines;
      short = d.short;
      leaves = d.leaves;
    }

    proceed-Delivers :
        (frames frames' : FrameReader R) (o : Option (Result FrameError (Option Text)))
        (rest : List Text × Last × FrameReader R)
        → ((b : List ℕ) (t : Text) → from_utf8 b ≡ some t → as_bytes t ≡ b)
        → Gives left from_utf8 frames frames' o
        → (has_newline frames'.partial ≡ false → Delivers frames' rest)
        → Delivers frames (proceed o frames' rest)
    unfolding proceed
    proceed-Delivers frames frames' _ rest utf8 (cancelled p same) later =
        kept-Delivers frames frames' rest same (later p)
    proceed-Delivers frames frames' _ rest utf8 (broken e p same) later = record {
      rest = pending left frames;
      frames_are_lines = refl;
      short = tt;
      leaves = sym same;
    }
    proceed-Delivers frames frames' _ (fs, last, end) utf8
          (framed line frame whole fits read fresh same) later =
        let d = later (has_newline_none _ fresh) in
        record {
          rest = d.rest;
          frames_are_lines =
              rw
                (
                  same,
                  lines_line line (pending left frames') whole,
                  d.frames_are_lines,
                  utf8 line frame read,
                )
                refl;
          short = (rw (utf8 line frame read) fits, d.short);
          leaves = d.leaves;
        }
    proceed-Delivers frames frames' _ rest utf8 (garbled line whole read same) later = record {
      rest = pending left frames;
      frames_are_lines = refl;
      short = tt;
      leaves = (whole, read, same);
    }
    proceed-Delivers frames frames' _ rest utf8 (closed p gone same) later = record {
      rest = pending left frames;
      frames_are_lines = refl;
      short = tt;
      leaves = (lines_none _ p, gone);
    }
    proceed-Delivers frames frames' _ rest utf8 (truncated p some_bytes fits same) later = record {
      rest = pending left frames;
      frames_are_lines = refl;
      short = tt;
      leaves = (lines_none _ p, some_bytes, fits);
    }
    proceed-Delivers frames frames' _ rest utf8 (flooded p over same) later = record {
      rest = pending left frames;
      frames_are_lines = refl;
      short = tt;
      leaves = (sym same, p, over);
    }

    -- With a source of bytes that keeps what a dropped wait has read, and a UTF-8 that is written
    -- back: the frames that a run of calls delivers are the first lines of the stream, the begun
    -- frame included, and none is longer than one byte over the limit; the run ends at the end of
    -- the stream only where no further line is, as a truncated frame only where some bytes but no
    -- further line are, as an oversized frame only on more bytes than the limit without a newline,
    -- as not UTF-8 only at such a line, and what it leaves is pending.
    pub read_frames-Delivers :
        (n : ℕ) (frames : FrameReader R)
        → IsSource read_until left
        → ((b : List ℕ) (t : Text) → from_utf8 b ≡ some t → as_bytes t ≡ b)
        → has_newline frames.partial ≡ false
        → Delivers frames (read_frames n frames)
    unfolding read_frames
    read_frames-Delivers zero frames law utf8 p = record {
      rest = pending left frames;
      frames_are_lines = refl;
      short = tt;
      leaves = refl;
    }
    read_frames-Delivers (suc n) frames law utf8 p =
        proceed-Delivers frames _ _ _ utf8 (next_frame-Gives left from_utf8 read_until frames law p)
          (λ p'. read_frames-Delivers n _ law utf8 p')
