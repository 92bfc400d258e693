-- ===== src/Ipc/Codec/Reads.antt =====
-- src/ipc/codec.rs: one call of the frame reader, against the bytes that are still to be read.
use obsctl_rs.Prelude.{
  ℕ, ◌+◌, ◌-◌, ◌≤◌, ◌<◌, ◌≡◌, refl, sym, true, false, Option, none, some, List, [], ◌∷◌, ◌++◌,
  append-nil, append_assoc, Result, ok, err, length, arith, ltb, Bool-cases, inl, inr, ◌==◌, nat_eq,
}
use obsctl_rs.Text.{Text}
use obsctl_rs.Ipc.Codec.{
  max_ipc_line_bytes, Wait, Read, FrameError, oversized, missing_delimiter, not_utf8, io,
  FrameReader, ends_with_newline, checked_sub, completed, received, within, next_frame,
}
use obsctl_rs.Ipc.Codec.Lines.{
  has_newline, length-append, has_newline-append, ends_with_newline-append, ends_with_newline-has,
}

-- A line: bytes without a newline, and a newline.
pub record IsLine (line : List ℕ) : Type 0 where
  pub front : List ℕ
  pub plain : has_newline front ≡ false
  pub ends : line ≡ front ++ 10 ∷ []

-- How far a wait that was not cut short has read: to the end of a line, or, without one, as far as the
-- budget allows or to the end of the stream.
pub data Stops (budget : ℕ) (bytes left : List ℕ) : Type 0 where
  at_line : IsLine bytes → Stops budget bytes left
  at_budget : has_newline bytes ≡ false → length bytes ≡ budget → Stops budget bytes left
  at_end : has_newline bytes ≡ false → left ≡ [] → Stops budget bytes left

-- What the documentation of `read_until` and `take` says of a wait; a wait that was dropped or failed
-- has appended what it read, too.
pub data Waits (budget : ℕ) (bytes left : List ℕ) : Wait → Type 0 where
  done : Stops budget bytes left → Waits budget bytes left (Wait.finished (length bytes))
  failing : (e : Text) → has_newline bytes ≡ false → Waits budget bytes left (Wait.failed e)
  dropping : has_newline bytes ≡ false → Waits budget bytes left Wait.dropped

-- A source of bytes: `left` is what it has still to give.
pub record IsSource {R : Type 0} (read_until : ℕ → R → Read R) (left : R → List ℕ) : Type 0 where
  pub conserved :
      (budget : ℕ) (r : R)
      → left r ≡ (read_until budget r).bytes ++ left (read_until budget r).reader
  pub bounded : (budget : ℕ) (r : R) → length (read_until budget r).bytes ≤ budget
  pub waits :
      (budget : ℕ) (r : R)
      → Waits budget
          (read_until budget r).bytes
          (left (read_until budget r).reader)
          (read_until budget r).wait

module _ {R : Type 0} (left : R → List ℕ) where
  -- What is still to be read, the begun frame with it.
  abbrev pub pending : FrameReader R → List ℕ
  pending frames = frames.partial ++ left frames.reader

  -- What one call answers, and what is pending after it.
  pub data Gives (from_utf8 : List ℕ → Option Text) (frames frames' : FrameReader R)
      : Option (Result FrameError (Option Text)) → Type 0 where
    cancelled :
        has_newline frames'.partial ≡ false
        → pending frames' ≡ pending frames
        → Gives from_utf8 frames frames' none
    broken :
        (e : Text)
        → has_newline frames'.partial ≡ false
        → pending frames' ≡ pending frames
        → Gives from_utf8 frames frames' (some (err (io e)))
    framed :
        (line : List ℕ) (frame : Text)
        → IsLine line
        → length line ≤ max_ipc_line_bytes + 1
        → from_utf8 line ≡ some frame
        → frames'.partial ≡ []
        → pending frames ≡ line ++ pending frames'
        → Gives from_utf8 frames frames' (some (ok (some frame)))
    garbled :
        (line : List ℕ)
        → IsLine line
        → from_utf8 line ≡ none
        → pending frames ≡ line ++ pending frames'
        → Gives from_utf8 frames frames' (some (err (not_utf8 line)))
    closed :
        has_newline (pending frames) ≡ false
        → left frames'.reader ≡ []
        → pending frames' ≡ pending frames
        → Gives from_utf8 frames frames' (some (ok none))
    truncated :
        has_newline (pending frames) ≡ false
        → 0 < length (pending frames)
        → length (pending frames) ≤ max_ipc_line_bytes
        → pending frames' ≡ pending frames
        → Gives from_utf8 frames frames' (some (err missing_delimiter))
    flooded :
        has_newline frames'.partial ≡ false
        → max_ipc_line_bytes < length frames'.partial
        → pending frames' ≡ pending frames
        → Gives from_utf8 frames frames' (some (err oversized))

  module _ (from_utf8 : List ℕ → Option Text) (read_until : ℕ → R → Read R) where
    -- The bytes that a wait moves into the buffer are pending as before.
    moved :
        (r r' : R) (partial bytes : List ℕ)
        → left r ≡ bytes ++ left r'
        → (partial ++ bytes) ++ left r' ≡ partial ++ left r
    moved r r' partial bytes same = rw same (append_assoc partial bytes (left r'))

    plain-append :
        (partial bytes : List ℕ)
        → has_newline partial ≡ false
        → has_newline bytes ≡ false
        → has_newline (partial ++ bytes) ≡ false
    plain-append partial bytes p b = rw (has_newline-append partial bytes, p) b

    IsLine-append :
        (partial bytes : List ℕ)
        → has_newline partial ≡ false
        → IsLine bytes
        → IsLine (partial ++ bytes)
    IsLine-append partial bytes p l = record {
      front = partial ++ l.front;
      plain = plain-append partial l.front p l.plain;
      ends = rw l.ends (sym (append_assoc partial l.front (10 ∷ [])));
    }

    completed-Gives :
        (frames : FrameReader R) (r' : R) (line : List ℕ) (o : Option Text)
        → from_utf8 line ≡ o
        → IsLine line
        → length line ≤ max_ipc_line_bytes + 1
        → pending frames ≡ line ++ left r'
        → Gives from_utf8 frames
            (completed from_utf8 read_until r' line o).1
            (completed from_utf8 read_until r' line o).0
    unfolding completed
    completed-Gives frames r' line (some frame) read whole fits same =
        framed line frame whole fits read refl same
    completed-Gives frames r' line none read whole fits same = garbled line whole read same

    stopped-Gives :
        (frames : FrameReader R) (r' : R) (bytes : List ℕ) (budget : ℕ)
        → has_newline frames.partial ≡ false
        → left frames.reader ≡ bytes ++ left r'
        → length bytes ≤ budget
        → length frames.partial + budget ≡ max_ipc_line_bytes + 1
        → 0 < budget
        → Stops budget bytes (left r')
        → Gives from_utf8 frames
            (received from_utf8 read_until r'
              (frames.partial ++ bytes)
              (Wait.finished (length bytes))).1
            (received from_utf8 read_until r'
              (frames.partial ++ bytes)
              (Wait.finished (length bytes))).0
    unfolding received
    stopped-Gives frames r' bytes budget p same short room some_room (at_line l) =
        let whole = IsLine-append frames.partial bytes p l in
        let size : length bytes ≡ length l.front + 1 =
          rw l.ends (length-append l.front (10 ∷ [])) in
        let some_bytes : (length bytes == 0) ≡ false = ground (arith, size) in
        let ended : ends_with_newline (frames.partial ++ bytes) ≡ true =
          rw whole.ends (ends_with_newline-append whole.front) in
        let fits : length (frames.partial ++ bytes) ≤ max_ipc_line_bytes + 1 =
          rw (length-append frames.partial bytes) (omega (arith, short, room)) in
        rw (some_bytes, ended)
          (completed-Gives frames r' (frames.partial ++ bytes) (from_utf8 (frames.partial ++ bytes))
            refl whole fits (sym (moved frames.reader r' frames.partial bytes same)))
    stopped-Gives frames r' bytes budget p same short room some_room (at_budget b full) =
        let some_bytes : (length bytes == 0) ≡ false = ground (arith, full, some_room) in
        let whole = plain-append frames.partial bytes p b in
        let over : max_ipc_line_bytes < length (frames.partial ++ bytes) =
          rw (length-append frames.partial bytes) (omega (arith, full, room)) in
        let over' : ltb max_ipc_line_bytes (length (frames.partial ++ bytes)) ≡ true =
          ground (arith, over) in
        rw (some_bytes, ends_with_newline-has (frames.partial ++ bytes) whole, over')
          (flooded whole over (moved frames.reader r' frames.partial bytes same))
    stopped-Gives frames r' bytes budget p same short room some_room (at_end b gone) =
        let whole = plain-append frames.partial bytes p b in
        let all_here : pending frames ≡ frames.partial ++ bytes =
          rw (same, gone, append-nil bytes) refl in
        let kept = moved frames.reader r' frames.partial bytes same in
        elim (Bool-cases (length bytes == 0)) [
          | inl none_read ↦ rw none_read (closed (rw all_here whole) gone kept)
          | inr some_read ↦
              elim (Bool-cases (ltb max_ipc_line_bytes (length (frames.partial ++ bytes)))) [
                | inl over ↦
                    rw (some_read, ends_with_newline-has (frames.partial ++ bytes) whole, over)
                      (flooded whole (ground (arith, over)) kept)
                | inr fits ↦
                    rw (some_read, ends_with_newline-has (frames.partial ++ bytes) whole, fits)
                      (truncated (rw all_here whole)
                        (rw (all_here, length-append frames.partial bytes)
                          (ground (arith, some_read)))
                        (rw all_here (ground (arith, fits))) kept)
              ]
        ]

    received-Gives :
        (frames : FrameReader R) (r' : R) (bytes : List ℕ) (budget : ℕ) (wait : Wait)
        → has_newline frames.partial ≡ false
        → left frames.reader ≡ bytes ++ left r'
        → length bytes ≤ budget
        → length frames.partial + budget ≡ max_ipc_line_bytes + 1
        → 0 < budget
        → Waits budget bytes (left r') wait
        → Gives from_utf8 frames
            (received from_utf8 read_until r' (frames.partial ++ bytes) wait).1
            (received from_utf8 read_until r' (frames.partial ++ bytes) wait).0
    unfolding received
    received-Gives frames r' bytes budget _ p same short room some_room (done stops) =
        stopped-Gives frames r' bytes budget p same short room some_room stops
    received-Gives frames r' bytes budget _ p same short room some_room (failing e b) =
        broken e (plain-append frames.partial bytes p b)
          (moved frames.reader r' frames.partial bytes same)
    received-Gives frames r' bytes budget _ p same short room some_room (dropping b) =
        cancelled (plain-append frames.partial bytes p b)
          (moved frames.reader r' frames.partial bytes same)

    -- Each call does what it should to the bytes that are pending.
    pub next_frame-Gives :
        (frames : FrameReader R)
        → IsSource read_until left
        → has_newline frames.partial ≡ false
        → Gives from_utf8 frames
            (next_frame from_utf8 read_until frames).1
            (next_frame from_utf8 read_until frames).0
    unfolding next_frame checked_sub within
    next_frame-Gives frames law p =
        elim (Bool-cases (ltb (max_ipc_line_bytes + 1) (length frames.partial))) [
          | inl over ↦ rw over (flooded p (ground (arith, over)) refl)
          | inr room ↦ elim (Bool-cases ((max_ipc_line_bytes + 1 - length frames.partial) == 0)) [
            | inl full ↦ rw (room, full) (flooded p (ground (arith, full)) refl)
            | inr some_room ↦
                (let budget = max_ipc_line_bytes + 1 - length frames.partial in
                  rw (room, some_room)
                    (received-Gives frames _ _ budget _ p (law.conserved budget frames.reader)
                      (law.bounded budget frames.reader) (ground (arith, room))
                      (ground (arith, some_room)) (law.waits budget frames.reader)))
          ]
        ]
