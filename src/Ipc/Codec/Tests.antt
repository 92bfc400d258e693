-- ===== src/Ipc/Codec/Tests.antt =====
-- The frame reader at a source that drops every second wait, and at the values `true` and `false`.
use obsctl_rs.Prelude.{
  ℕ, zero, suc, ◌≤◌, ◌≡◌, refl, ap, Bool, true, false, none, some, List, [], ◌∷◌, ◌++◌, Result, ok,
  err, any, length, arith, Bool-cases, inl, inr, ◌==◌, list_eq, nat_eq, if◌then◌else◌,
}
use obsctl_rs.Text.{Text, text, is_empty}
use obsctl_rs.Ipc.Codec.{
  Format, Wait, Read, FrameReader, max_ipc_line_bytes, encode, encode_framed, is_line_end,
  ends_with_newline, checked_sub, completed, received, within, next_frame,
}
use obsctl_rs.Ipc.Codec.Lines.{has_newline}
use obsctl_rs.Ipc.Codec.Reads.{Waits, Stops, at_line, at_budget, at_end, done, dropping, IsSource}
use obsctl_rs.Ipc.Codec.Session.{proceed, read_frames, Delivers, read_frames-Delivers}
use obsctl_rs.Ipc.Codec.Frames.{IsFormat}
use obsctl_rs.Ipc.Codec.Values.{nothing, then_sends, Sends, Arrives, read_frames-Arrives}

-- The bytes up to a newline, within a budget, and what follows them.
unfoldable take_line : ℕ → List ℕ → List ℕ × List ℕ
take_line zero bytes = ([], bytes)
take_line (suc budget) [] = ([], [])
take_line (suc budget) (c ∷ bytes) =
    let rest = take_line budget bytes in if c == 10 then (c ∷ [], bytes) else (c ∷ rest.0, rest.1)

unfoldable read_until : ℕ → Bool × List ℕ → Read (Bool × List ℕ)
read_until budget (true, bytes) = record {
  bytes = [];
  wait = Wait.dropped;
  reader = (false, bytes);
}
read_until budget (false, bytes) =
    let line = take_line budget bytes in
    record { bytes = line.0; wait = Wait.finished (length line.0); reader = (true, line.1) }

abbrev left : Bool × List ℕ → List ℕ
left (b, bytes) = bytes

Stops-suc :
    (c budget : ℕ) (bytes rest : List ℕ)
    → (c == 10) ≡ false
    → Stops budget bytes rest
    → Stops (suc budget) (c ∷ bytes) rest
unfolding has_newline any
Stops-suc c budget bytes rest e (at_line l) =
    at_line (record { front = c ∷ l.front; plain = rw e l.plain; ends = ap (λ t. c ∷ t) l.ends })
Stops-suc c budget bytes rest e (at_budget p full) = at_budget (rw e p) (ap suc full)
Stops-suc c budget bytes rest e (at_end p gone) = at_end (rw e p) gone

take_line-Stops :
    (budget : ℕ) (bytes : List ℕ)
    → (bytes ≡ (take_line budget bytes).0 ++ (take_line budget bytes).1)
      × (length (take_line budget bytes).0 ≤ budget)
      × Stops budget (take_line budget bytes).0 (take_line budget bytes).1
unfolding take_line has_newline any
take_line-Stops zero bytes = (refl, omega arith, at_budget refl refl)
take_line-Stops (suc budget) [] = (refl, omega arith, at_end refl refl)
take_line-Stops (suc budget) (c ∷ bytes) =
    let (same, short, stops) = take_line-Stops budget bytes in
    elim (Bool-cases (c == 10)) [
      | inl e ↦
          (let is : c ≡ 10 = ground (arith, e) in
            rw e (
              refl,
              omega arith,
              at_line (record { front = []; plain = refl; ends = ap (λ x. x ∷ []) is }),
            ))
      | inr e ↦ rw e (ap (λ t. c ∷ t) same, omega (arith, short), Stops-suc c budget _ _ e stops)
    ]

read_until-IsSource : IsSource read_until left
unfolding read_until has_newline any
read_until-IsSource = record { conserved = all_there; bounded = within_budget; waits = in_time }
  where
    all_there :
        (budget : ℕ) (r : Bool × List ℕ)
        → left r ≡ (read_until budget r).bytes ++ left (read_until budget r).reader
    all_there budget (true, bytes) = refl
    all_there budget (false, bytes) = (take_line-Stops budget bytes).0

    within_budget : (budget : ℕ) (r : Bool × List ℕ) → length (read_until budget r).bytes ≤ budget
    within_budget budget (true, bytes) = omega arith
    within_budget budget (false, bytes) = (take_line-Stops budget bytes).1

    in_time :
        (budget : ℕ) (r : Bool × List ℕ)
        → Waits budget
            (read_until budget r).bytes
            (left (read_until budget r).reader)
            (read_until budget r).wait
    in_time budget (true, bytes) = dropping refl
    in_time budget (false, bytes) = done (take_line-Stops budget bytes).2

unfoldable written : Bool → Result Text Text
unfolding text
written true = ok (text "true")
written false = ok (text "false")

unfoldable parsed : Text → Result Text Bool
parsed s =
    if s == text "true"
    then ok true
    else if s == text "false"
    then ok false
    else err (text "neither")

abbrev format : Format Bool
format = record { to_string = written; from_str = parsed; as_bytes = λ s. s; from_utf8 = some }

written-read : (v : Bool) (s : Text) → written v ≡ ok s → parsed s ≡ ok v
unfolding written parsed text
written-read true s h = let e : text "true" ≡ s = cc h in rw (← e) refl
written-read false s h = let e : text "false" ≡ s = cc h in rw (← e) refl

written-line : (v : Bool) (s : Text) → written v ≡ ok s → any is_line_end s ≡ false
unfolding written text any is_line_end
written-line true s h = let e : text "true" ≡ s = cc h in rw (← e) refl
written-line false s h = let e : text "false" ≡ s = cc h in rw (← e) refl

written-filled : (v : Bool) (s : Text) → written v ≡ ok s → is_empty s ≡ false
unfolding written text
written-filled true s h = let e : text "true" ≡ s = cc h in rw (← e) refl
written-filled false s h = let e : text "false" ≡ s = cc h in rw (← e) refl

one_byte : (s : Text) → any is_line_end s ≡ false → has_newline s ≡ false
unfolding any is_line_end has_newline
one_byte [] h = refl
one_byte (c ∷ s) h = ground (arith, h, one_byte s)

format-IsFormat : IsFormat format
format-IsFormat = record {
  reads_back = written-read;
  one_line = written-line;
  filled = written-filled;
  utf8 = λ s. refl;
  newline = λ s. refl;
  plain = one_byte;
}

abbrev on_wire : List ℕ
on_wire = text "true\n" ++ text "false\n" ++ []

values-Sends : Sends format (true ∷ false ∷ []) on_wire
unfolding encode_framed encode written text max_ipc_line_bytes
values-Sends =
    then_sends true _ (text "true\n") _ refl (then_sends false _ (text "false\n") _ refl nothing)

-- Two bytes of the first frame are in the buffer already.
abbrev begun : FrameReader (Bool × List ℕ)
begun = record { reader = (true, text "ue\n" ++ text "false\n"); partial = text "tr" }

begun-plain : has_newline begun.partial ≡ false
unfolding has_newline any text
begun-plain = refl

begun-pending : begun.partial ++ left begun.reader ≡ on_wire
unfolding text
begun-pending = refl

read_frames-Arrives_example :
    Arrives format read_until left (true ∷ false ∷ []) (read_frames some read_until 6 begun)
read_frames-Arrives_example =
    read_frames-Arrives format read_until left 6 (true ∷ false ∷ []) on_wire begun format-IsFormat
      read_until-IsSource values-Sends begun-plain begun-pending

read_frames-Delivers_example :
    Delivers some read_until left (λ s. s) begun (read_frames some read_until 6 begun)
read_frames-Delivers_example =
    read_frames-Delivers some read_until left (λ s. s) 6 begun read_until-IsSource (λ b t h. cc h)
      begun-plain

-- The run of the examples reads both frames and then the end of the stream.
both_frames : (read_frames some read_until 6 begun).0 ≡ text "true\n" ∷ text "false\n" ∷ []
unfolding read_frames proceed next_frame checked_sub within received completed ends_with_newline
    max_ipc_line_bytes read_until take_line text
both_frames = refl

-- A call that finds the end of the stream answers that the peer closed the connection, although the
-- buffer holds the first bytes of a frame.
half_a_frame :
    (next_frame some read_until (record { reader = (false, []); partial = text "tr" })).0
    ≡ some (ok none)
unfolding next_frame checked_sub within received max_ipc_line_bytes read_until take_line text
half_a_frame = refl
