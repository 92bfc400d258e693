-- ===== src/Ipc/Codec/Values.antt =====
-- src/ipc/codec.rs: values from one end of a connection to the other.
use obsctl_rs.Prelude.{
  ℕ, zero, suc, ◌≡◌, refl, sym, ap, ◌∙◌, false, Option, none, some, List, [], ◌∷◌, ◌++◌, map,
  Result, ok, err, any, length, arith, nat_eq,
}
use obsctl_rs.Text.{Text}
use obsctl_rs.Ipc.Codec.{Format, Read, FrameError, io, FrameReader, decode, encode_framed}
use obsctl_rs.Ipc.Codec.Lines.{has_newline, length-append}
use obsctl_rs.Ipc.Codec.Reads.{
  IsSource, pending, Gives, cancelled, broken, framed, garbled, closed, truncated, flooded,
  next_frame-Gives,
}
use obsctl_rs.Ipc.Codec.Session.{
  Last, going_on, ended, stopped, proceed, read_frames, has_newline_none,
}
use obsctl_rs.Ipc.Codec.Frames.{
  IsFormat, IsFrame, encode_framed-IsFrame, first_line, line-has_newline, prefix-le,
}

module _ {V : Type 0} (format : Format V) where
  -- The bytes of the frames of some values, one after the other.
  pub data Sends : List V → List ℕ → Type 0 where
    nothing : Sends [] []
    then_sends :
        (v : V) (vs : List V) (line : Text) (rest : List ℕ)
        → encode_framed format v ≡ ok line
        → Sends vs rest
        → Sends (v ∷ vs) (format.as_bytes line ++ rest)

  module _ {R : Type 0} (read_until : ℕ → R → Read R) (left : R → List ℕ) where
    -- What a call does to a stream that starts with a line.
    data Takes (line : Text) (rest : List ℕ) (frames frames' : FrameReader R)
        : Option (Result FrameError (Option Text)) → Type 0 where
      interrupted :
          has_newline frames'.partial ≡ false
          → pending left frames' ≡ pending left frames
          → Takes line rest frames frames' none
      failing : (e : Text) → Takes line rest frames frames' (some (err (io e)))
      taken :
          frames'.partial ≡ []
          → pending left frames' ≡ rest
          → Takes line rest frames frames' (some (ok (some line)))

    Takes-line :
        (v : V) (line : Text) (rest : List ℕ) (frames frames' : FrameReader R)
        (o : Option (Result FrameError (Option Text)))
        → IsFormat format
        → IsFrame format v line
        → pending left frames ≡ format.as_bytes line ++ rest
        → Gives left format.from_utf8 frames frames' o
        → Takes line rest frames frames' o
    Takes-line v line rest frames frames' _ law f same (cancelled p kept) = interrupted p kept
    Takes-line v line rest frames frames' _ law f same (broken e p kept) = failing e
    Takes-line v line rest frames frames' _ law f same
          (framed other frame whole fits read fresh moved) =
        let (e, r) =
          first_line other (format.as_bytes line) _ rest whole f.whole (sym moved ∙ same) in
        let back : frame ≡ line = cc (rw e at read, law.utf8 line) in rw back (taken fresh r)
    Takes-line v line rest frames frames' _ law f same (garbled other whole read moved) =
        let (e, r) =
          first_line other (format.as_bytes line) _ rest whole f.whole (sym moved ∙ same) in
        cc (rw e at read, law.utf8 line)
    Takes-line v line rest frames frames' _ law f same (closed p gone kept) =
        cc (rw same at p, line-has_newline (format.as_bytes line) rest f.whole)
    Takes-line v line rest frames frames' _ law f same (truncated p b fits kept) =
        cc (rw same at p, line-has_newline (format.as_bytes line) rest f.whole)
    Takes-line v line rest frames frames' _ law f same (flooded p over kept) =
        let short =
          prefix-le (format.as_bytes line) rest frames'.partial _ f.whole p (sym (kept ∙ same)) in
        let bad : ◌≡◌ {A = ℕ} 0 1 = omega (arith, short, over, f.fits) in cc bad

    -- How a run of calls over such a stream can end: it may go on, the socket failed, or the peer closed the
    -- connection, and then nothing is left.
    pub data Ends (vs : List V) : Last → Type 0 where
      goes_on : Ends vs going_on
      fails : (e : Text) → Ends vs (stopped (io e))
      closes : vs ≡ [] → Ends vs ended

    -- The frames of a run decode to the values that were sent first, in their order.
    pub record Arrives (vs : List V) (run : List Text × Last × FrameReader R) : Type 0 where
      pub here : List V
      pub later : List V
      pub in_order : vs ≡ here ++ later
      pub decoded : map (decode format) run.0 ≡ map ok here
      pub ends : Ends later run.1

    proceed-none :
        (frames frames' : FrameReader R) (o : Option (Result FrameError (Option Text)))
        (run : List Text × Last × FrameReader R)
        → pending left frames ≡ []
        → Gives left format.from_utf8 frames frames' o
        → (has_newline frames'.partial ≡ false → pending left frames' ≡ [] → Arrives [] run)
        → Arrives [] (proceed format.from_utf8 read_until o frames' run)
    unfolding proceed has_newline any
    proceed-none frames frames' _ run empty (cancelled p kept) more = more p (kept ∙ empty)
    proceed-none frames frames' _ run empty (broken e p kept) more = record {
      here = [];
      later = [];
      in_order = refl;
      decoded = refl;
      ends = fails e;
    }
    proceed-none frames frames' _ run empty (framed other frame whole fits read fresh moved) more =
        let full = line-has_newline other (pending left frames') whole in
        cc (rw (← moved, empty) at full)
    proceed-none frames frames' _ run empty (garbled other whole read moved) more =
        let full = line-has_newline other (pending left frames') whole in
        cc (rw (← moved, empty) at full)
    proceed-none frames frames' _ run empty (closed p gone kept) more = record {
      here = [];
      later = [];
      in_order = refl;
      decoded = refl;
      ends = closes refl;
    }
    proceed-none frames frames' _ run empty (truncated p b fits kept) more =
        let none_left : length (pending left frames) ≡ 0 = rw empty refl in
        let bad : ◌≡◌ {A = ℕ} 0 1 = omega (arith, b, none_left) in cc bad
    proceed-none frames frames' _ run empty (flooded p over kept) more =
        let none_left : length (pending left frames') ≡ 0 = rw (kept, empty) refl in
        let size = length-append frames'.partial (left frames'.reader) in
        let bad : ◌≡◌ {A = ℕ} 0 1 = omega (arith, over, none_left, size) in cc bad

    proceed-some :
        (v : V) (vs : List V) (line : Text) (rest : List ℕ) (frames frames' : FrameReader R)
        (o : Option (Result FrameError (Option Text))) (run : List Text × Last × FrameReader R)
        → decode format line ≡ ok v
        → Takes line rest frames frames' o
        → (has_newline frames'.partial ≡ false
            → pending left frames' ≡ pending left frames
            → Arrives (v ∷ vs) run)
        → (has_newline frames'.partial ≡ false → pending left frames' ≡ rest → Arrives vs run)
        → Arrives (v ∷ vs) (proceed format.from_utf8 read_until o frames' run)
    unfolding proceed
    proceed-some v vs line rest frames frames' _ run good (interrupted p kept) again more =
        again p kept
    proceed-some v vs line rest frames frames' _ run good (failing e) again more = record {
      here = [];
      later = v ∷ vs;
      in_order = refl;
      decoded = refl;
      ends = fails e;
    }
    proceed-some v vs line rest frames frames' _ (fs, last, end) good (taken fresh r) again more =
        let a = more (has_newline_none _ fresh) r in
        record {
          here = v ∷ a.here;
          later = a.later;
          in_order = ap (λ t. v ∷ t) a.in_order;
          decoded = rw (good, a.decoded) refl;
          ends = a.ends;
        }

    -- Over a stream of the encoded frames of some values, with a serializer and a UTF-8 that are
    -- read back, and a source of bytes that keeps what a dropped wait has read: however the waits
    -- split the bytes, however many of them are dropped, and whatever part of the first frame is in
    -- the buffer already, the frames that a run of calls delivers decode to the values that were
    -- sent first, in their order; and the run ends only for the number of its calls, at the end of
    -- the stream after the last value, or with an error of the socket.
    pub read_frames-Arrives :
        (n : ℕ) (vs : List V) (bytes : List ℕ) (frames : FrameReader R)
        → IsFormat format
        → IsSource read_until left
        → Sends vs bytes
        → has_newline frames.partial ≡ false
        → pending left frames ≡ bytes
        → Arrives vs (read_frames format.from_utf8 read_until n frames)
    unfolding read_frames
    read_frames-Arrives zero vs bytes frames law source sent p same = record {
      here = [];
      later = vs;
      in_order = refl;
      decoded = refl;
      ends = goes_on;
    }
    read_frames-Arrives (suc n) _ _ frames law source nothing p same =
        proceed-none frames _ _ _ same
          (next_frame-Gives left format.from_utf8 read_until frames source p)
          (λ p' same'. read_frames-Arrives n [] [] _ law source nothing p' same')
    read_frames-Arrives (suc n) _ _ frames law source (then_sends v vs line rest written sent) p
          same =
        let f = encode_framed-IsFrame format v line law written in
        proceed-some v vs line rest frames _ _ _ f.decoded
          (Takes-line v line rest frames _ _ law f same
            (next_frame-Gives left format.from_utf8 read_until frames source p))
          (λ p' kept.
            read_frames-Arrives n (v ∷ vs) _ _ law source (then_sends v vs line rest written sent)
              p' (kept ∙ same))
          (λ p' r. read_frames-Arrives n vs rest _ law source sent p' r)
