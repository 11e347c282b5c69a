-- ===== src/Stream/Lines.antt =====
-- The reading loop against its contract: lines end at newlines, however the bytes arrive.
use tiny_robotic_voice.Common.{
  ℕ, ◌+◌, ◌≤◌, ◌<◌, ◌≡◌, ◌≢◌, refl, ◌⊎◌, Bool, true, false, Bytes, [], ◌∷◌, ◌++◌, length,
  length-append, append_assoc, append-nil, if◌then◌else◌, arith, leb,
}
use tiny_robotic_voice.Stream.{Reader, end_line, add_byte, read_byte, feed}

abbrev pub NoNewline : Bytes → Type 0
NoNewline [] = Unit {0}
NoNewline (c ∷ rest) = (c ≢ 10) × NoNewline rest

module _ {R : Type 0} (handle_line : Bytes → R → R × Bool) (reject : R → R) where
  -- At most 1 MiB of a line is held, and nothing of one that is discarded.
  pub record IsBounded (s : Reader R) : Type 0 where
    pub at_most : length s.pending ≤ 1048576
    pub dropped : (s.discarding_oversized_line ≡ false) ⊎ (s.pending ≡ [])

  read_byte-IsBounded :
      (c : ℕ) (s : Reader R) → IsBounded s → IsBounded (read_byte handle_line reject c s)
  unfolding read_byte end_line add_byte
  read_byte-IsBounded c s b = ground arith

  -- However many bytes arrive, at most 1 MiB of a line is held, and nothing of a discarded one.
  pub feed-IsBounded :
      (bytes : Bytes) (s : Reader R) → IsBounded s → IsBounded (feed handle_line reject bytes s)
  unfolding feed
  feed-IsBounded [] s b = b
  feed-IsBounded (c ∷ rest) s b =
      ground
        (arith, feed-IsBounded rest (read_byte handle_line reject c s) (read_byte-IsBounded c s b))

  pub feed-stopped :
      (bytes : Bytes) (s : Reader R)
      → s.continue_reading ≡ false
      → feed handle_line reject bytes s ≡ s
  unfolding feed
  feed-stopped [] s h = refl
  feed-stopped (c ∷ rest) s h = ground arith

  pub feed-append :
      (xs ys : Bytes) (s : Reader R)
      → feed handle_line reject (xs ++ ys) s
        ≡ feed handle_line reject ys (feed handle_line reject xs s)
  unfolding feed
  feed-append [] ys s = refl
  feed-append (x ∷ xs) ys s =
      ground (arith, feed-append xs ys (read_byte handle_line reject x s), feed-stopped ys s)

  read_byte-short :
      (c : ℕ) (s : Reader R)
      → c ≢ 10
      → s.discarding_oversized_line ≡ false
      → length s.pending < 1048576
      → read_byte handle_line reject c s ≡ record s { pending = s.pending ++ c ∷ [] }
  unfolding read_byte add_byte
  read_byte-short c s n e h = ground (arith, length-append s.pending (c ∷ []))

  read_byte-full :
      (c : ℕ) (s : Reader R)
      → c ≢ 10
      → s.discarding_oversized_line ≡ false
      → length s.pending ≡ 1048576
      → read_byte handle_line reject c s
        ≡ record s { pending = []; discarding_oversized_line = true }
  unfolding read_byte add_byte
  read_byte-full c s n e h = ground (arith, length-append s.pending (c ∷ []))

  read_byte-discarding :
      (c : ℕ) (s : Reader R)
      → c ≢ 10
      → s.discarding_oversized_line ≡ true
      → read_byte handle_line reject c s ≡ s
  unfolding read_byte add_byte
  read_byte-discarding c s n e = ground arith

  pub feed-discarding :
      (line : Bytes) (s : Reader R)
      → NoNewline line
      → s.discarding_oversized_line ≡ true
      → feed handle_line reject line s ≡ s
  unfolding feed
  feed-discarding [] s n e = refl
  feed-discarding (c ∷ rest) s n e =
      ground (arith, read_byte-discarding c s n.0 e, feed-discarding rest s n.1 e)

  pub feed-short :
      (line : Bytes) (s : Reader R)
      → NoNewline line
      → s.continue_reading ≡ true
      → s.discarding_oversized_line ≡ false
      → length s.pending + length line ≤ 1048576
      → feed handle_line reject line s ≡ record s { pending = s.pending ++ line }
  unfolding feed
  feed-short [] s n g e h = ground (arith, append-nil s.pending)
  feed-short (c ∷ rest) s n g e h = ground (
    arith,
    read_byte-short c s n.0 e,
    feed-short rest (record s { pending = s.pending ++ c ∷ [] }) n.1 g e,
    length-append s.pending (c ∷ []),
    append_assoc s.pending (c ∷ []) rest,
  )

  pub feed-long :
      (line : Bytes) (s : Reader R)
      → NoNewline line
      → s.continue_reading ≡ true
      → s.discarding_oversized_line ≡ false
      → length s.pending ≤ 1048576
      → 1048576 < length s.pending + length line
      → feed handle_line reject line s ≡ record s { pending = []; discarding_oversized_line = true }
  unfolding feed
  feed-long [] s n g e h k = absurd (omega arith)
  feed-long (c ∷ rest) s n g e h k = ground (
    arith,
    read_byte-short c s n.0 e,
    read_byte-full c s n.0 e,
    feed-long rest (record s { pending = s.pending ++ c ∷ [] }) n.1 g e,
    feed-discarding rest (record s { pending = []; discarding_oversized_line = true }) n.1,
    length-append s.pending (c ∷ []),
  )

  -- Between two lines.
  pub record IsClean (s : Reader R) : Type 0 where
    pub reading : s.continue_reading ≡ true
    pub kept : s.discarding_oversized_line ≡ false
    pub empty : s.pending ≡ []

  -- A line and its newline, read between two lines: up to 1 MiB it is handled whole, and a longer
  -- one is rejected once; either way the reader is between two lines again (or has been told to
  -- stop), so a line never leaks into the next.
  pub feed-line :
      (line : Bytes) (s : Reader R)
      → NoNewline line
      → IsClean s
      → feed handle_line reject (line ++ 10 ∷ []) s ≡ (
          if leb (length line) 1048576
          then record s {
            continue_reading = (handle_line line s.target).1;
            target = (handle_line line s.target).0;
          }
          else record s { target = reject s.target })
  unfolding feed read_byte end_line
  feed-line line s n c = ground (
    arith,
    feed-append line (10 ∷ []) s,
    feed-short line s n c.reading c.kept,
    feed-long line s n c.reading c.kept,
  )
