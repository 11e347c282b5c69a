-- ===== src/Stream/Reads.antt =====
-- The reading loop of `stream` in src/main.cpp over its reads of at most 4096 bytes each.
use tiny_robotic_voice.Common.{
  not, ◌&&◌, is_empty, List, ◌≡◌, refl, sym, ◌∙◌, ap, Bool, true, false, Bytes, [], ◌∷◌, ◌++◌,
  length, length-append, append_assoc, append-nil, if◌then◌else◌, arith, leb,
}
use tiny_robotic_voice.Stream.{
  Reader, Chunk, Round, nothing, signalled, broken, received, end_of_input, left, feed,
  finish_input, read_loop,
}
use tiny_robotic_voice.Stream.Lines.{
  NoNewline, IsClean, feed-append, feed-stopped, feed-short, feed-long, feed-discarding,
}

NoNewline-append : (xs ys : Bytes) → NoNewline (xs ++ ys) → NoNewline xs × NoNewline ys
NoNewline-append [] ys n = (tt, n)
NoNewline-append (x ∷ xs) ys n = let (a, b) = NoNewline-append xs ys n.1 in ((n.0, a), b)

-- The bytes of reads in their order.
abbrev pub text_of : List Chunk → Bytes
text_of [] = []
text_of (chunk ∷ more) = chunk.bytes ++ text_of more

module _ {R : Type 0} where
  -- The rounds in which the chunks are read, each after what the other threads did, and then others.
  abbrev pub arrive : List ((R → R) × Chunk) → List ((R → R) × Round) → List ((R → R) × Round)
  arrive [] rest = rest
  arrive ((others, chunk) ∷ more) rest = (others, received chunk) ∷ arrive more rest

  abbrev pub chunks_of : List ((R → R) × Chunk) → List Chunk
  chunks_of [] = []
  chunks_of ((others, chunk) ∷ more) = chunk ∷ chunks_of more

  -- What the other threads do while the chunks are read.
  abbrev pub meanwhile : List ((R → R) × Chunk) → R → R
  meanwhile [] r = r
  meanwhile ((others, chunk) ∷ more) r = meanwhile more (others r)

  -- The chunks, with nothing done by the other threads.
  abbrev pub quietly : List Chunk → List ((R → R) × Chunk)
  quietly [] = []
  quietly (chunk ∷ more) = ((λ r. r), chunk) ∷ quietly more

  -- A reader that was between two lines, after the start of a line.
  abbrev holding : Reader R → Bytes → R → Reader R
  holding s line r = record s {
    target = r;
    pending = if leb (length line) 1048576 then line else [];
    discarding_oversized_line = not (leb (length line) 1048576);
  }

module _ {R : Type 0} (handle_line : Bytes → R → R × Bool) (reject : R → R) where
  feed-holding :
      (line more : Bytes) (s : Reader R) (r : R)
      → NoNewline more
      → s.continue_reading ≡ true
      → feed handle_line reject more (holding s line r) ≡ holding s (line ++ more) r
  feed-holding line more s r n reading = ground (
    arith,
    length-append line more,
    feed-short handle_line reject more (holding s line r) n reading,
    feed-long handle_line reject more (holding s line r) n reading,
    feed-discarding handle_line reject more (holding s line r) n,
  )

  pub read_loop-chunk :
      (others : R → R) (chunk : Chunk) (rest : List ((R → R) × Round)) (s : Reader R)
      → s.continue_reading ≡ true
      → read_loop handle_line reject ((others, received chunk) ∷ rest) s
        ≡ read_loop handle_line reject rest
            (feed handle_line reject chunk.bytes (record s { target = others s.target }))
  unfolding read_loop
  read_loop-chunk others chunk rest s reading = rw reading refl

  read_loop-end :
      (others : R → R) (rest : List ((R → R) × Round)) (s : Reader R)
      → s.continue_reading ≡ true
      → read_loop handle_line reject ((others, end_of_input) ∷ rest) s
        ≡ (finish_input handle_line reject (record s { target = others s.target }), left)
  unfolding read_loop
  read_loop-end others rest s reading = rw reading refl

  read_loop-holding :
      (chunks : List ((R → R) × Chunk)) (rest : List ((R → R) × Round)) (line : Bytes)
      (s : Reader R) (r : R)
      → NoNewline (text_of (chunks_of chunks))
      → s.continue_reading ≡ true
      → read_loop handle_line reject (arrive chunks rest) (holding s line r)
        ≡ read_loop handle_line reject rest
            (holding s (line ++ text_of (chunks_of chunks)) (meanwhile chunks r))
  read_loop-holding [] rest line s r n reading =
      ap (λ x. read_loop handle_line reject rest (holding s x r)) (sym (append-nil line))
  read_loop-holding ((others, chunk) ∷ more) rest line s r n reading =
      let (first, later) = NoNewline-append chunk.bytes (text_of (chunks_of more)) n in
      read_loop-chunk others chunk (arrive more rest) (holding s line r) reading
      ∙ ap (read_loop handle_line reject (arrive more rest))
          (feed-holding line chunk.bytes s (others r) first reading)
      ∙ read_loop-holding more rest (line ++ chunk.bytes) s (others r) later reading
      ∙ ap (λ text. read_loop handle_line reject rest (holding s text (meanwhile more (others r))))
          (append_assoc line chunk.bytes (text_of (chunks_of more)))

  holding-nothing : (s : Reader R) → IsClean handle_line reject s → holding s [] s.target ≡ s
  holding-nothing s c = ground (arith, c.reading, c.kept, c.empty)

  finish-holding :
      (line : Bytes) (s : Reader R) (met : R)
      → (finish_input handle_line reject (holding s line met)).target ≡ (
          if not (is_empty line) && leb (length line) 1048576
          then (handle_line line met).0
          else met)
  unfolding finish_input
  finish-holding line s met = ground arith

  -- The last line, in however many reads of at most 4096 bytes it arrives, when the input ends
  -- without a newline behind it, ends the loop: up to 1 MiB it is handled whole if it is not empty,
  -- but a longer one is dropped, with no rejection.
  pub read_loop-last_line :
      (chunks : List ((R → R) × Chunk)) (later : R → R) (rest : List ((R → R) × Round))
      (s : Reader R)
      → NoNewline (text_of (chunks_of chunks))
      → IsClean handle_line reject s
      → let met = later (meanwhile chunks s.target) in
        let (s', ending) =
          read_loop handle_line reject (arrive chunks ((later, end_of_input) ∷ rest)) s in
        (s'.target ≡ (
          if not (is_empty (text_of (chunks_of chunks)))
            && leb (length (text_of (chunks_of chunks))) 1048576
          then (handle_line (text_of (chunks_of chunks)) met).0
          else met))
        × (ending ≡ left)
  read_loop-last_line chunks later rest s n c = (
    ap (λ x. x.0.target) path
        ∙ finish-holding (text_of (chunks_of chunks)) s (later (meanwhile chunks s.target)),
    ap (λ x. x.1) path,
  )
    where
      path : read_loop handle_line reject (arrive chunks ((later, end_of_input) ∷ rest)) s ≡ (
        finish_input handle_line reject
            (holding s (text_of (chunks_of chunks)) (later (meanwhile chunks s.target))),
        left,
      )
      path =
          ap (read_loop handle_line reject (arrive chunks ((later, end_of_input) ∷ rest)))
            (sym (holding-nothing s c))
          ∙ read_loop-holding chunks ((later, end_of_input) ∷ rest) [] s s.target n c.reading
          ∙ read_loop-end later rest
              (holding s (text_of (chunks_of chunks)) (meanwhile chunks s.target)) c.reading

  pub read_loop-stopped :
      (rounds : List ((R → R) × Round)) (s : Reader R)
      → s.continue_reading ≡ false
      → read_loop handle_line reject rounds s ≡ (s, left)
  unfolding read_loop
  read_loop-stopped [] s h = ground arith
  read_loop-stopped ((others, received chunk) ∷ rest) s h = ground arith
  read_loop-stopped ((others, end_of_input) ∷ rest) s h = ground arith
  read_loop-stopped ((others, nothing) ∷ rest) s h = ground arith
  read_loop-stopped ((others, signalled) ∷ rest) s h = ground arith
  read_loop-stopped ((others, broken) ∷ rest) s h = ground arith

  read_loop-feed :
      (chunks : List Chunk) (rest : List ((R → R) × Round)) (s : Reader R)
      → read_loop handle_line reject (arrive (quietly chunks) rest) s
        ≡ read_loop handle_line reject rest (feed handle_line reject (text_of chunks) s)
  unfolding read_loop feed
  read_loop-feed [] rest s = refl
  read_loop-feed (chunk ∷ more) rest s = ground (
    arith,
    read_loop-feed more rest (feed handle_line reject chunk.bytes s),
    feed-append handle_line reject chunk.bytes (text_of more) s,
    read_loop-stopped rest s,
    feed-stopped handle_line reject (chunk.bytes ++ text_of more) s,
  )

  -- How the input is cut into reads has no effect: if two sequences of reads, between which the other
  -- threads do nothing, bring the same bytes, the loop does the same from there on.
  pub read_loop-cut :
      (xs ys : List Chunk) (rest : List ((R → R) × Round)) (s : Reader R)
      → text_of xs ≡ text_of ys
      → read_loop handle_line reject (arrive (quietly xs) rest) s
        ≡ read_loop handle_line reject (arrive (quietly ys) rest) s
  read_loop-cut xs ys rest s h =
      read_loop-feed xs rest s
      ∙ ap (λ text. read_loop handle_line reject rest (feed handle_line reject text s)) h
      ∙ sym (read_loop-feed ys rest s)
