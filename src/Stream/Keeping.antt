-- ===== src/Stream/Keeping.antt =====
-- What the reading loop of `stream` in src/main.cpp keeps, over any state: a property that each line,
-- each rejection and the other threads keep.
use tiny_robotic_voice.Common.{ℕ, Bool, Bytes, List, [], ◌∷◌, arith, if-elim}
use tiny_robotic_voice.Stream.{
  Reader, Ending, end_line, add_byte, read_byte, feed, finish_input, Round, received, end_of_input,
  nothing, signalled, broken, read_loop,
}

-- What the other threads do before each round keeps a property.
abbrev pub OthersKeep : {R : Type 0} → (R → Type 0) → List ((R → R) × Round) → Type 0
OthersKeep P [] = Unit {0}
OthersKeep P ((others, round) ∷ rest) = ((r : _) → P r → P (others r)) × OthersKeep P rest

-- A property of the state that lines, rejections and the other threads keep is kept by the loop.
module _ {R : Type 0} (handle_line : Bytes → R → R × Bool) (reject : R → R) (P : R → Type 0)
    (line_keeps : (line : Bytes) (r : R) → P r → P (handle_line line r).0)
    (reject_keeps : (r : R) → P r → P (reject r)) where
  read_byte-keeps :
      (c : ℕ) (s : Reader R) → P s.target → P (read_byte handle_line reject c s).target
  unfolding read_byte end_line add_byte
  read_byte-keeps c s p = ground (arith, line_keeps s.pending s.target p, reject_keeps s.target p)

  feed-keeps :
      (bytes : Bytes) (s : Reader R) → P s.target → P (feed handle_line reject bytes s).target
  unfolding feed
  feed-keeps [] s p = p
  feed-keeps (c ∷ rest) s p =
      if-elim (λ (x : Reader R). P x.target) s.continue_reading _ _
        (λ _. feed-keeps rest (read_byte handle_line reject c s) (read_byte-keeps c s p)) (λ _. p)

  finish_input-keeps : (s : Reader R) → P s.target → P (finish_input handle_line reject s).target
  unfolding finish_input
  finish_input-keeps s p = ground (arith, line_keeps s.pending s.target p)

  pub read_loop-keeps :
      (rounds : List ((R → R) × Round)) (s : Reader R)
      → OthersKeep P rounds
      → P s.target
      → P (read_loop handle_line reject rounds s).0.target
  unfolding read_loop
  read_loop-keeps [] s k p = p
  read_loop-keeps ((others, received chunk) ∷ rest) s k p =
      if-elim {A = Reader R × Ending} (λ x. P x.0.target) s.continue_reading _ _
        (λ _.
          read_loop-keeps rest (feed handle_line reject chunk.bytes met) k.1
            (feed-keeps chunk.bytes met (k.0 s.target p)))
        (λ _. p)
    where
      met : Reader R
      met = record s { target = others s.target }
  read_loop-keeps ((others, end_of_input) ∷ rest) s k p =
      if-elim (λ (x : Reader R). P x.target) s.continue_reading _ _
        (λ _. finish_input-keeps (record s { target = others s.target }) (k.0 s.target p)) (λ _. p)
  read_loop-keeps ((others, nothing) ∷ rest) s k p =
      if-elim {A = Reader R × Ending} (λ x. P x.0.target) s.continue_reading _ _
        (λ _. read_loop-keeps rest (record s { target = others s.target }) k.1 (k.0 s.target p))
        (λ _. p)
  read_loop-keeps ((others, signalled) ∷ rest) s k p =
      if-elim (λ (x : Reader R). P x.target) s.continue_reading _ _ (λ _. k.0 s.target p) (λ _. p)
  read_loop-keeps ((others, broken) ∷ rest) s k p =
      if-elim {A = Reader R × Ending} (λ x. P x.0.target) s.continue_reading _ _
        (λ _. k.0 s.target p) (λ _. p)
