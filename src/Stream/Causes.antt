-- ===== src/Stream/Causes.antt =====
-- What ends the reading loop of `stream` in src/main.cpp: the rounds, or a line that is read.
use tiny_robotic_voice.Common.{
  ℕ, ◌≡◌, refl, sym, ◌∙◌, ap, subst, ◌⊎◌, inl, inr, Bool, true, false, Bool-cases, Option, none,
  some, Bytes, List, [], ◌∷◌, ◌++◌, append_assoc, append-nil, arith, ltb, ◌==◌, length, if-elim,
}
use tiny_robotic_voice.Stream.{
  Reader, Round, received, end_of_input, nothing, signalled, broken, Ending, left, broke, waiting,
  end_line, add_byte, read_byte, feed, read_loop,
}
use tiny_robotic_voice.Protocol.{maximum_protocol_line_bytes}
use tiny_robotic_voice.Stream.Lines.{IsClean, feed-stopped}
use tiny_robotic_voice.Stream.Reads.{read_loop-stopped, read_loop-chunk}

-- In the text a newline ends a line of which `P` holds.
abbrev pub HasLine : (Bytes → Type 0) → Bytes → Type 0
HasLine P text = (line before after : Bytes) × (text ≡ before ++ line ++ 10 ∷ after) × P line

HasLine-append : (P : Bytes → Type 0) (xs ys : Bytes) → HasLine P xs → HasLine P (xs ++ ys)
HasLine-append P xs ys (line, before, after, same, holds) = (
  line,
  before,
  after ++ ys,
  ap (λ text. text ++ ys) same ∙ append_assoc (before ++ line) (10 ∷ after) ys,
  holds,
)

module _ {R : Type 0} where
  -- The first round that ends the loop whatever was read: the end of the input, a signal, or an error.
  abbrev pub first_end : List ((R → R) × Round) → Option Round
  first_end [] = none
  first_end ((others, received chunk) ∷ rest) = first_end rest
  first_end ((others, nothing) ∷ rest) = first_end rest
  first_end ((others, end_of_input) ∷ rest) = some end_of_input
  first_end ((others, signalled) ∷ rest) = some signalled
  first_end ((others, broken) ∷ rest) = some broken

  -- The bytes that are read before it.
  abbrev pub input_of : List ((R → R) × Round) → Bytes
  input_of [] = []
  input_of ((others, received chunk) ∷ rest) = chunk.bytes ++ input_of rest
  input_of ((others, nothing) ∷ rest) = input_of rest
  input_of ((others, end_of_input) ∷ rest) = []
  input_of ((others, signalled) ∷ rest) = []
  input_of ((others, broken) ∷ rest) = []

  -- What brings the loop to an ending, if `P` holds of the lines that stop it.
  abbrev pub Because : (Bytes → Type 0) → List ((R → R) × Round) → Bytes → Ending → Type 0
  Because P rounds text left =
      (first_end rounds ≡ some end_of_input)
      ⊎ ((first_end rounds ≡ some signalled) ⊎ HasLine P text)
  Because P rounds text broke = first_end rounds ≡ some broken
  Because P rounds text waiting = first_end rounds ≡ none

  -- What is held of a line is the end of what was read.
  abbrev Held : Bytes → Reader R → Type 0
  Held text s =
      (s.discarding_oversized_line ≡ true) ⊎ ((before : Bytes) × (text ≡ before ++ s.pending))

  -- After the text, the loop goes on, or a line of it has stopped it.
  abbrev Went : (Bytes → Type 0) → Bytes → Reader R → Type 0
  Went P text s =
      ((s.continue_reading ≡ true) × Held text s) ⊎ ((s.continue_reading ≡ false) × HasLine P text)

module _ {R : Type 0} (handle_line : Bytes → R → R × Bool) (reject : R → R) (P : Bytes → Type 0)
    (stops : (line : Bytes) (r : R) → (handle_line line r).1 ≡ false → P line) where
  end_line-Went :
      (text : Bytes) (s : Reader R)
      → s.continue_reading ≡ true
      → Held text s
      → Went P (text ++ 10 ∷ []) (end_line handle_line reject s)
  unfolding end_line
  end_line-Went text s reading (inl discarding) =
      rw discarding (inl (reading, inr (text ++ 10 ∷ [], sym (append-nil (text ++ 10 ∷ [])))))
  end_line-Went text s reading (inr (before, same)) =
      if-elim (λ (x : Reader R). Went P (text ++ 10 ∷ []) x) s.discarding_oversized_line _ _
        (λ _. inl (reading, inr (text ++ 10 ∷ [], sym (append-nil (text ++ 10 ∷ [])))))
        (λ _. elim (Bool-cases (handle_line s.pending s.target).1) [
          | inl on ↦ inl (on, inr (text ++ 10 ∷ [], sym (append-nil (text ++ 10 ∷ []))))
          | inr off ↦ inr (
            off,
            (s.pending, before, [], ap (λ x. x ++ 10 ∷ []) same, stops s.pending s.target off),
          )
        ])

  add_byte-Went :
      (c : ℕ) (text : Bytes) (s : Reader R)
      → s.continue_reading ≡ true
      → Held text s
      → Went P (text ++ c ∷ []) (add_byte handle_line reject c s)
  unfolding add_byte
  add_byte-Went c text s reading held =
      if-elim (λ (x : Reader R). Went P (text ++ c ∷ []) x) s.discarding_oversized_line _ _
        (λ discarding. inl (reading, inl discarding))
        (λ kept.
          if-elim (λ (x : Reader R). Went P (text ++ c ∷ []) x)
            (ltb maximum_protocol_line_bytes (length (s.pending ++ c ∷ []))) _ _
            (λ _. inl (reading, inl refl)) (λ _. inl (reading, still held kept)))
    where
      still :
          Held text s
          → s.discarding_oversized_line ≡ false
          → Held (text ++ c ∷ []) (record s { pending = s.pending ++ c ∷ [] })
      still (inl discarding) kept = inl discarding
      still (inr (before, same)) kept =
          inr (before, ap (λ x. x ++ c ∷ []) same ∙ append_assoc before s.pending (c ∷ []))

  read_byte-Went :
      (c : ℕ) (text : Bytes) (s : Reader R)
      → s.continue_reading ≡ true
      → Held text s
      → Went P (text ++ c ∷ []) (read_byte handle_line reject c s)
  unfolding read_byte
  read_byte-Went c text s reading held =
      if-elim (λ (x : Reader R). Went P (text ++ c ∷ []) x) (c == 10) _ _
        (λ newline.
          subst (λ x. Went P (text ++ x ∷ []) (end_line handle_line reject s)) (ground arith)
            (end_line-Went text s reading held))
        (λ _. add_byte-Went c text s reading held)

  feed-step :
      (c : ℕ) (rest : Bytes) (s : Reader R)
      → s.continue_reading ≡ true
      → feed handle_line reject (c ∷ rest) s
        ≡ feed handle_line reject rest (read_byte handle_line reject c s)
  unfolding feed
  feed-step c rest s reading = ground arith

  read_loop-nothing :
      (others : R → R) (rest : List ((R → R) × Round)) (s : Reader R)
      → s.continue_reading ≡ true
      → read_loop handle_line reject ((others, nothing) ∷ rest) s
        ≡ read_loop handle_line reject rest (record s { target = others s.target })
  unfolding read_loop
  read_loop-nothing others rest s reading = ground arith

  feed-Went :
      (bytes text : Bytes) (s : Reader R)
      → Went P text s
      → Went P (text ++ bytes) (feed handle_line reject bytes s)
  unfolding feed
  feed-Went [] text s went = subst (λ x. Went P x s) (sym (append-nil text)) went
  feed-Went (c ∷ rest) text s (inl (reading, held)) =
      subst (λ x. Went P (text ++ c ∷ rest) x) (sym (feed-step c rest s reading))
        (subst (λ x. Went P x (feed handle_line reject rest (read_byte handle_line reject c s)))
          (append_assoc text (c ∷ []) rest)
          (feed-Went rest (text ++ c ∷ []) (read_byte handle_line reject c s)
            (read_byte-Went c text s reading held)))
  feed-Went (c ∷ rest) text s (inr (stopped, found)) =
      subst (λ x. Went P (text ++ c ∷ rest) x)
        (sym (feed-stopped handle_line reject (c ∷ rest) s stopped))
        (inr (stopped, HasLine-append P text (c ∷ rest) found))

  read_loop-Went :
      (rounds : List ((R → R) × Round)) (text : Bytes) (s : Reader R)
      → Went P text s
      → Because P rounds (text ++ input_of rounds) (read_loop handle_line reject rounds s).1
  unfolding read_loop
  read_loop-Went rounds text s (inr (stopped, found)) =
      subst (λ x. Because P rounds (text ++ input_of rounds) x.1)
        (sym (read_loop-stopped handle_line reject rounds s stopped))
        (inr (inr (HasLine-append P text (input_of rounds) found)))
  read_loop-Went [] text s (inl (reading, held)) = rw reading refl
  read_loop-Went ((others, received chunk) ∷ rest) text s (inl (reading, held)) =
      subst (λ x. Because P rest (text ++ (chunk.bytes ++ input_of rest)) x.1)
        (sym (read_loop-chunk handle_line reject others chunk rest s reading))
        (subst (λ x. Because P rest x (read_loop handle_line reject rest went).1)
          (append_assoc text chunk.bytes (input_of rest))
          (read_loop-Went rest (text ++ chunk.bytes) went
            (feed-Went chunk.bytes text met (inl (reading, held)))))
    where
      met : Reader R
      met = record s { target = others s.target }

      went : Reader R
      went = feed handle_line reject chunk.bytes met
  read_loop-Went ((others, nothing) ∷ rest) text s (inl (reading, held)) =
      subst (λ x. Because P rest (text ++ input_of rest) x.1)
        (sym (read_loop-nothing others rest s reading))
        (read_loop-Went rest text (record s { target = others s.target }) (inl (reading, held)))
  read_loop-Went ((others, end_of_input) ∷ rest) text s (inl (reading, held)) = inl refl
  read_loop-Went ((others, signalled) ∷ rest) text s (inl (reading, held)) = inr (inl refl)
  read_loop-Went ((others, broken) ∷ rest) text s (inl (reading, held)) = rw reading refl

  -- The loop, from a reader that is between two lines, ends for a cause.
  pub read_loop-Because :
      (rounds : List ((R → R) × Round)) (s : Reader R)
      → IsClean handle_line reject s
      → Because P rounds (input_of rounds) (read_loop handle_line reject rounds s).1
  read_loop-Because rounds s c = read_loop-Went rounds [] s (inl (c.reading, inr ([], sym c.empty)))
