-- ===== src/Chunker/Bounds.antt =====
-- What `PhraseChunker::next_chunk_bytes` promises of its result.
use tiny_robotic_voice.Common.{
  ℕ, ◌+◌, ◌-◌, ◌≤◌, ◌<◌, ◌≡◌, ◌≢◌, refl, ◌⊎◌, inl, inr, Bool, true, false, none, some, Bytes, [],
  ◌∷◌, length, get_or, arith, Option-cases,
}
use tiny_robotic_voice.Chunker.{
  ascii_space, clause_mark, find_byte, sentence_end, newline_end, preferred_end, hard_end,
  next_chunk_bytes, phrase_end,
}
use tiny_robotic_voice.Chunker.Cuts.{
  is_boundary, IsCut, behind-IsCut, sentence_from-IsCut, find_byte-found, last_from-IsCut,
}

clause-boundary : (c : ℕ) → clause_mark c ≡ true → is_boundary c ≡ true
clause-boundary c h = ground arith

space-boundary : (c : ℕ) → ascii_space c ≡ true → is_boundary c ≡ true
space-boundary c h = ground arith

newline-boundary : (c : ℕ) → c ≡ 10 → is_boundary c ≡ true
unfolding ascii_space
newline-boundary c h = ground arith

sentence_end-IsCut : (buffer : Bytes) (e : ℕ) → sentence_end buffer ≡ some e → IsCut buffer e
unfolding sentence_end
sentence_end-IsCut buffer e f =
    sentence_from-IsCut (length buffer - 23) buffer 23 e (omega arith) (omega arith) f

newline_end-IsCut : (buffer : Bytes) (e : ℕ) → newline_end buffer ≡ some e → IsCut buffer e
unfolding newline_end
newline_end-IsCut buffer e f = elim (Option-cases (find_byte 10 buffer 0)) [
  | inl missing ↦ ground arith
  | inr (j, found) ↦ cut j found (find_byte-found 10 buffer 0 j found)
]
  where
    cut :
        (j : ℕ)
        → find_byte 10 buffer 0 ≡ some j
        → (k : ℕ) × (j ≡ 0 + k) × (k < length buffer) × (get_or buffer k 0 ≡ 10)
        → IsCut buffer e
    cut j found (k, at, l, g) =
        ground (arith, behind-IsCut buffer k l, newline-boundary (get_or buffer k 0))

preferred_end-IsCut : (buffer : Bytes) (e : ℕ) → preferred_end buffer ≡ some e → IsCut buffer e
unfolding preferred_end
preferred_end-IsCut buffer e f = ground (
  arith,
  last_from-IsCut 76 clause_mark buffer e clause-boundary,
  last_from-IsCut 76 ascii_space buffer e space-boundary,
)

hard_end-cases :
    (buffer : Bytes) (e : ℕ)
    → hard_end buffer ≡ some e
    → IsCut buffer e ⊎ ((e ≡ 180) × (180 ≤ length buffer))
unfolding hard_end
hard_end-cases buffer e f = ground (arith, last_from-IsCut 156 ascii_space buffer e space-boundary)

-- The four ways to a phrase together.
phrase_end-cases :
    (buffer : Bytes) (e : ℕ)
    → phrase_end buffer ≡ some e
    → IsCut buffer e ⊎ ((e ≡ 180) × (180 ≤ length buffer))
unfolding phrase_end
phrase_end-cases buffer e f = ground (
  arith,
  sentence_end-IsCut buffer e,
  newline_end-IsCut buffer e,
  preferred_end-IsCut buffer e,
  hard_end-cases buffer e,
)

-- The result on each branch.
next_chunk_bytes-cases :
    (buffer : Bytes) (force : Bool)
    → phrase_end buffer ≡ some (next_chunk_bytes buffer force)
      ⊎ ((force ≡ true) × (next_chunk_bytes buffer force ≡ length buffer))
      ⊎ ((force ≡ false) × (next_chunk_bytes buffer force ≡ 0))
unfolding next_chunk_bytes
next_chunk_bytes-cases [] true = inr (inl (refl, refl))
next_chunk_bytes-cases [] false = inr (inr (refl, refl))
next_chunk_bytes-cases (c ∷ rest) force = ground arith

-- What is cut before the whole buffer is forced out has at least 24 bytes, lies within the buffer,
-- and ends behind a space, a sentence mark or a clause mark, or is the hard maximum.
pub next_chunk_bytes-IsCut :
    (buffer : Bytes) (force : Bool)
    → next_chunk_bytes buffer force ≢ 0
    → IsCut buffer (next_chunk_bytes buffer force)
      ⊎ ((next_chunk_bytes buffer force ≡ 180) × (180 ≤ length buffer))
      ⊎ ((force ≡ true) × (next_chunk_bytes buffer force ≡ length buffer))
next_chunk_bytes-IsCut buffer force h = ground (
  arith,
  next_chunk_bytes-cases buffer force,
  phrase_end-cases buffer (next_chunk_bytes buffer force),
)

-- The number of bytes never exceeds the buffer.
pub next_chunk_bytes-le-length :
    (buffer : Bytes) (force : Bool) → next_chunk_bytes buffer force ≤ length buffer
next_chunk_bytes-le-length buffer force = ground (
  arith,
  next_chunk_bytes-cases buffer force,
  phrase_end-cases buffer (next_chunk_bytes buffer force),
)

phrase_end-full : (buffer : Bytes) → 180 ≤ length buffer → phrase_end buffer ≢ none
unfolding phrase_end hard_end
phrase_end-full buffer h = ground arith

-- A buffer that is not empty gives a phrase when it is forced, and when it has 180 bytes.
pub next_chunk_bytes-pos :
    (buffer : Bytes) (force : Bool)
    → ((force ≡ true) × (0 < length buffer)) ⊎ (180 ≤ length buffer)
    → 0 < next_chunk_bytes buffer force
unfolding next_chunk_bytes
next_chunk_bytes-pos [] force h = ground arith
next_chunk_bytes-pos (c ∷ rest) force h = elim (Option-cases (phrase_end (c ∷ rest))) [
  | inl missing ↦ ground (arith, phrase_end-full (c ∷ rest))
  | inr (e, found) ↦ ground (arith, phrase_end-cases (c ∷ rest) e found)
]
