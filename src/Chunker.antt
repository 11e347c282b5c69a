-- ===== src/Chunker.antt =====
-- include/trv/chunker.h and src/chunker.cpp: where the streamed text is cut into phrases.
-- `buffer[i]` is `get_or buffer i 0`; every read of the source is in range where it is made.
pub mod Cuts
pub mod Bounds
use tiny_robotic_voice.Common.{
  ℕ, zero, suc, ◌+◌, ◌-◌, min, Bool, false, not, ◌&&◌, ◌||◌, Option, none, some, [], ◌∷◌, Bytes,
  length, is_empty, get_or, ltb, leb, ◌==◌, if◌then◌else◌,
}

abbrev pub minimum_chunk : ℕ
minimum_chunk = 24

abbrev pub preferred_chunk : ℕ
preferred_chunk = 100

abbrev pub hard_maximum : ℕ
hard_maximum = 180

-- `isspace` in the "C" locale, which the program never leaves.
unfoldable pub ascii_space : ℕ → Bool
ascii_space c = c == 32 || (leb 9 c && leb c 13)

-- The first number is the rounds left, at most the bytes behind `end`.
pub skip_space : ℕ → Bytes → ℕ → ℕ
skip_space zero text end = end
skip_space (suc n) text end =
    let rest = skip_space n text (end + 1) in
    if ltb end (length text) && ascii_space (get_or text end 0) then rest else end

pub include_following_space : Bytes → ℕ → ℕ
include_following_space text end = skip_space (length text - end) text end

unfoldable pub has_speakable_text : Bytes → Bool
has_speakable_text [] = false
has_speakable_text (c ∷ text) = not (ascii_space c) || has_speakable_text text

unfoldable pub sentence_mark : ℕ → Bool
sentence_mark c = c == b'.' || c == b'!' || c == b'?'

unfoldable pub clause_mark : ℕ → Bool
clause_mark c = c == b',' || c == b';' || c == b':'

abbrev pub ends_sentence : Bytes → ℕ → Bool
ends_sentence buffer i =
    sentence_mark (get_or buffer i 0)
    && ((i + 1) == length buffer || ascii_space (get_or buffer (i + 1) 0))

-- The upward loop over `i`, with the rounds left.
unfoldable pub sentence_from : ℕ → Bytes → ℕ → Option ℕ
sentence_from zero buffer i = none
sentence_from (suc n) buffer i =
    let rest = sentence_from n buffer (i + 1) in
    if ends_sentence buffer i then some (include_following_space buffer (i + 1)) else rest

unfoldable pub sentence_end : Bytes → Option ℕ
sentence_end buffer = sentence_from (length buffer - (minimum_chunk - 1)) buffer (minimum_chunk - 1)

-- `std::string::find` of a byte; the number is the index of the list's head.
unfoldable pub find_byte : ℕ → Bytes → ℕ → Option ℕ
find_byte c [] i = none
find_byte c (x ∷ text) i = if x == c then some i else find_byte c text (i + 1)

unfoldable pub newline_end : Bytes → Option ℕ
newline_end buffer = elim (find_byte 10 buffer 0) [
  | none ↦ none
  | some newline ↦ if leb minimum_chunk (newline + 1) then some (newline + 1) else none
]

-- `for (i = limit; i-- > kMinimumChunk;)` with the rounds left: the last index is kMinimumChunk.
unfoldable pub last_from : ℕ → (ℕ → Bool) → Bytes → Option ℕ
last_from zero test buffer = none
last_from (suc n) test buffer =
    let rest = last_from n test buffer in
    if test (get_or buffer (minimum_chunk + n) 0)
    then some (include_following_space buffer (minimum_chunk + n + 1))
    else rest

abbrev pub or_else : Option ℕ → Option ℕ → Option ℕ
or_else (some n) o = some n
or_else none o = o

unfoldable pub preferred_end : Bytes → Option ℕ
preferred_end buffer =
    let limit = min (length buffer) preferred_chunk in
    if leb preferred_chunk (length buffer)
    then or_else (last_from (limit - minimum_chunk) clause_mark buffer)
        (last_from (limit - minimum_chunk) ascii_space buffer)
    else none

unfoldable pub hard_end : Bytes → Option ℕ
hard_end buffer =
    if leb hard_maximum (length buffer)
    then or_else (last_from (hard_maximum - minimum_chunk) ascii_space buffer) (some hard_maximum)
    else none

abbrev pub value_or : Option ℕ → ℕ → ℕ
value_or (some n) d = n
value_or none d = d

-- The boundaries in the order in which the source looks for them.
unfoldable pub phrase_end : Bytes → Option ℕ
phrase_end buffer =
    or_else (sentence_end buffer)
      (or_else (newline_end buffer) (or_else (preferred_end buffer) (hard_end buffer)))

unfoldable pub next_chunk_bytes : Bytes → Bool → ℕ
next_chunk_bytes buffer force =
    if is_empty buffer then 0 else value_or (phrase_end buffer) (if force then length buffer else 0)
