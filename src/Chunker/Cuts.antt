-- ===== src/Chunker/Cuts.antt =====
-- Where the search loops of src/chunker.cpp stop.
use tiny_robotic_voice.Common.{
  ℕ, zero, suc, ◌+◌, ◌-◌, ◌≤◌, ◌<◌, ◌≡◌, inl, inr, Bool, true, ◌&&◌, ◌||◌, some, Bytes, [], ◌∷◌,
  length, get_or, ltb, ◌==◌, arith, Bool-cases, ==_iff,
}
use tiny_robotic_voice.Chunker.{
  ascii_space, skip_space, include_following_space, sentence_mark, clause_mark, ends_sentence,
  sentence_from, find_byte, last_from,
}

-- The bytes behind which a phrase may end.
abbrev pub is_boundary : ℕ → Bool
is_boundary c = ascii_space c || sentence_mark c || clause_mark c

-- A cut at `e` takes at least the minimum and ends behind a boundary byte.
pub record IsCut (buffer : Bytes) (e : ℕ) : Type 0 where
  pub least : 24 ≤ e
  pub within : e ≤ length buffer
  pub behind : is_boundary (get_or buffer (e - 1) 0) ≡ true

skip_space-within :
    (n : ℕ) (text : Bytes) (i : ℕ)
    → i ≤ length text
    → (i ≤ skip_space n text i) × (skip_space n text i ≤ length text)
unfolding skip_space
skip_space-within zero text i h = omega arith
skip_space-within (suc n) text i h = ground (arith, skip_space-within n text (i + 1))

skip_space-behind :
    (n : ℕ) (text : Bytes) (i : ℕ)
    → is_boundary (get_or text i 0) ≡ true
    → is_boundary (get_or text (skip_space n text (i + 1) - 1) 0) ≡ true
unfolding skip_space
skip_space-behind zero text i h = let e : i + 1 - 1 ≡ i = omega arith in rw e h
skip_space-behind (suc n) text i h =
    elim (Bool-cases (ltb (i + 1) (length text) && ascii_space (get_or text (i + 1) 0))) [
      | inl go ↦ rw go (skip_space-behind n text (i + 1) (ground arith))
      | inr stop ↦ rw stop (let e : i + 1 - 1 ≡ i = omega arith in rw e h)
    ]

-- The spaces behind a boundary byte are taken along, and the cut is behind a boundary byte again.
pub include_following_space-IsCut :
    (buffer : Bytes) (i : ℕ)
    → i < length buffer
    → 23 ≤ i
    → is_boundary (get_or buffer i 0) ≡ true
    → IsCut buffer (include_following_space buffer (i + 1))
unfolding include_following_space
include_following_space-IsCut buffer i h k b = record {
  least = omega (arith, skip_space-within (length buffer - (i + 1)) buffer (i + 1) (omega arith));
  within = (skip_space-within (length buffer - (i + 1)) buffer (i + 1) (omega arith)).1;
  behind = skip_space-behind (length buffer - (i + 1)) buffer i b;
}

-- A cut directly behind a boundary byte.
pub behind-IsCut :
    (buffer : Bytes) (i : ℕ)
    → i < length buffer
    → 23 ≤ i
    → is_boundary (get_or buffer i 0) ≡ true
    → IsCut buffer (i + 1)
behind-IsCut buffer i h k b = record {
  least = omega arith;
  within = omega arith;
  behind = let e : i + 1 - 1 ≡ i = omega arith in rw e b;
}

pub sentence_from-IsCut :
    (n : ℕ) (buffer : Bytes) (i e : ℕ)
    → 23 ≤ i
    → n ≤ length buffer - i
    → sentence_from n buffer i ≡ some e
    → IsCut buffer e
unfolding sentence_from
sentence_from-IsCut zero buffer i e h k f = cc
sentence_from-IsCut (suc n) buffer i e h k f = elim (Bool-cases (ends_sentence buffer i)) [
  | inl ends ↦ ground (arith, include_following_space-IsCut buffer i)
  | inr not ↦ sentence_from-IsCut n buffer (i + 1) e (omega arith) (omega arith) (ground arith)
]

-- The found index is that of the byte, counted from the head of the list.
pub find_byte-found :
    (c : ℕ) (text : Bytes) (i j : ℕ)
    → find_byte c text i ≡ some j
    → (k : ℕ) × (j ≡ i + k) × (k < length text) × (get_or text k 0 ≡ c)
unfolding find_byte
find_byte-found c [] i j f = cc
find_byte-found c (x ∷ text) i j f = elim (Bool-cases (x == c)) [
  | inl hit ↦ (0, ground arith, omega arith, (==_iff x c).0 hit)
  | inr miss ↦ later (find_byte-found c text (i + 1) j (ground arith))
]
  where
    later :
        (k : ℕ) × (j ≡ i + 1 + k) × (k < length text) × (get_or text k 0 ≡ c)
        → (k : ℕ) × (j ≡ i + k) × (k < suc (length text)) × (get_or (x ∷ text) k 0 ≡ c)
    later (k, e, l, g) = (suc k, omega arith, omega arith, g)

pub last_from-IsCut :
    (n : ℕ) (test : ℕ → Bool) (buffer : Bytes) (e : ℕ)
    → ((c : ℕ) → test c ≡ true → is_boundary c ≡ true)
    → 24 + n ≤ length buffer
    → last_from n test buffer ≡ some e
    → IsCut buffer e
unfolding last_from
last_from-IsCut zero test buffer e b h f = cc
last_from-IsCut (suc n) test buffer e b h f = elim (Bool-cases (test (get_or buffer (24 + n) 0))) [
  | inl hit ↦
      ground (arith, include_following_space-IsCut buffer (24 + n), b (get_or buffer (24 + n) 0))
  | inr miss ↦ last_from-IsCut n test buffer e b (omega arith) (ground arith)
]
