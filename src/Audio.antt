-- ===== src/Audio.antt =====
-- include/trv/audio.h: PCM buffers, and the sink to which the runtime hands them.
pub mod Gain
use tiny_robotic_voice.Common.{
  ℕ, zero, suc, ◌/◌, ◌≡◌, Bool, Option, List, ℤ, pos, negsuc, length, arith,
}

-- `int16_t` samples as integers.
pub record PcmAudio : Type 0 where
  pub sample_rate : ℤ
  pub channels : ℤ
  pub samples : List ℤ

abbrev pub frames_of : ℤ → ℕ → ℕ
frames_of (pos zero) n = 0
frames_of (pos (suc c)) n = n / suc c
frames_of (negsuc c) n = 0

unfoldable pub frame_count : PcmAudio → ℕ
frame_count a = frames_of a.channels (length a.samples)

pub frame_count_mono : (a : PcmAudio) → a.channels ≡ pos 1 → frame_count a ≡ length a.samples
unfolding frame_count
frame_count_mono a h = ground arith

-- One try of `enqueue`: refused for good, queued, or to be tried again after a sleep.
pub data Attempt (S : Type 0) : Type 0 where
  refused : Attempt S
  queued : S → Attempt S
  sleeping : Attempt S

-- `AudioSink`, over the sink's state. `enqueue` is a loop of two steps, between which the other threads
-- run: `accepts` is what it tests without the lock, and `push` what it does under it; `none` is to
-- sleep and test again.
pub record AudioSink (S : Type 0) : Type 0 where
  pub accepts : ℕ → PcmAudio → S → Bool
  pub push : ℕ → PcmAudio → S → Option S
  pub set_valid_generation : ℕ → S → S
  pub interrupt : S → S
  pub is_drained : ℕ → S → Bool
