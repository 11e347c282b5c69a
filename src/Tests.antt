-- ===== src/Tests.antt =====
-- Concrete data for the tests: settings over whole hundredths, a small JSON library, an open audio
-- output, and a runtime in front of it.
mod Sound
mod Sessions
mod Input
mod Threads
mod Life
mod Commands
mod Settings
mod Handed
use tiny_robotic_voice.Common.{
  ◌≡◌, ◌≤◌, ◌<◌, ◌+◌, ◌-◌, inl, inr, refl, arith, ℕ, Bool, true, false, Option, none, some, Bytes,
  List, [], ◌∷◌, lit, eqb, ℤ, pos, Result, ok, err, if◌then◌else◌,
}
use tiny_robotic_voice.Double.{Hundredths}
use tiny_robotic_voice.Json.{Json}
use tiny_robotic_voice.Audio.{PcmAudio, frame_count}
use tiny_robotic_voice.Output.Invariant.{IsValid}
use tiny_robotic_voice.Audio.Gain.{GainMath}
use tiny_robotic_voice.Output.{Output, no_audio}
use tiny_robotic_voice.Voice.{VoiceSettings}

abbrev pub tone : PcmAudio
tone = record { sample_rate = pos 16000; channels = pos 1; samples = pos 7 ∷ pos 8 ∷ [] }

-- A device at 16 kHz with a tone that is half played, one that is stale, and a whole one.
abbrev pub open_output : Output
open_output = record {
  device_rate = 16000;
  queue = record { generation = 1; audio = tone } ∷ record { generation = 2; audio = tone } ∷ [];
  current = record { generation = 2; audio = tone };
  has_current = true;
  current_frame = 1;
  queued_frames = 5;
  maximum_frames = 320000;
  valid_generation = 2;
  stopping = false;
  initialized = true;
}

pub open_output-IsValid : IsValid open_output
unfolding frame_count
open_output-IsValid = ground arith

-- The same device with nothing to play.
abbrev pub quiet_output : Output
quiet_output = record open_output {
  queue = [];
  current = no_audio;
  has_current = false;
  current_frame = 0;
  queued_frames = 0;
}

abbrev pub loud : GainMath Hundredths
loud = record { power = λ gain. gain; llround_product = λ sample gain. sample }

-- An engine that says one sample for each text.
abbrev pub beep : Bytes → VoiceSettings Hundredths → Result Bytes PcmAudio
beep text s = ok tone

-- An object whose keys are known, or a string.
pub data Node : Type 0 where
  object : List Bytes → (Bytes → Option Bytes) → Node
  word : Bytes → Node

abbrev find : Node → Bytes → Option Bytes
find (object keys values) key = values key
find (word text) key = none

abbrev as_word : Option Bytes → Option Node
as_word none = none
as_word (some text) = some (word text)

abbrev pub is_object : Node → Bool
is_object (object keys values) = true
is_object (word text) = false

abbrev keys_of : Node → List Bytes
keys_of (object keys values) = keys
keys_of (word text) = []

abbrev text_of : Node → Bytes
text_of (object keys values) = []
text_of (word text) = text

abbrev is_word : Node → Bool
is_word (object keys values) = false
is_word (word text) = true

-- A library that reads one document, whatever the input.
abbrev pub json_of : Node → Json Node Hundredths
json_of root = record {
  read = λ text. some root;
  write = λ value. none;
  is_obj = is_object;
  obj_get = λ value key. as_word (find value key);
  obj_keys = keys_of;
  is_str = is_word;
  get_str = text_of;
  is_num = λ value. false;
  get_num = λ value. none;
  is_sint = λ value. false;
  get_sint = λ value. pos 0;
  is_uint = λ value. false;
  get_uint = λ value. 0;
}
