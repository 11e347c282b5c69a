-- ===== src/Output.antt =====
-- include/trv/miniaudio_output.h and src/miniaudio_output.cpp: the queue of synthesised audio
-- between the synthesis thread and the real-time callback of the playback device.
-- The methods run under the mutex (or on one atomic), so each is one step on the state, but for
-- `enqueue`: its loop tests without the lock, and pushes under it.
pub mod Pending
pub mod Invariant
pub mod Ready
pub mod Play
pub mod Calls
pub mod Blocking
pub mod Opening
pub mod Frame
pub mod Newest
pub mod Trace
pub mod Full
use tiny_robotic_voice.Common.{
  ℕ, zero, suc, ◌+◌, ◌-◌, ◌*◌, ◌%◌, ◌^◌, min, Bool, true, false, not, ◌&&◌, ◌||◌, List, [], ◌∷◌,
  ◌++◌, ℤ, pos, negsuc, eqb_ℤ, leb_ℤ, pos_part, Option, none, some, Bytes, lit, length, take, drop,
  replicate, ltb, leb, ◌==◌, if◌then◌else◌, add_size, sub_size,
}
use tiny_robotic_voice.Audio.{PcmAudio, frame_count, Attempt, refused, queued, sleeping, AudioSink}

pub record QueuedAudio : Type 0 where
  pub generation : ℕ
  pub audio : PcmAudio

-- `device_rate` is `device.sampleRate`.
pub record Output : Type 0 where
  pub device_rate : ℕ
  pub queue : List QueuedAudio
  pub current : QueuedAudio
  pub has_current : Bool
  pub current_frame : ℕ
  pub queued_frames : ℕ
  pub maximum_frames : ℕ
  pub valid_generation : ℕ
  pub stopping : Bool
  pub initialized : Bool

abbrev pub no_audio : QueuedAudio
no_audio = record {
  generation = 0;
  audio = record { sample_rate = pos 0; channels = pos 1; samples = [] };
}

abbrev pub maximum_queued_seconds : ℕ
maximum_queued_seconds = 20

-- `queued_frames -= std::min(queued_frames, n)`.
abbrev pub take_frames : ℕ → ℕ → ℕ
take_frames total n = total - min total n

abbrev pub remaining : Output → ℕ
remaining o = sub_size (frame_count o.current.audio) o.current_frame

-- The first `if` of the callback's loop.
pub discard_current : ℕ → Output → Output
discard_current valid o =
    if o.has_current && not (o.current.generation == valid)
    then record o {
      queued_frames = take_frames o.queued_frames (remaining o);
      has_current = false;
      current_frame = 0;
    }
    else o

-- The inner loop, which is entered with no current item.
pub pop_valid : ℕ → List QueuedAudio → Output → Output
pop_valid valid [] o = record o { queue = [] }
pop_valid valid (item ∷ rest) o =
    let found = record o { queue = rest; current = item; current_frame = 0; has_current = true } in
    let next = pop_valid valid rest (record o {
      queue = rest;
      current = item;
      current_frame = 0;
      has_current = false;
      queued_frames = take_frames o.queued_frames (frame_count item.audio);
    }) in
    if item.generation == valid then found else next

pub next_current : ℕ → Output → Output
next_current valid o = if o.has_current then o else pop_valid valid o.queue o

-- `memcpy` from the current item, and the bookkeeping behind it, for `count` frames.
pub copied : ℕ → Output → List ℤ
copied count o = take count (drop o.current_frame o.current.audio.samples)

pub advance : ℕ → Output → Output
advance count o =
    let at = o.current_frame + count in
    let left = take_frames o.queued_frames count in
    if at == frame_count o.current.audio
    then record o { current_frame = 0; queued_frames = left; has_current = false }
    else record o { current_frame = at; queued_frames = left }

-- The callback's loop. The list holds the frames written so far; the rest of the destination is
-- still the zeros of `memset`. Each round but the last uses an item up.
pub fill : ℕ → ℕ → ℕ → List ℤ → Output → List ℤ × Output
fill zero valid n out o = (out, o)
fill (suc fuel) valid n out o =
    let ready = next_current valid (discard_current valid o) in
    let count = min (remaining ready) (n - length out) in
    let rest = fill fuel valid n (out ++ copied count ready) (advance count ready) in
    if ltb (length out) n then (if ready.has_current then rest else (out, ready)) else (out, o)

-- The destination after the loop.
abbrev pub padded : ℕ → List ℤ × Output → List ℤ × Output
padded n (out, o) = (out ++ replicate (n - length out) (pos 0), o)

-- `locked` says whether `try_to_lock` got the mutex.
pub callback : Bool → ℕ → Output → List ℤ × Output
callback locked n o =
    if not locked || o.stopping
    then (replicate n (pos 0), o)
    else padded n (fill (suc (suc (length o.queue))) o.valid_generation n [] o)

abbrev pub accepts_format : Output → PcmAudio → Bool
accepts_format o audio =
    o.initialized && eqb_ℤ audio.channels (pos 1) && eqb_ℤ audio.sample_rate (pos o.device_rate)

abbrev pub enqueued : ℕ → PcmAudio → Output → Output
enqueued generation audio o = record o {
  queued_frames = add_size o.queued_frames (frame_count audio);
  queue = o.queue ++ record { generation = generation; audio = audio } ∷ [];
}

-- The condition of the loop in `enqueue`, which takes no lock.
abbrev pub is_wanted : ℕ → Output → Bool
is_wanted generation o = not o.stopping && generation == o.valid_generation

-- The test under the lock.
abbrev pub has_room : PcmAudio → Output → Bool
has_room audio o = leb (frame_count audio) (o.maximum_frames - min o.maximum_frames o.queued_frames)

-- One round of that loop with nothing between the condition and the lock, as when only the device
-- runs beside the caller: its callback changes neither of the things that the condition reads.
-- `output_sink` takes the two apart.
unfoldable pub enqueue_round : ℕ → PcmAudio → Output → Attempt Output
enqueue_round generation audio o =
    if is_wanted generation o
    then if has_room audio o then queued (enqueued generation audio o) else sleeping
    else refused

-- What a round means for the call, given what the call does after a sleep.
abbrev pub settle : Attempt Output → Output → Option Bool × Output → Option Bool × Output
settle refused o rest = (some false, o)
settle (queued o') o rest = (some true, o')
settle sleeping o rest = rest

-- `enqueue`: the list says what the other threads do to the state while the caller sleeps, one
-- entry for each sleep. `none` is a call that still sleeps at the end of the list.
pub enqueue_loop : ℕ → PcmAudio → List (Output → Output) → Output → Option Bool × Output
enqueue_loop generation audio [] o = settle (enqueue_round generation audio o) o (none, o)
enqueue_loop generation audio (others ∷ rest) o =
    settle (enqueue_round generation audio o) o (enqueue_loop generation audio rest (others o))

pub enqueue : ℕ → PcmAudio → List (Output → Output) → Output → Option Bool × Output
enqueue generation audio sleeps o =
    if accepts_format o audio then enqueue_loop generation audio sleeps o else (some false, o)

unfoldable pub set_valid_generation : ℕ → Output → Output
set_valid_generation generation o = record o { valid_generation = generation }

unfoldable pub interrupt : Output → Output
interrupt o = record o {
  queue = [];
  current = no_audio;
  has_current = false;
  current_frame = 0;
  queued_frames = 0;
}

unfoldable pub none_of_generation : ℕ → List QueuedAudio → Bool
none_of_generation generation [] = true
none_of_generation generation (item ∷ rest) =
    not (item.generation == generation) && none_of_generation generation rest

unfoldable pub is_drained : ℕ → Output → Bool
is_drained generation o =
    if o.has_current && o.current.generation == generation
    then false
    else none_of_generation generation o.queue

-- What `initialize` calls of miniaudio: the result codes, of which 0 is MA_SUCCESS, the rate of the
-- opened device, and the text for a code.
pub record Device : Type 0 where
  pub init : ℕ → ℕ × ℕ
  pub start : ℕ
  pub result_description : ℕ → Bytes

-- A conversion to `size_t` of an `int`.
abbrev to_size : ℤ → ℕ
to_size (pos n) = n
to_size (negsuc n) = 2 ^ 64 - suc n

unfoldable pub initialize : Device → ℤ → Output → Option Bytes × Output
initialize device sample_rate o =
    if leb_ℤ sample_rate (pos 0)
    then (some (lit "Invalid speech sample rate."), o)
    else opened (device.init (pos_part sample_rate))
  where
    opened : ℕ × ℕ → Option Bytes × Output
    opened (result, rate) =
        if not (result == 0)
        then (
          some (
              lit "Unable to open the default playback device: "
              ++ device.result_description result),
          record o { device_rate = rate },
        )
        else if not (device.start == 0)
        then (
          some (
              lit "Unable to start the default playback device: "
              ++ device.result_description device.start),
          record o {
            device_rate = rate;
            maximum_frames = (to_size sample_rate * maximum_queued_seconds) % 2 ^ 64;
          },
        )
        else (
          none,
          record o {
            device_rate = rate;
            maximum_frames = (to_size sample_rate * maximum_queued_seconds) % 2 ^ 64;
            initialized = true;
          },
        )

unfoldable pub stop : Output → Output
stop o = if not o.initialized then o else record o { stopping = true; initialized = false }

-- The members' initial values.
unfoldable pub initial_output : Output
initial_output = record {
  device_rate = 0;
  queue = [];
  current = no_audio;
  has_current = false;
  current_frame = 0;
  queued_frames = 0;
  maximum_frames = 0;
  valid_generation = 0;
  stopping = false;
  initialized = false;
}

-- `MiniaudioOutput` as the sink of the runtime. The format is tested once, before the loop; to test it
-- again is the same, since only `stop` changes what it reads, and sets `stopping` too.
abbrev pub output_sink : AudioSink Output
output_sink = record {
  accepts = λ generation audio o. accepts_format o audio && is_wanted generation o;
  push =
      λ generation audio o. if has_room audio o then some (enqueued generation audio o) else none;
  set_valid_generation = set_valid_generation;
  interrupt = interrupt;
  is_drained = is_drained;
}
