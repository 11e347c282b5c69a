-- ===== src/Say/Playing.antt =====
-- `say` of src/main.cpp plays its text and exits, when the device goes on.
use tiny_robotic_voice.Common.{
  ℕ, ◌+◌, ◌*◌, ◌^◌, ◌≤◌, ◌<◌, ◌≡◌, refl, sym, ap, ◌∙◌, subst, Bool, true, false, none, some, Bytes,
  List, [], ◌∷◌, ◌++◌, ℤ, pos, length, length-drop, drop, is_empty, ok, if-elim, arith,
}
use tiny_robotic_voice.Audio.{PcmAudio, queued, frame_count, frame_count_mono}
use tiny_robotic_voice.Audio.Gain.{GainMath, apply_output_gain, apply_output_gain-AllSamples}
use tiny_robotic_voice.Double.{Double}
use tiny_robotic_voice.Voice.{VoiceSettings}
use tiny_robotic_voice.Output.{
  Output, Device, initialize, initial_output, set_valid_generation, enqueue, enqueue_round,
  enqueued, accepts_format, is_drained, stop, callback,
}
use tiny_robotic_voice.Output.Pending.{pending}
use tiny_robotic_voice.Output.Invariant.{IsValid, retargeted-IsValid, enqueue_round-IsValid}
use tiny_robotic_voice.Output.Opening.{initialize-IsValid}
use tiny_robotic_voice.Output.Full.{IsFull, callback-IsFull, enqueued-IsFull, pending-drained}
use tiny_robotic_voice.Output.Play.{callback-Plays}
use tiny_robotic_voice.Output.Frame.{callback-SameSetting}
use tiny_robotic_voice.Output.Blocking.{enqueue_round-room, enqueue-queued, pending-enqueued}
use tiny_robotic_voice.Engine.{Flite, Engine, make_flite_engine, synthesize}
use tiny_robotic_voice.Say.{
  Said, exited, drain, after_drain, play_out, play, say_speech, say_with_audio, say_with_engine,
  say,
}

-- The device asks for so many frames in each sleep.
abbrev pub device_calls : List ℕ → List (Output → Output)
device_calls [] = []
device_calls (n ∷ rest) = (λ o. (callback true n o).1) ∷ device_calls rest

abbrev pub frames_asked : List ℕ → ℕ
frames_asked [] = 0
frames_asked (n ∷ rest) = n + frames_asked rest

-- An output that plays the first generation.
record IsPlaying (o : Output) : Type 0 where
  valid : IsValid o
  full : IsFull o
  running : o.stopping ≡ false
  current : o.valid_generation ≡ 1

called-IsPlaying : (n : ℕ) (o : Output) → IsPlaying o → IsPlaying (callback true n o).1
called-IsPlaying n o p =
    let same = callback-SameSetting true n o in
    record {
      valid = (callback-Plays n o p.valid p.running).2;
      full = callback-IsFull true n o p.full;
      running = same.same_stopping ∙ p.running;
      current = same.same_generation ∙ p.current;
    }

called-pending :
    (n : ℕ) (o : Output) → IsPlaying o → pending 1 (callback true n o).1 ≡ drop n (pending 1 o)
called-pending n o p =
    subst (λ g. pending g (callback true n o).1 ≡ drop n (pending g o)) p.current
      (callback-Plays n o p.valid p.running).1

none_left : (xs : List ℤ) → length xs ≤ 0 → xs ≡ []
none_left [] h = refl
none_left (x ∷ xs) h = absurd (omega arith)

-- Once the device has asked for enough frames, the loop is over.
drain-ends :
    (calls : List ℕ) (o : Output)
    → IsPlaying o
    → length (pending 1 o) ≤ frames_asked calls
    → (drain (device_calls calls) o).0 ≡ true
unfolding drain
drain-ends [] o p h = pending-drained 1 o p.valid p.full (none_left (pending 1 o) h)
drain-ends (n ∷ rest) o p h =
    let o' = (callback true n o).1 in
    let fewer : length (pending 1 o') ≤ frames_asked rest =
      omega (arith, ap length (called-pending n o p), length-drop n (pending 1 o)) in
    if-elim {A = Bool × Output} (λ r. r.0 ≡ true) (is_drained 1 o) _ _ (λ _. refl)
      (λ _. drain-ends rest o' (called-IsPlaying n o p) fewer)

-- An output that was opened at a rate for the first generation, and has nothing in it.
record IsOpened (rate : ℕ) (o : Output) : Type 0 where
  playing : IsPlaying o
  empty : pending 1 o ≡ []
  no_frames : o.queued_frames ≡ 0
  maximum : o.maximum_frames ≡ rate * 20
  format :
      (audio : PcmAudio)
      → audio.channels ≡ pos 1
      → audio.sample_rate ≡ pos rate
      → accepts_format o audio ≡ true

initialize-IsOpened :
    (device : Device) (rate : ℕ)
    → 0 < rate
    → rate < 2 ^ 31
    → device.init rate ≡ (0, rate)
    → device.start ≡ 0
    → let (error, o) = initialize device (pos rate) initial_output in
      (error ≡ none) × IsOpened rate (set_valid_generation 1 o)
unfolding initialize initial_output set_valid_generation
initialize-IsOpened device rate h k init start =
    let v = initialize-IsValid device rate h k in
    let o = (initialize device (pos rate) initial_output).1 in
    (
      ground arith,
      record {
        playing = record {
          valid = retargeted-IsValid 1 o v.0;
          full = ground arith;
          running = ground arith;
          current = refl;
        };
        empty = ground arith;
        no_frames = ground arith;
        maximum = ground arith;
        format = λ audio channels same_rate. ground arith;
      },
    )

enqueued-IsPlaying :
    (audio : PcmAudio) (o : Output)
    → audio.channels ≡ pos 1
    → 0 < frame_count audio
    → o.queued_frames + frame_count audio ≤ o.maximum_frames
    → IsPlaying o
    → IsPlaying (enqueued 1 audio o)
enqueued-IsPlaying audio o mono some_frames room p = record {
  valid = enqueue_round-IsValid 1 audio o (enqueued 1 audio o) mono p.valid (
      subst (λ g. enqueue_round g audio o ≡ queued (enqueued g audio o)) p.current
        (enqueue_round-room audio o p.running room));
  full = enqueued-IsFull 1 audio o some_frames p.full;
  running = p.running;
  current = p.current;
}

-- `say` exits with 0 and no message.
abbrev pub Succeeds : Said → Type 0
Succeeds r = (o : Output) × (r ≡ exited [] 0 (some (stop o)))

after_drain-Succeeds : (r : Bool × Output) → r.0 ≡ true → Succeeds (after_drain r)
unfolding after_drain
after_drain-Succeeds (true, o) h = (o, refl)
after_drain-Succeeds (false, o) h = cc

play-Succeeds :
    (rate : ℕ) (sleeps : List (Output → Output)) (calls : List ℕ) (pcm : PcmAudio) (o : Output)
    → IsOpened rate o
    → pcm.channels ≡ pos 1
    → pcm.sample_rate ≡ pos rate
    → 0 < length pcm.samples
    → length pcm.samples ≤ rate * 20
    → length pcm.samples ≤ frames_asked calls
    → Succeeds (play sleeps (device_calls calls) pcm o)
unfolding play play_out
play-Succeeds rate sleeps calls pcm o op mono same_rate some_samples short enough =
    if-elim Succeeds (is_empty pcm.samples) _ _ (λ empty. ground (arith, empty))
      (λ _. rw at_once (
        after_drain-Succeeds _
          (drain-ends calls (enqueued 1 pcm o) sounding (omega (arith, ap length ahead)))))
  where
    frames : frame_count pcm ≡ length pcm.samples
    frames = frame_count_mono pcm mono

    room : o.queued_frames + frame_count pcm ≤ o.maximum_frames
    room = omega (arith, frames, op.no_frames, op.maximum, short)

    sounding : IsPlaying (enqueued 1 pcm o)
    sounding = enqueued-IsPlaying pcm o mono (omega (arith, frames)) room op.playing

    at_once : enqueue 1 pcm sleeps o ≡ (some true, enqueued 1 pcm o)
    at_once =
        subst (λ g. enqueue g pcm sleeps o ≡ (some true, enqueued g pcm o)) op.playing.current
          (enqueue-queued pcm sleeps o (op.format pcm mono same_rate) op.playing.running room)

    ahead : pending 1 (enqueued 1 pcm o) ≡ pcm.samples
    ahead =
        subst (λ g. pending g (enqueued g pcm o) ≡ pending g o ++ pcm.samples) op.playing.current
          (pending-enqueued pcm o)
        ∙ ap (λ x. x ++ pcm.samples) op.empty

module _ {D W F : Type 0} ⦃d : Double D⦄ (f : Flite W D F) (device : Device) (m : GainMath D)
    (sleeps : List (Output → Output)) (calls : List ℕ) (text : Bytes)
    (settings : VoiceSettings D) where
  -- With an engine and a device that open at the same rate, and speech of one channel at that rate
  -- that has samples and lasts at most 20 seconds, `say` of a text that is not empty exits with 0 and
  -- no message, once the device has asked for as many frames as there are samples.
  pub say-Succeeds :
      (rate : ℕ) (engine : Engine W) (pcm : PcmAudio)
      → 0 < rate
      → rate < 2 ^ 31
      → is_empty text ≡ false
      → (make_flite_engine f).result ≡ ok engine
      → engine.sample_rate ≡ pos rate
      → device.init rate ≡ (0, rate)
      → device.start ≡ 0
      → synthesize f engine text settings ≡ ok pcm
      → pcm.channels ≡ pos 1
      → pcm.sample_rate ≡ pos rate
      → 0 < length pcm.samples
      → length pcm.samples ≤ rate * 20
      → length pcm.samples ≤ frames_asked calls
      → Succeeds (say f device m sleeps (device_calls calls) text settings true)
  unfolding say say_with_engine say_with_audio say_speech
  say-Succeeds rate engine pcm h k worded built rated init start spoken mono same_rate some_samples
        short enough =
      let (no_error, opened) = initialize-IsOpened device rate h k init start in
      let g = apply_output_gain-AllSamples m pcm settings in
      rw (worded, built)
        (subst
          (λ z. Succeeds (
            say_with_audio f device m sleeps (device_calls calls) text settings engine
              (initialize device z initial_output)))
          (sym rated)
          (subst
            (λ error. Succeeds (
              say_with_audio f device m sleeps (device_calls calls) text settings engine
                (error, (initialize device (pos rate) initial_output).1)))
            (sym no_error)
            (rw spoken (
              play-Succeeds rate sleeps calls (apply_output_gain m pcm settings)
                (set_valid_generation 1 (initialize device (pos rate) initial_output).1) opened
                (g.1 ∙ mono) (g.0 ∙ same_rate) (omega (arith, g.2)) (omega (arith, g.2))
                (omega (arith, g.2))))))
