-- ===== src/Stream/Life.antt =====
-- The life of `stream` of src/main.cpp: what its runtime looks like at the end, whatever was read and
-- whatever the other threads did.
use tiny_robotic_voice.Common.{
  ℕ, ◌≡◌, ◌⊎◌, Bool, true, false, Option, none, some, Bytes, List, [], ◌∷◌, ◌++◌, lit, Result, ok,
  err,
}
use tiny_robotic_voice.Double.{Double}
use tiny_robotic_voice.Json.{Json}
use tiny_robotic_voice.Voice.{VoiceSettings}
use tiny_robotic_voice.Protocol.{Event, event}
use tiny_robotic_voice.Runtime.{Runtime, error_event}
use tiny_robotic_voice.Runtime.Serving.{first_event, IsServing}
use tiny_robotic_voice.Output
use tiny_robotic_voice.Output.{Output, Device, initialize, initial_output}
use tiny_robotic_voice.Engine.{Engine}
use tiny_robotic_voice.Stream.{
  end_of_input, signalled, broken, Streamed, refused_to_stream, served, serving, ready_event,
  internal_error, Round,
}
use tiny_robotic_voice.Stream.Causes.{first_end, input_of, HasLine}
use tiny_robotic_voice.Stream.Handled.{IsShutdown}

module _ {D : Type 0} where
  -- A runtime that was shut down: its first event, and what has stopped.
  pub record IsShutDown (ready : Event D) (r : Runtime D Output) : Type 0 where
    pub begins : first_event r.events ≡ some ready
    pub stopping : r.stopping ≡ true
    pub no_session : r.active ≡ false
    pub no_text : r.buffer ≡ []
    pub queue_stopped : r.jobs.stopped ≡ true
    pub device_off : r.audio.initialized ≡ false

  -- The event is among those that were emitted.
  abbrev pub Tells : Event D → Runtime D Output → Type 0
  Tells e r = (before after : List (Event D)) × (r.events ≡ before ++ e ∷ after)

  -- It is the last of them.
  abbrev pub LastIs : Event D → Runtime D Output → Type 0
  LastIs e r = (before : List (Event D)) × (r.events ≡ before ++ e ∷ [])

module _ {V D : Type 0} ⦃d : Double D⦄ (j : Json V D) where
  -- What a served stream comes to on these rounds, with its cause.
  abbrev pub IsServed :
      List ((Runtime D Output → Runtime D Output) × Round) → VoiceSettings D → Streamed D → Type 0
  IsServed rounds settings (refused_to_stream e code) = ⊥
  IsServed rounds settings (served r code) =
      IsShutDown (ready_event settings) r
      × (((code ≡ 0)
            × Tells (event (lit "shutting_down") []) r
            × ((first_end rounds ≡ some end_of_input)
                ⊎ ((first_end rounds ≡ some signalled) ⊎ HasLine (IsShutdown j) (input_of rounds))))
          ⊎ ((code ≡ 5)
              × LastIs (internal_error (lit "Unable to read the protocol stream.")) r
              × (first_end rounds ≡ some broken)))
  IsServed rounds settings (serving r) =
      IsServing (ready_event settings) r × (first_end rounds ≡ none)

  -- One error event and an exit code, with no runtime.
  abbrev pub Refuses : Bytes → Bytes → ℕ → Streamed D → Type 0
  Refuses code message exit streamed =
      streamed ≡ refused_to_stream (error_event code message false []) exit

  -- What `stream` comes to: the first thing that is missing refuses it, each with its own code.
  abbrev pub IsOpened :
      Bool
      → List ((Runtime D Output → Runtime D Output) × Round)
      → VoiceSettings D
      → Option Bytes
      → Streamed D
      → Type 0
  IsOpened piped rounds settings (some message) = Refuses (lit "audio_unavailable") message 4
  IsOpened true rounds settings none = IsServed rounds settings
  IsOpened false rounds settings none =
      Refuses (lit "internal_error") (lit "Unable to create the signal notification pipe.") 5

  abbrev pub IsBegun :
      {W : Type 0}
      → Device
      → Bool
      → List ((Runtime D Output → Runtime D Output) × Round)
      → VoiceSettings D
      → Result Bytes (Engine W)
      → Streamed D
      → Type 0
  IsBegun device piped rounds settings (err what) = Refuses (lit "internal_error") what 5
  IsBegun device piped rounds settings (ok engine) =
      IsOpened piped rounds settings (initialize device engine.sample_rate initial_output).0

  abbrev pub IsLife :
      {W : Type 0}
      → Device
      → Bool
      → Bool
      → List ((Runtime D Output → Runtime D Output) × Round)
      → VoiceSettings D
      → Result Bytes (Engine W)
      → Streamed D
      → Type 0
  IsLife device true piped rounds settings result = IsBegun device piped rounds settings result
  IsLife device false piped rounds settings result =
      Refuses (lit "unsupported_environment") (lit "macOS Apple Silicon is required.") 3
