-- ===== src/Doctor.antt =====
-- `doctor`, `print_usage` and the end of `main` of src/main.cpp.
pub mod Exits
use tiny_robotic_voice.Common.{
  Bool, true, false, Option, none, some, Bytes, List, [], ◌∷◌, ◌++◌, lit, Result, ok, err,
  if◌then◌else◌, ℕ,
}
use tiny_robotic_voice.Double.{Double}
use tiny_robotic_voice.Json.{Json}
use tiny_robotic_voice.Audio.Gain.{GainMath}
use tiny_robotic_voice.Voice.{VoiceSettings}
use tiny_robotic_voice.Protocol.{Event, event, Member, json_event}
use tiny_robotic_voice.Output.{Output, Device, initialize, initial_output}
use tiny_robotic_voice.Engine.{Flite, Engine, make_flite_engine}
use tiny_robotic_voice.Runtime.{Runtime}
use tiny_robotic_voice.Stream.{
  Round, Streamed, refused_to_stream, served, serving, stream, exit_usage, exit_unsupported,
  exit_audio_unavailable, exit_internal, exit_configuration,
}
use tiny_robotic_voice.Say.{Said, exited, saying, complaint, say}
use tiny_robotic_voice.Cli
use tiny_robotic_voice.Cli.{Action}

-- What a command wrote to the standard output, and its exit code.
abbrev pub Report : Type 0
Report = Bytes × ℕ

module _ {D : Type 0} (encode : List (Member D) → Option Bytes) where
  -- The line of `json_event("doctor", {}, code, message, false)`.
  abbrev pub doctor_event : Bytes → Bytes → Bytes
  doctor_event code message =
      json_event encode (record (event (lit "doctor") []) { code = code; message = message })
      ++ lit "\n"

  abbrev pub report_unsupported : Bool → Report
  report_unsupported structured = (
    if structured
        then lit "{\"status\":\"unsupported_environment\",\"supported\":false}\n"
        else lit "Tiny Robotic Voice\nStatus: unsupported\n"
          ++ lit "Reason: macOS Apple Silicon is required\n",
    exit_unsupported,
  )

  abbrev pub engine_lines : Bytes
  engine_lines =
      lit "Tiny Robotic Voice\nPlatform: macOS arm64\n"
      ++ lit "Speech engine: Flite\nDefault model: kal16 (cmu_us_kal16)\n"

  abbrev pub report_audio_unavailable : Bool → Bytes → Report
  report_audio_unavailable structured error = (
    if structured
        then doctor_event (lit "audio_unavailable") error
        else engine_lines
          ++ lit "Available models: kal16 (diphone), rms (ClusterGen)\n"
          ++ lit "Status: unsupported\nReason: "
          ++ error
          ++ lit "\n",
    exit_audio_unavailable,
  )

  abbrev pub report_ready : Bool → Report
  report_ready structured = (
    if structured
        then lit "{\"type\":\"doctor\",\"status\":\"supported\",\"supported\":true,"
          ++ lit "\"platform\":\"macOS arm64\",\"speech_engine\":\"Flite\","
          ++ lit "\"default_model\":\"kal16\",\"available_models\":[\"kal16\",\"rms\"],"
          ++ lit "\"audio_backend\":\"Core Audio\",\"output_device\":\"available\"}\n"
        else engine_lines
          ++ lit "Available models: kal16 (diphone), rms (ClusterGen)\n"
          ++ lit "Audio backend: Core Audio\nOutput device: available\nStatus: ready\n",
    0,
  )

  abbrev pub report_internal_error : Bool → Bytes → Report
  report_internal_error structured what = (
    if structured
        then doctor_event (lit "internal_error") what
        else lit "Tiny Robotic Voice\nStatus: internal error\nReason: " ++ what ++ lit "\n",
    exit_internal,
  )

  abbrev pub doctor_with_audio : Bool → Option Bytes × Output → Report
  doctor_with_audio structured (some error, o) = report_audio_unavailable structured error
  doctor_with_audio structured (none, o) = report_ready structured

  module _ {W F : Type 0} (f : Flite W D F) (device : Device) where
    abbrev pub doctor_with_engine : Bool → Result Bytes (Engine W) → Report
    doctor_with_engine structured (err what) = report_internal_error structured what
    doctor_with_engine structured (ok engine) =
        doctor_with_audio structured (initialize device engine.sample_rate initial_output)

    -- `doctor`; the output that it opened is stopped on every way out.
    unfoldable pub doctor : Bool → Bool → Report
    doctor supported structured =
        let result = doctor_with_engine structured (make_flite_engine f).result in
        if supported then result else report_unsupported structured

-- `print_usage`.
abbrev pub usage_text : Bytes
usage_text =
    lit "Usage:\n"
    ++ lit "  trv doctor [--json]\n"
    ++ lit "  trv say [voice options] <text>\n"
    ++ lit "  trv stream [voice options]\n\n"
    ++ lit "Voice options:\n"
    ++ lit "  --model kal16|rms\n"
    ++ lit "  --preset default|tiny|deep|flat\n"
    ++ lit "  --speed 0.6..1.8\n"
    ++ lit "  --pitch-semitones -12..12\n"
    ++ lit "  --expression 0..2\n"
    ++ lit "  --gain-db -24..6\n"
    ++ lit "  --config <path> | --no-config\n"

-- The exit code of a command; there is none while it still runs.
abbrev pub said_code : Said → Option ℕ
said_code (exited message code audio) = some code
said_code (saying o) = none

abbrev pub streamed_code : {D : Type 0} → Streamed D → Option ℕ
streamed_code (refused_to_stream e code) = some code
streamed_code (served r code) = some code
streamed_code (serving r) = none

module _ {V D W F : Type 0} ⦃d : Double D⦄ (j : Json V D) (encode : List (Member D) → Option Bytes)
    (clock : Runtime D Output → ℕ) (others : ℕ → Runtime D Output → Runtime D Output)
    (f : Flite W D F) (device : Device) (m : GainMath D) (supported piped : Bool)
    (sleeps naps : List (Output → Output))
    (rounds : List ((Runtime D Output → Runtime D Output) × Round)) (now : ℕ) where
  -- What `main` returns once it has chosen an action.
  unfoldable pub run_action : Action D → Option ℕ
  run_action Cli.usage = some exit_usage
  run_action (Cli.doctor structured) = some (doctor encode f device supported structured).1
  run_action (Cli.bad_configuration message) = some exit_configuration
  run_action (Cli.say text settings) =
      said_code (say f device m sleeps naps text settings supported)
  run_action (Cli.stream settings) =
      streamed_code (stream j clock others f device supported piped rounds settings now)
