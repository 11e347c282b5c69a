-- ===== src/Cli.antt =====
-- The command line and the configuration file: `parse_voice_cli`, `load_voice_settings` and `main`
-- of src/main.cpp.
pub mod Options
use tiny_robotic_voice.Common.{
  ℕ, ◌+◌, Bool, true, false, not, ◌&&◌, ◌||◌, Option, none, some, Bytes, List, [], ◌∷◌, ◌++◌, lit,
  eqb, length, is_empty, leb, ltb, ◌==◌, Result, ok, err, if◌then◌else◌,
}
use tiny_robotic_voice.Double.{Double}
use tiny_robotic_voice.Json.{Json}
use tiny_robotic_voice.Voice.{
  VoiceSettings, VoiceSettingsPatch, no_patch, default_settings, apply_voice_settings_patch,
}
use tiny_robotic_voice.Voice.Parse.{parse_voice_settings_json, maximum_voice_config_bytes}

pub record VoiceCliOptions (D : Type 0) : Type 0 where
  pub patch : VoiceSettingsPatch D
  pub config_path : Option Bytes
  pub no_config : Bool
  pub positional : List Bytes
  pub error : Bytes

abbrev pub no_options : (D : Type 0) → VoiceCliOptions D
no_options D = record {
  patch = no_patch D;
  config_path = none;
  no_config = false;
  positional = [];
  error = [];
}

-- `std::strtod`: the value, how many bytes it used, and `errno`.
pub record Strtod (D : Type 0) : Type 0 where
  pub value : Bytes → D
  pub used : Bytes → ℕ
  pub errno : Bytes → ℕ

abbrev pub starts_with_dash : Bytes → Bool
starts_with_dash [] = false
starts_with_dash (c ∷ rest) = c == b'-'

pub is_number_option : Bytes → Bool
is_number_option a =
    eqb a (lit "--speed")
    || eqb a (lit "--pitch-semitones")
    || eqb a (lit "--expression")
    || eqb a (lit "--gain-db")

pub takes_value : Bytes → Bool
takes_value a =
    eqb a (lit "--config") || eqb a (lit "--model") || eqb a (lit "--preset") || is_number_option a

module _ {D : Type 0} ⦃d : Double D⦄ (strtod : Strtod D) where
  pub parse_number : Bytes → Option D
  parse_number text =
      if is_empty text
      then none
      else if strtod.errno text == 0
          && strtod.used text == length text
          && d.is_finite (strtod.value text)
      then some (strtod.value text)
      else none

  abbrev pub set_number : Bytes → D → VoiceSettingsPatch D → VoiceSettingsPatch D
  set_number a number p =
      if eqb a (lit "--speed")
      then record p { speed = some number }
      else if eqb a (lit "--pitch-semitones")
      then record p { pitch_semitones = some number }
      else if eqb a (lit "--expression")
      then record p { expression = some number }
      else record p { gain_db = some number }

  -- An option with its value: the new options, or the `break` with its error.
  pub set_option : Bytes → Bytes → VoiceCliOptions D → Result Bytes (VoiceCliOptions D)
  set_option a value o =
      if eqb a (lit "--config")
      then ok (record o { config_path = some value })
      else if eqb a (lit "--model")
      then ok (record o { patch = record o.patch { model = some value } })
      else if eqb a (lit "--preset")
      then ok (record o { patch = record o.patch { preset = some value } })
      else elim (parse_number value) [
        | none ↦ err (lit "Option '" ++ a ++ lit "' requires a finite number.")
        | some number ↦ ok (record o { patch = set_number a number o.patch })
      ]

  abbrev pub add_positional : Bytes → VoiceCliOptions D → VoiceCliOptions D
  add_positional a o = record o { positional = o.positional ++ a ∷ [] }

  abbrev pub failed_option : Bytes → VoiceCliOptions D → VoiceCliOptions D
  failed_option message o = record o { error = message }

  abbrev pub is_positional : Bool → Bytes → Bool
  is_positional positional_only a = positional_only || is_empty a || not (starts_with_dash a)

  -- The loop over the arguments.
  pub parse_arguments : Bool → List Bytes → VoiceCliOptions D → VoiceCliOptions D
  parse_arguments positional_only [] o = o
  parse_arguments positional_only (a ∷ []) o =
      if is_positional positional_only a
      then add_positional a o
      else if eqb a (lit "--")
      then o
      else if eqb a (lit "--no-config")
      then record o { no_config = true }
      else if takes_value a
      then failed_option (lit "Option '" ++ a ++ lit "' requires a value.") o
      else failed_option (lit "Unknown option: " ++ a) o
  parse_arguments positional_only (a ∷ value ∷ rest) o =
      let added = parse_arguments positional_only (value ∷ rest) (add_positional a o) in
      let separated = parse_arguments true (value ∷ rest) o in
      let without =
        parse_arguments positional_only (value ∷ rest) (record o { no_config = true }) in
      let continued : VoiceCliOptions D → VoiceCliOptions D =
        λ o'. parse_arguments positional_only rest o' in
      if is_positional positional_only a
      then added
      else if eqb a (lit "--")
      then separated
      else if eqb a (lit "--no-config")
      then without
      else if takes_value a
      then elim (set_option a value o) [
        | ok o' ↦ continued o'
        | err message ↦ failed_option message o
      ]
      else failed_option (lit "Unknown option: " ++ a) o

  abbrev is_given : Option Bytes → Bool
  is_given none = false
  is_given (some path) = true

  -- The arguments behind the command.
  pub parse_voice_cli : List Bytes → VoiceCliOptions D
  parse_voice_cli arguments =
      let o = parse_arguments false arguments (no_options D) in
      if o.no_config && is_given o.config_path
      then record o { error = lit "--config and --no-config cannot be used together." }
      else o

-- What `load_voice_settings` asks of the file system: whether a path exists (or the error's text),
-- the size of a file, and its contents once it is opened.
pub record Files : Type 0 where
  pub exists : Bytes → Result Bytes Bool
  pub file_size : Bytes → Option ℕ
  pub contents : Bytes → Option Bytes

module _ {V D : Type 0} ⦃d : Double D⦄ (j : Json V D) (files : Files) where
  -- The path to read, if any.
  pub config_file : VoiceCliOptions D → Result Bytes (Option Bytes)
  config_file o = elim o.config_path [
    | some path ↦ ok (some path)
    | none ↦ if o.no_config then ok none else elim (files.exists (lit ".trv.json")) [
      | err message ↦ err (lit "Could not inspect .trv.json: " ++ message)
      | ok true ↦ ok (some (lit ".trv.json"))
      | ok false ↦ ok none
    ]
  ]

  abbrev pub unreadable : Bytes → Bytes
  unreadable path = lit "Could not read voice configuration '" ++ path ++ lit "'."

  -- The settings or the error.
  abbrev pub applied : VoiceSettings D × Option Bytes → Result Bytes (VoiceSettings D)
  applied (s, none) = ok s
  applied (s, some message) = err message

  pub read_patch :
      Bytes → VoiceSettings D → Result Bytes (VoiceSettingsPatch D) → Result Bytes (VoiceSettings D)
  read_patch path s (err message) = err (path ++ lit ": " ++ message)
  read_patch path s (ok patch) = applied (apply_voice_settings_patch s patch)

  pub read_contents : Bytes → VoiceSettings D → Option Bytes → Result Bytes (VoiceSettings D)
  read_contents path s none = err (unreadable path)
  read_contents path s (some json) = read_patch path s (parse_voice_settings_json j json)

  pub read_sized : Bytes → VoiceSettings D → Option ℕ → Result Bytes (VoiceSettings D)
  read_sized path s none = err (unreadable path)
  read_sized path s (some size) =
      if ltb maximum_voice_config_bytes size
      then err (lit "Voice configuration exceeds the 64 KiB limit.")
      else read_contents path s (files.contents path)

  -- The block for a path.
  pub configured : Result Bytes (Option Bytes) → VoiceSettings D → Result Bytes (VoiceSettings D)
  configured (err message) s = err message
  configured (ok none) s = ok s
  configured (ok (some path)) s = read_sized path s (files.file_size path)

  -- The options of the command line come last.
  pub with_options :
      VoiceCliOptions D → Result Bytes (VoiceSettings D) → Result Bytes (VoiceSettings D)
  with_options o (err message) = err message
  with_options o (ok s) = applied (apply_voice_settings_patch s o.patch)

  pub load_voice_settings : VoiceCliOptions D → VoiceSettings D → Result Bytes (VoiceSettings D)
  load_voice_settings o s = with_options o (configured (config_file o) s)

-- What `main` runs: a usage message, `doctor`, or the two commands on loaded settings.
pub data Action (D : Type 0) : Type 0 where
  usage : Action D
  doctor : Bool → Action D
  bad_configuration : Bytes → Action D
  say : Bytes → VoiceSettings D → Action D
  stream : VoiceSettings D → Action D

module _ {V D : Type 0} ⦃d : Double D⦄ (j : Json V D) (files : Files) (strtod : Strtod D) where
  abbrev pub with_settings :
      (VoiceSettings D → Action D) → Result Bytes (VoiceSettings D) → Action D
  with_settings run (ok s) = run s
  with_settings run (err message) = bad_configuration message

  -- The one positional argument of `say`.
  pub run_say : VoiceCliOptions D → List Bytes → Action D
  run_say o [] = usage
  run_say o (text ∷ []) =
      if not (is_empty o.error)
      then usage
      else with_settings (say text) (load_voice_settings j files o default_settings)
  run_say o (text ∷ other ∷ rest) = usage

  pub run_stream : VoiceCliOptions D → Action D
  run_stream o =
      if not (is_empty o.error) || not (is_empty o.positional)
      then usage
      else with_settings stream (load_voice_settings j files o default_settings)

  abbrev pub run_doctor : List Bytes → Action D
  run_doctor [] = doctor false
  run_doctor (flag ∷ []) = if eqb flag (lit "--json") then doctor true else usage
  run_doctor (flag ∷ other ∷ rest) = usage

  -- `main` without the program's name.
  pub main_action : List Bytes → Action D
  main_action [] = usage
  main_action (command ∷ arguments) =
      let o = parse_voice_cli strtod arguments in
      if eqb command (lit "doctor")
      then run_doctor arguments
      else if eqb command (lit "say")
      then run_say o o.positional
      else if eqb command (lit "stream")
      then run_stream o
      else usage
