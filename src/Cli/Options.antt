-- ===== src/Cli/Options.antt =====
-- What the command line and the configuration lead to.
use tiny_robotic_voice.Common.{
  ℕ, ◌≡◌, refl, true, not, ◌||◌, Option, none, some, Bytes, List, [], ◌∷◌, ◌++◌, lit, eqb, is_empty,
  ltb, Result, ok, err, if-elim, arith, append_assoc, append-nil,
}
use tiny_robotic_voice.Double.{Double, HasLiterals}
use tiny_robotic_voice.Json.{Json}
use tiny_robotic_voice.Voice.{
  VoiceSettings, VoiceSettingsPatch, default_settings, apply_voice_settings_patch,
}
use tiny_robotic_voice.Voice.Range.{
  IsUsable, default_settings-IsUsable, apply_voice_settings_patch-IsUsable,
}
use tiny_robotic_voice.Cli.{
  VoiceCliOptions, Strtod, Files, parse_arguments, parse_voice_cli, config_file, read_patch,
  read_contents, read_sized, configured, with_options, run_doctor, applied, load_voice_settings,
  Action, usage, doctor, bad_configuration, say, stream, run_say, run_stream, main_action,
  with_settings,
}

module _ {D : Type 0} ⦃d : Double D⦄ (strtod : Strtod D) where
  -- Behind `--` every argument is positional, whatever it looks like, and nothing else changes.
  pub parse_arguments-positional :
      (arguments : List Bytes) (o : VoiceCliOptions D)
      → parse_arguments strtod true arguments o
        ≡ record o { positional = o.positional ++ arguments }
  unfolding parse_arguments
  parse_arguments-positional [] o = ground (arith, append-nil o.positional)
  parse_arguments-positional (a ∷ []) o = refl
  parse_arguments-positional (a ∷ b ∷ rest) o = ground (
    arith,
    parse_arguments-positional (b ∷ rest) (record o { positional = o.positional ++ a ∷ [] }),
    append_assoc o.positional (a ∷ []) (b ∷ rest),
  )

module _ {V D : Type 0} ⦃d : Double D⦄ (j : Json V D) (files : Files) (l : HasLiterals D) where
  -- What holds of the settings that a step gives.
  abbrev OkUsable : Result Bytes (VoiceSettings D) → Type 0
  OkUsable (ok s) = IsUsable s
  OkUsable (err message) = Unit {0}

  applied-OkUsable :
      (r : VoiceSettings D × Option Bytes)
      → (r.1 ≡ none → IsUsable r.0)
      → OkUsable (applied j files r)
  applied-OkUsable (s, none) h = h refl
  applied-OkUsable (s, some message) h = tt

  apply-OkUsable :
      (s : VoiceSettings D) (p : VoiceSettingsPatch D)
      → IsUsable s
      → OkUsable (applied j files (apply_voice_settings_patch s p))
  apply-OkUsable s p u = applied-OkUsable _ (apply_voice_settings_patch-IsUsable l s p u)

  read_patch-OkUsable :
      (path : Bytes) (s : VoiceSettings D) (r : Result Bytes (VoiceSettingsPatch D))
      → IsUsable s
      → OkUsable (read_patch j files path s r)
  unfolding read_patch
  read_patch-OkUsable path s (err message) u = tt
  read_patch-OkUsable path s (ok patch) u = apply-OkUsable s patch u

  read_sized-OkUsable :
      (path : Bytes) (s : VoiceSettings D) (size : Option ℕ)
      → IsUsable s
      → OkUsable (read_sized j files path s size)
  unfolding read_sized
  read_sized-OkUsable path s none u = tt
  read_sized-OkUsable path s (some size) u =
      if-elim OkUsable (ltb 65536 size) _ _ (λ _. tt) (λ _. contents (files.contents path))
    where
      contents : (o : Option Bytes) → OkUsable (read_contents j files path s o)
      contents none = unfold read_contents in tt
      contents (some json) = unfold read_contents in read_patch-OkUsable path s _ u

  configured-OkUsable :
      (path : Result Bytes (Option Bytes)) (s : VoiceSettings D)
      → IsUsable s
      → OkUsable (configured j files path s)
  unfolding configured
  configured-OkUsable (err message) s u = tt
  configured-OkUsable (ok none) s u = u
  configured-OkUsable (ok (some path)) s u = read_sized-OkUsable path s (files.file_size path) u

  with_options-OkUsable :
      (o : VoiceCliOptions D) (r : Result Bytes (VoiceSettings D))
      → OkUsable r
      → OkUsable (with_options j files o r)
  unfolding with_options
  with_options-OkUsable o (err message) u = tt
  with_options-OkUsable o (ok s) u = apply-OkUsable s o.patch u

  load_voice_settings-OkUsable :
      (o : VoiceCliOptions D) → OkUsable (load_voice_settings j files o default_settings)
  unfolding load_voice_settings
  load_voice_settings-OkUsable o =
      with_options-OkUsable o _
        (configured-OkUsable (config_file j files o) default_settings (default_settings-IsUsable l))

  -- The settings of an action, where it has any, are usable.
  abbrev pub ActsUsable : Action D → Type 0
  ActsUsable usage = Unit {0}
  ActsUsable (doctor structured) = Unit {0}
  ActsUsable (bad_configuration message) = Unit {0}
  ActsUsable (say text s) = IsUsable s
  ActsUsable (stream s) = IsUsable s

  module _ (strtod : Strtod D) where
    say-ActsUsable :
        (text : Bytes) (r : Result Bytes (VoiceSettings D))
        → OkUsable r
        → ActsUsable (with_settings j files strtod (say text) r)
    say-ActsUsable text (ok s) u = u
    say-ActsUsable text (err message) u = tt

    stream-ActsUsable :
        (r : Result Bytes (VoiceSettings D))
        → OkUsable r
        → ActsUsable (with_settings j files strtod stream r)
    stream-ActsUsable (ok s) u = u
    stream-ActsUsable (err message) u = tt

    run_say-ActsUsable :
        (o : VoiceCliOptions D) (positional : List Bytes)
        → ActsUsable (run_say j files strtod o positional)
    unfolding run_say
    run_say-ActsUsable o [] = tt
    run_say-ActsUsable o (text ∷ []) =
        if-elim ActsUsable (not (is_empty o.error)) _ _ (λ _. tt)
          (λ _. say-ActsUsable text _ (load_voice_settings-OkUsable o))
    run_say-ActsUsable o (text ∷ other ∷ rest) = tt

    run_stream-ActsUsable : (o : VoiceCliOptions D) → ActsUsable (run_stream j files strtod o)
    unfolding run_stream
    run_stream-ActsUsable o =
        if-elim ActsUsable (not (is_empty o.error) || not (is_empty o.positional)) _ _ (λ _. tt)
          (λ _. stream-ActsUsable _ (load_voice_settings-OkUsable o))

    run_doctor-ActsUsable :
        (arguments : List Bytes) → ActsUsable (run_doctor j files strtod arguments)
    run_doctor-ActsUsable [] = tt
    run_doctor-ActsUsable (flag ∷ []) =
        if-elim ActsUsable (eqb flag (lit "--json")) _ _ (λ _. tt) (λ _. tt)
    run_doctor-ActsUsable (flag ∷ other ∷ rest) = tt

    -- Whatever the arguments, the configuration file and the defaults say, `say` and `stream` run
    -- only with usable settings: a known model and every number in its range.
    pub main_action-ActsUsable :
        (arguments : List Bytes) → ActsUsable (main_action j files strtod arguments)
    unfolding main_action
    main_action-ActsUsable [] = tt
    main_action-ActsUsable (command ∷ arguments) =
        if-elim ActsUsable (eqb command (lit "doctor")) _ _ (λ _. run_doctor-ActsUsable arguments)
          (λ _.
            if-elim ActsUsable (eqb command (lit "say")) _ _
              (λ _. run_say-ActsUsable (parse_voice_cli strtod arguments) _)
              (λ _.
                if-elim ActsUsable (eqb command (lit "stream")) _ _
                  (λ _. run_stream-ActsUsable (parse_voice_cli strtod arguments)) (λ _. tt)))
