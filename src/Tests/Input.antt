-- ===== src/Tests/Input.antt =====
-- Phrases, settings, commands, lines and arguments at concrete inputs.
use tiny_robotic_voice.Common.{
  ℕ, ◌+◌, ◌≤◌, ◌<◌, ◌≡◌, ◌≢◌, ◌⊎◌, ◌↔◌, inl, refl, Bool, true, false, none, some, Bytes, [], ◌∷◌,
  ◌++◌, pos, length, arith, lit, codes, eqb, replicate, if◌then◌else◌, ok, has_nul,
}
use tiny_robotic_voice.Double.{Hundredths, hundredths_double, Hundredths-HasLiterals}
use tiny_robotic_voice.Chunker.{next_chunk_bytes}
use tiny_robotic_voice.Chunker.Cuts.{IsCut}
use tiny_robotic_voice.Chunker.Bounds.{next_chunk_bytes-IsCut, next_chunk_bytes-pos}
use tiny_robotic_voice.Voice.{
  settings_in_range, known_model, apply_to_preset, VoiceSettings, VoiceSettingsPatch, no_patch,
  default_settings, apply_voice_settings_patch,
}
use tiny_robotic_voice.Voice.Range.{
  IsUsable, IsAcceptable, default_settings-IsUsable, apply_voice_settings_patch-accepts,
  apply_voice_settings_patch-IsUsable,
}
use tiny_robotic_voice.Voice.Parse.{
  known_property, check_keys, text_setting, number, validated, parse_object, AllKnown,
  parse_voice_settings_json, parse_voice_settings_json-accepted,
}
use tiny_robotic_voice.Protocol.{
  get_string, parse_typed, parse_session, parse_body, parse_seq, parse_root, finish, parse_command,
  plain,
}
use tiny_robotic_voice.Protocol.Commands.{IsWellFormed, parse_command-IsWellFormed}
use tiny_robotic_voice.Stream.{Reader, feed}
use tiny_robotic_voice.Stream.Lines.{IsBounded, IsClean, feed-IsBounded, feed-line}
use tiny_robotic_voice.Cli.{Strtod, Files, main_action}
use tiny_robotic_voice.Cli.Options.{ActsUsable, main_action-ActsUsable}
use tiny_robotic_voice.Tests.{Node, object, json_of}

-- Twenty-five letters and a full stop.
abbrev sentence : Bytes
sentence = replicate 25 b'a' ++ b'.' ∷ []

sentence-pos : next_chunk_bytes sentence true ≢ 0
sentence-pos h = omega (arith, next_chunk_bytes-pos sentence true (inl (refl, omega arith)))

next_chunk_bytes-IsCut_example :
    IsCut sentence (next_chunk_bytes sentence true)
    ⊎ ((next_chunk_bytes sentence true ≡ 180) × (180 ≤ 26))
    ⊎ ((true ≡ true) × (next_chunk_bytes sentence true ≡ 26))
next_chunk_bytes-IsCut_example = next_chunk_bytes-IsCut sentence true sentence-pos

next_chunk_bytes-pos_example : 0 < next_chunk_bytes sentence true
next_chunk_bytes-pos_example = next_chunk_bytes-pos sentence true (inl (refl, omega arith))

-- A faster voice.
abbrev faster : VoiceSettingsPatch Hundredths
faster = record (no_patch Hundredths) { speed = some (some (pos 150)) }

faster-IsAcceptable : IsAcceptable faster
faster-IsAcceptable = record {
  preset_known = tt;
  model_known = refl;
  speed_in = refl;
  pitch_in = tt;
  expression_in = tt;
  gain_in = tt;
}

apply_voice_settings_patch-accepts_example :
    ((apply_voice_settings_patch default_settings faster).1 ≡ none) ↔ IsAcceptable faster
apply_voice_settings_patch-accepts_example =
    apply_voice_settings_patch-accepts Hundredths-HasLiterals default_settings faster
      (default_settings-IsUsable Hundredths-HasLiterals)

apply_voice_settings_patch-IsUsable_example :
    IsUsable (apply_voice_settings_patch default_settings faster).0
apply_voice_settings_patch-IsUsable_example =
    apply_voice_settings_patch-IsUsable Hundredths-HasLiterals default_settings faster
      (default_settings-IsUsable Hundredths-HasLiterals)
      (apply_voice_settings_patch-accepts_example.1 faster-IsAcceptable)

-- `{"model": "rms"}`.
abbrev config : Node
config = object (lit "model" ∷ []) (λ key. if eqb key (lit "model") then some (lit "rms") else none)

abbrev rms_patch : VoiceSettingsPatch Hundredths
rms_patch = record (no_patch Hundredths) { model = some (lit "rms") }

config-parsed : parse_voice_settings_json (json_of config) (b'{' ∷ b'}' ∷ []) ≡ ok rms_patch
unfolding parse_voice_settings_json parse_object check_keys known_property text_setting number
    validated apply_voice_settings_patch apply_to_preset settings_in_range known_model has_nul eqb
    lit codes
config-parsed = refl

parse_voice_settings_json-accepted_example :
    (2 ≤ 65536)
    × ((root : Node) × (some config ≡ some root) × AllKnown ((json_of config).obj_keys root))
    × ((s : VoiceSettings Hundredths)
        → IsUsable s
        → (apply_voice_settings_patch s rms_patch).1 ≡ none)
parse_voice_settings_json-accepted_example =
    parse_voice_settings_json-accepted (json_of config) Hundredths-HasLiterals (b'{' ∷ b'}' ∷ [])
      rms_patch config-parsed

-- `{"type": "finish", "session": "a"}`.
abbrev message : Node
message = object (lit "type" ∷ lit "session" ∷ []) (λ key.
    if eqb key (lit "type")
    then some (lit "finish")
    else if eqb key (lit "session")
    then some (lit "a")
    else none)

message-parsed :
    parse_command (json_of message) (b'{' ∷ b'}' ∷ [])
    ≡ ok (plain (json_of message) finish (lit "a"))
unfolding parse_command parse_root parse_body parse_session parse_typed parse_seq get_string has_nul
    eqb lit codes
message-parsed = refl

parse_command-IsWellFormed_example :
    (2 ≤ 1048576) × IsWellFormed (plain (json_of message) finish (lit "a"))
parse_command-IsWellFormed_example =
    parse_command-IsWellFormed (json_of message) Hundredths-HasLiterals (b'{' ∷ b'}' ∷ [])
      (plain (json_of message) finish (lit "a")) message-parsed

-- A reader over a count of lines, which stops at an empty line.
abbrev count_line : Bytes → ℕ → ℕ × Bool
count_line [] n = (n, false)
count_line (c ∷ rest) n = (n + 1, true)

abbrev reader : Reader ℕ
reader = record {
  continue_reading = true;
  discarding_oversized_line = false;
  pending = [];
  target = 0;
}

reader-IsBounded : IsBounded count_line (λ n. n) reader
reader-IsBounded = ground arith

reader-IsClean : IsClean count_line (λ n. n) reader
reader-IsClean = record { reading = refl; kept = refl; empty = refl }

feed-IsBounded_example :
    IsBounded count_line (λ n. n) (feed count_line (λ n. n) (1 ∷ 10 ∷ 2 ∷ []) reader)
feed-IsBounded_example =
    feed-IsBounded count_line (λ n. n) (1 ∷ 10 ∷ 2 ∷ []) reader reader-IsBounded

feed-line_example : feed count_line (λ n. n) (1 ∷ 2 ∷ 10 ∷ []) reader ≡ record reader { target = 1 }
feed-line_example =
    feed-line count_line (λ n. n) (1 ∷ 2 ∷ []) reader ((λ h. cc), ((λ h. cc), tt)) reader-IsClean

-- `strtod` that reads every text as 1.
abbrev one : Strtod Hundredths
one = record { value = λ text. some (pos 100); used = λ text. length text; errno = λ text. 0 }

-- No file anywhere.
abbrev no_files : Files
no_files = record { exists = λ path. ok false; file_size = λ path. none; contents = λ path. none }

main_action-ActsUsable_example :
    ActsUsable
      (json_of config)
      no_files
      Hundredths-HasLiterals
      (main_action (json_of config) no_files one (lit "say" ∷ lit "hello" ∷ []))
main_action-ActsUsable_example =
    main_action-ActsUsable (json_of config) no_files Hundredths-HasLiterals one
      (lit "say" ∷ lit "hello" ∷ [])
