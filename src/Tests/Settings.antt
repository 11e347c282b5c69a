-- ===== src/Tests/Settings.antt =====
-- Settings that are shown and read back, and a last line, at concrete inputs.
use tiny_robotic_voice.Common.{
  ℕ, suc, ◌+◌, arith, ◌≡◌, refl, sym, inl, eqb, true, false, Bool, Option, none, some, Bytes, [],
  ◌∷◌, ℤ, pos, lit, has_nul, ok, if◌then◌else◌,
}
use tiny_robotic_voice.Double.{Hundredths, hundredths_double, Hundredths-HasLiterals}
use tiny_robotic_voice.Json.{Json}
use tiny_robotic_voice.Voice.{VoiceSettingsPatch, default_settings, apply_voice_settings_patch}
use tiny_robotic_voice.Voice.Range.{default_settings-IsUsable}
use tiny_robotic_voice.Voice.Parse.{parse_object}
use tiny_robotic_voice.Protocol.{Event, event, voice_fields, event_members}
use tiny_robotic_voice.Protocol.Events.{c_str-clean}
use tiny_robotic_voice.Protocol.Round.{IsReadBack, object_of, event_members-IsReadBack}
use tiny_robotic_voice.Stream.{Reader, Chunk, received, end_of_input, read_loop, left}
use tiny_robotic_voice.Stream.Lines.{IsClean}
use tiny_robotic_voice.Stream.Reads.{read_loop-last_line, read_loop-cut}

-- The object that shows the default settings, a text, or a number.
data Value : Type 0 where
  whole : Value
  text : Bytes → Value
  amount : ℤ → Value

abbrev member : Value → Bytes → Option Value
member whole key =
    if eqb key (lit "model")
    then some (text (lit "kal16"))
    else if eqb key (lit "preset")
    then some (text (lit "default"))
    else if eqb key (lit "speed")
    then some (amount (pos 100))
    else if eqb key (lit "expression")
    then some (amount (pos 100))
    else some (amount (pos 0))
member (text t) key = none
member (amount n) key = none

abbrev is_whole : Value → Bool
is_whole whole = true
is_whole other = false

abbrev is_text : Value → Bool
is_text (text t) = true
is_text other = false

abbrev is_amount : Value → Bool
is_amount (amount n) = true
is_amount other = false

abbrev bytes_of : Value → Bytes
bytes_of (text t) = t
bytes_of other = []

abbrev number_of : Value → ℤ
number_of (amount n) = n
number_of other = pos 0

abbrev library : Json Value Hundredths
library = record {
  read = λ input. some whole;
  write = λ value. none;
  is_obj = is_whole;
  obj_get = member;
  obj_keys = λ value.
      lit "model"
      ∷ lit "preset"
      ∷ lit "speed"
      ∷ lit "pitch_semitones"
      ∷ lit "expression"
      ∷ lit "gain_db"
      ∷ [];
  is_str = is_text;
  get_str = bytes_of;
  is_num = is_amount;
  get_num = λ value. some (number_of value);
  is_sint = λ value. false;
  get_sint = λ value. pos 0;
  is_uint = λ value. false;
  get_uint = λ value. 0;
}

whole-IsReadBack : IsReadBack library whole (voice_fields default_settings)
unfolding eqb lit has_nul
whole-IsReadBack = record {
  object = refl;
  keys = refl;
  members = (
    (text (lit "kal16"), refl, (refl, sym (c_str-clean (lit "kal16") refl))),
    (
      (text (lit "default"), refl, (refl, sym (c_str-clean (lit "default") refl))),
      (
        (amount (pos 100), refl, (refl, refl)),
        (
          (amount (pos 0), refl, (refl, refl)),
          ((amount (pos 100), refl, (refl, refl)), ((amount (pos 0), refl, (refl, refl)), tt)),
        ),
      ),
    ),
  );
}

abbrev ready : Event Hundredths
ready = record (event (lit "ready") []) { voice = some default_settings }

ready-object_of : object_of (event_members ready) ≡ some (voice_fields default_settings)
unfolding event_members
ready-object_of = refl

event_members-IsReadBack_example :
    (patch : VoiceSettingsPatch Hundredths) × (parse_object library whole ≡ ok patch)
    × (apply_voice_settings_patch default_settings patch ≡ (default_settings, none))
event_members-IsReadBack_example =
    event_members-IsReadBack library ready default_settings default_settings
      (voice_fields default_settings) whole refl ready-object_of whole-IsReadBack
      (default_settings-IsUsable Hundredths-HasLiterals) (inl refl)

-- A state that counts the lines.
abbrev count_line : Bytes → ℕ → ℕ × Bool
count_line line n = (suc n, true)

abbrev reader : Reader ℕ
reader = record {
  continue_reading = true;
  discarding_oversized_line = false;
  pending = [];
  target = 0;
}

reader-IsClean : IsClean count_line (λ n. n + 100) reader
reader-IsClean = record { reading = refl; kept = refl; empty = refl }

-- Two reads of one byte, and one of both.
abbrev chunk_a : Chunk
chunk_a = record { bytes = b'a' ∷ []; not_empty = omega arith; fits = omega arith }

abbrev chunk_end : Chunk
chunk_end = record { bytes = 10 ∷ []; not_empty = omega arith; fits = omega arith }

abbrev chunk_both : Chunk
chunk_both = record { bytes = b'a' ∷ 10 ∷ []; not_empty = omega arith; fits = omega arith }

read_loop-last_line_example :
    let (s', ending) =
      read_loop count_line
        (λ n. n + 100)
        (((λ n. n), received chunk_a)
          ∷ ((λ n. n + 2), received chunk_a)
          ∷ ((λ n. n + 5), end_of_input)
          ∷ [])
        reader in
    (s'.target ≡ 8) × (ending ≡ left)
read_loop-last_line_example =
    read_loop-last_line count_line (λ n. n + 100)
      (((λ n. n), chunk_a) ∷ ((λ n. n + 2), chunk_a) ∷ []) (λ n. n + 5) [] reader
      ((λ h. omega arith), ((λ h. omega arith), tt)) reader-IsClean

read_loop-cut_example :
    read_loop count_line
      (λ n. n + 100)
      (((λ n. n), received chunk_a)
        ∷ ((λ n. n), received chunk_end)
        ∷ ((λ n. n), end_of_input)
        ∷ [])
      reader
    ≡ read_loop count_line
        (λ n. n + 100)
        (((λ n. n), received chunk_both) ∷ ((λ n. n), end_of_input) ∷ [])
        reader
read_loop-cut_example =
    read_loop-cut count_line (λ n. n + 100) (chunk_a ∷ chunk_end ∷ []) (chunk_both ∷ [])
      (((λ n. n), end_of_input) ∷ []) reader refl
