-- ===== src/Voice/Parse.antt =====
-- `parse_voice_settings_json` of src/voice_settings.cpp.
use tiny_robotic_voice.Common.{
  ℕ, ◌*◌, ◌≡◌, ◌≤◌, Bool, true, not, ◌||◌, Option, none, some, Bytes, List, [], ◌∷◌, ◌++◌, lit, eqb,
  ℤ, pos, negsuc, length, leb, leb→le, has_nul, Result, ok, err, ◌>>=◌, ◌>>◌, guard, >>=-eq-ok,
  or_fail, guard-ok, or_fail-ok, arith, if◌then◌else◌,
}
use tiny_robotic_voice.Double.{Double, HasLiterals}
use tiny_robotic_voice.Json.{Json}
use tiny_robotic_voice.Voice.{
  VoiceSettings, VoiceSettingsPatch, default_settings, in_range, apply_voice_settings_patch,
}
use tiny_robotic_voice.Voice.Range.{
  IsAcceptable, IsUsable, default_settings-IsUsable, apply_voice_settings_patch-accepts,
}

abbrev pub maximum_voice_config_bytes : ℕ
maximum_voice_config_bytes = 64 * 1024

unfoldable pub known_property : Bytes → Bool
known_property key =
    eqb key (lit "model")
    || eqb key (lit "preset")
    || eqb key (lit "speed")
    || eqb key (lit "pitch_semitones")
    || eqb key (lit "expression")
    || eqb key (lit "gain_db")

-- The loop over the keys stops at the first that is unknown.
unfoldable pub check_keys : List Bytes → Result Bytes (Unit {0})
check_keys [] = ok tt
check_keys (name ∷ rest) =
    if known_property name
    then check_keys rest
    else err (lit "Unknown voice setting: " ++ name ++ lit ".")

abbrev pub AllKnown : List Bytes → Type 0
AllKnown [] = Unit {0}
AllKnown (name ∷ rest) = (known_property name ≡ true) × AllKnown rest

check_keys-AllKnown : (names : List Bytes) → check_keys names ≡ ok tt → AllKnown names
unfolding check_keys
check_keys-AllKnown [] h = tt
check_keys-AllKnown (name ∷ rest) h = ground (arith, check_keys-AllKnown rest)

module _ {V D : Type 0} ⦃d : Double D⦄ (j : Json V D) where
  -- The blocks for 'model' and 'preset', with their two messages.
  unfoldable pub text_setting : V → Bytes → Bytes → Bytes → Result Bytes (Option Bytes)
  text_setting root key no_string bad_character = elim (j.obj_get root key) [
    | none ↦ ok none
    | some value ↦
        if not (j.is_str value)
        then err no_string
        else if has_nul (j.get_str value)
        then err bad_character
        else ok (some (j.get_str value))
  ]

  unfoldable pub number : V → Bytes → ℤ → ℤ → Result Bytes (Option D)
  number root key minimum maximum = elim (j.obj_get root key) [
    | none ↦ ok none
    | some value ↦
        if not (j.is_num value)
        then err (lit "Voice setting '" ++ key ++ lit "' must be a number.")
        else if in_range (j.get_num value) minimum maximum
        then ok (some (j.get_num value))
        else err (lit "Voice setting '" ++ key ++ lit "' is outside its supported range.")
  ]

  -- The check against default settings at the end.
  unfoldable pub validated : VoiceSettingsPatch D → Result Bytes (VoiceSettingsPatch D)
  validated patch = elim (apply_voice_settings_patch default_settings patch).1 [
    | none ↦ ok patch
    | some message ↦ err message
  ]

  unfoldable pub parse_object : V → Result Bytes (VoiceSettingsPatch D)
  parse_object root = do
    guard (j.is_obj root) (lit "Voice configuration must be a JSON object.")
    check_keys (j.obj_keys root)
    model ←
        text_setting root (lit "model") (lit "Voice setting 'model' must be a string.")
          (lit "Voice setting 'model' contains an invalid character.")
    preset ←
        text_setting root (lit "preset") (lit "Voice setting 'preset' must be a string.")
          (lit "Voice setting 'preset' contains an invalid character.")
    speed ← number root (lit "speed") (pos 60) (pos 180)
    pitch ← number root (lit "pitch_semitones") (negsuc 1199) (pos 1200)
    expression ← number root (lit "expression") (pos 0) (pos 200)
    gain ← number root (lit "gain_db") (negsuc 2399) (pos 600)
    validated (record {
      model = model;
      preset = preset;
      speed = speed;
      pitch_semitones = pitch;
      expression = expression;
      gain_db = gain;
    })

  -- `VoiceSettingsParseResult`: the settings, or the message.
  unfoldable pub parse_voice_settings_json : Bytes → Result Bytes (VoiceSettingsPatch D)
  parse_voice_settings_json json = do
    guard (leb (length json) maximum_voice_config_bytes)
        (lit "Voice configuration exceeds the 64 KiB limit.")
    root ← or_fail (j.read json) (lit "Voice configuration is not valid JSON.")
    parse_object root

  validated-ok :
      (q p : VoiceSettingsPatch D)
      → validated q ≡ ok p
      → (q ≡ p) × ((apply_voice_settings_patch default_settings q).1 ≡ none)
  unfolding validated
  validated-ok q p h = ground arith

  validated-accepted :
      (q p : VoiceSettingsPatch D)
      → validated q ≡ ok p
      → (apply_voice_settings_patch default_settings p).1 ≡ none
  validated-accepted q p h = let (same, fine) = validated-ok q p h in rw same at fine

  -- What the chain ends with.
  parse_object-accepted :
      (root : V) (p : VoiceSettingsPatch D)
      → parse_object root ≡ ok p
      → (check_keys (j.obj_keys root) ≡ ok tt)
        × ((apply_voice_settings_patch default_settings p).1 ≡ none)
  unfolding parse_object
  parse_object-accepted root p h =
      let (object, h₁) = guard-ok (j.is_obj root) _ _ h in
      let (u, keys, h₂) = >>=-eq-ok (check_keys (j.obj_keys root)) _ h₁ in
      let (model, _, h₃) = >>=-eq-ok (text_setting root (lit "model") _ _) _ h₂ in
      let (preset, _, h₄) = >>=-eq-ok (text_setting root (lit "preset") _ _) _ h₃ in
      let (speed, _, h₅) = >>=-eq-ok (number root (lit "speed") _ _) _ h₄ in
      let (pitch, _, h₆) = >>=-eq-ok (number root (lit "pitch_semitones") _ _) _ h₅ in
      let (expression, _, h₇) = >>=-eq-ok (number root (lit "expression") _ _) _ h₆ in
      let (gain, _, h₈) = >>=-eq-ok (number root (lit "gain_db") _ _) _ h₇ in
      (keys, validated-accepted _ p h₈)

  -- A configuration that is parsed has at most 64 KiB, is an object with known keys only, and gives
  -- a patch that is accepted by all usable settings, so the runtime never refuses it later.
  pub parse_voice_settings_json-accepted :
      HasLiterals D
      → (json : Bytes) (p : VoiceSettingsPatch D) → parse_voice_settings_json json ≡ ok p
      → (length json ≤ 65536)
        × ((root : V) × (j.read json ≡ some root) × AllKnown (j.obj_keys root))
        × ((s : VoiceSettings D) → IsUsable s → (apply_voice_settings_patch s p).1 ≡ none)
  unfolding parse_voice_settings_json
  parse_voice_settings_json-accepted l json p h =
      let (small, h₁) = guard-ok (leb (length json) maximum_voice_config_bytes) _ _ h in
      let (root, read, h₂) = >>=-eq-ok (or_fail (j.read json) _) _ h₁ in
      let (keys, accepted) = parse_object-accepted root p h₂ in
      let acceptable : IsAcceptable p =
        (apply_voice_settings_patch-accepts l default_settings p (default_settings-IsUsable l)).0
          accepted in
      (
        leb→le _ _ small,
        (root, or_fail-ok (j.read json) _ read, check_keys-AllKnown (j.obj_keys root) keys),
        λ s u. (apply_voice_settings_patch-accepts l s p u).1 acceptable,
      )
