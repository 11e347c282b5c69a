-- ===== src/Voice/Round.antt =====
-- The parser of src/voice_settings.cpp on an object that gives every setting.
use tiny_robotic_voice.Common.{
  ◌≡◌, refl, sym, true, false, Option, none, some, Bytes, [], ◌∷◌, lit, eqb, eqb_sound, eqb_refl, ℤ,
  pos, negsuc, has_nul, ok, arith, if-elim,
}
use tiny_robotic_voice.Double.{Double}
use tiny_robotic_voice.Json.{Json}
use tiny_robotic_voice.Voice.{
  VoiceSettings, VoiceSettingsPatch, default_settings, in_range, preset, settings_in_range,
  apply_to_preset, apply_voice_settings_patch,
}
use tiny_robotic_voice.Voice.Range.{IsUsable, PresetKnown}
use tiny_robotic_voice.Voice.Parse.{
  known_property, check_keys, text_setting, number, validated, parse_object,
}

module _ {D : Type 0} ⦃d : Double D⦄ where
  -- The patch that gives every setting.
  abbrev pub whole_patch : VoiceSettings D → VoiceSettingsPatch D
  whole_patch s = record {
    model = some s.model;
    preset = some s.preset;
    speed = some s.speed;
    pitch_semitones = some s.pitch_semitones;
    expression = some s.expression;
    gain_db = some s.gain_db;
  }

  -- A preset was found, under its name.
  abbrev Named : Bytes → Option (VoiceSettings D) → Type 0
  Named name none = ⊥
  Named name (some t) = t.preset ≡ name

  preset-Named :
      (name : Bytes) (t : VoiceSettings D) → PresetKnown (some name) → Named name (preset name t)
  unfolding preset
  preset-Named name t known =
      if-elim (Named name) (eqb name (lit "default")) _ _
        (λ e. sym (eqb_sound name (lit "default") e))
        (λ no_default.
          if-elim (Named name) (eqb name (lit "tiny")) _ _
            (λ e. sym (eqb_sound name (lit "tiny") e))
            (λ no_tiny.
              if-elim (Named name) (eqb name (lit "deep")) _ _
                (λ e. sym (eqb_sound name (lit "deep") e))
                (λ no_deep.
                  if-elim (Named name) (eqb name (lit "flat")) _ _
                    (λ e. sym (eqb_sound name (lit "flat") e))
                    (λ no_flat. ground (
                      arith,
                      known,
                      eqb_refl (lit "default"),
                      eqb_refl (lit "tiny"),
                      eqb_refl (lit "deep"),
                      eqb_refl (lit "flat"),
                    )))))

  apply_to_preset-whole :
      (s t : VoiceSettings D)
      → IsUsable s
      → t.preset ≡ s.preset
      → apply_to_preset (whole_patch s) t ≡ (s, none)
  unfolding apply_to_preset settings_in_range
  apply_to_preset-whole s t u named =
      ground (arith, u.model_known, u.speed_in, u.pitch_in, u.expression_in, u.gain_in)

  step-whole :
      (s : VoiceSettings D) (o : Option (VoiceSettings D)) (t : VoiceSettings D)
      → IsUsable s
      → Named s.preset o
      → preset s.preset t ≡ o
      → apply_voice_settings_patch t (whole_patch s) ≡ (s, none)
  unfolding apply_voice_settings_patch
  step-whole s none t u named found = absurd named
  step-whole s (some t') t u named found =
      rw (apply_voice_settings_patch, found) (apply_to_preset-whole s t' u named)

  whole_patch-applied :
      (s t : VoiceSettings D)
      → IsUsable s
      → PresetKnown (some s.preset)
      → apply_voice_settings_patch t (whole_patch s) ≡ (s, none)
  whole_patch-applied s t u known =
      step-whole s (preset s.preset t) t u (preset-Named s.preset t known) refl

module _ {V D : Type 0} ⦃d : Double D⦄ (j : Json V D) where
  -- A member of an object that is a string without NUL, and one that is a number.
  abbrev pub HasText : V → Bytes → Bytes → Type 0
  HasText root key text =
      (value : V) × (j.obj_get root key ≡ some value)
      × (j.is_str value ≡ true)
      × (j.get_str value ≡ text)
      × (has_nul text ≡ false)

  abbrev pub HasNumber : V → Bytes → D → Type 0
  HasNumber root key x =
      (value : V) × (j.obj_get root key ≡ some value)
      × (j.is_num value ≡ true)
      × (j.get_num value ≡ x)

  -- An object that shows settings as the `voice` member of an event does: it has the six members and
  -- no other.
  pub record Shows (root : V) (s : VoiceSettings D) : Type 0 where
    pub object : j.is_obj root ≡ true
    pub keys :
        j.obj_keys root
        ≡ lit "model"
          ∷ lit "preset"
          ∷ lit "speed"
          ∷ lit "pitch_semitones"
          ∷ lit "expression"
          ∷ lit "gain_db"
          ∷ []
    pub model : HasText root (lit "model") s.model
    pub preset : HasText root (lit "preset") s.preset
    pub speed : HasNumber root (lit "speed") s.speed
    pub pitch_semitones : HasNumber root (lit "pitch_semitones") s.pitch_semitones
    pub expression : HasNumber root (lit "expression") s.expression
    pub gain_db : HasNumber root (lit "gain_db") s.gain_db

  text_setting-ok :
      (root : V) (key no_string bad_character text : Bytes)
      → HasText root key text
      → text_setting j root key no_string bad_character ≡ ok (some text)
  unfolding text_setting
  text_setting-ok root key no_string bad_character text (value, found, is_text, same, clean) =
      rw (text_setting, found, is_text, same, clean) refl

  number-ok :
      (root : V) (key : Bytes) (minimum maximum : ℤ) (x : D)
      → HasNumber root key x
      → in_range x minimum maximum ≡ true
      → number j root key minimum maximum ≡ ok (some x)
  unfolding number
  number-ok root key minimum maximum x (value, found, is_number, same) h =
      rw (number, found, is_number, same, h) refl

  all_known :
      check_keys (
        lit "model"
        ∷ lit "preset"
        ∷ lit "speed"
        ∷ lit "pitch_semitones"
        ∷ lit "expression"
        ∷ lit "gain_db"
        ∷ [])
      ≡ ok tt
  unfolding check_keys known_property eqb lit
  all_known = refl

  validated-whole :
      (s : VoiceSettings D)
      → IsUsable s
      → PresetKnown (some s.preset)
      → validated j (whole_patch s) ≡ ok (whole_patch s)
  unfolding validated
  validated-whole s u known = rw (validated, whole_patch-applied s default_settings u known) refl

  -- Usable settings with a known preset survive the round trip: from an object that shows them as the
  -- events do, the parser gives a patch that turns any settings into exactly these.
  pub parse_object-Shows :
      (root : V) (s t : VoiceSettings D)
      → Shows root s
      → IsUsable s
      → PresetKnown (some s.preset)
      → (patch : VoiceSettingsPatch D) × (parse_object j root ≡ ok patch)
        × (apply_voice_settings_patch t patch ≡ (s, none))
  unfolding parse_object
  parse_object-Shows root s t h u known = (
    whole_patch s,
    rw
        (
          h.object,
          h.keys,
          all_known,
          text_setting-ok root (lit "model") (lit "Voice setting 'model' must be a string.")
              (lit "Voice setting 'model' contains an invalid character.") s.model h.model,
          text_setting-ok root (lit "preset") (lit "Voice setting 'preset' must be a string.")
              (lit "Voice setting 'preset' contains an invalid character.") s.preset h.preset,
          number-ok root (lit "speed") (pos 60) (pos 180) s.speed h.speed u.speed_in,
          number-ok root (lit "pitch_semitones") (negsuc 1199) (pos 1200) s.pitch_semitones
              h.pitch_semitones u.pitch_in,
          number-ok root (lit "expression") (pos 0) (pos 200) s.expression h.expression
              u.expression_in,
          number-ok root (lit "gain_db") (negsuc 2399) (pos 600) s.gain_db h.gain_db u.gain_in,
        )
        (validated-whole s u known),
    whole_patch-applied s t u known,
  )
