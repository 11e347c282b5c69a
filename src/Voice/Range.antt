-- ===== src/Voice/Range.antt =====
-- When a patch is accepted, and what the settings are then.
use tiny_robotic_voice.Common.{
  ◌≡◌, ◌⊎◌, inl, inr, Bool, true, ◌&&◌, Option, none, some, Bytes, lit, eqb, ℤ, pos, negsuc, ◌≤ℤ◌,
  arith, if-elim, Option-cases, eqb_refl, eqb_sound, ◌≢◌, ◌↔◌, subst, ap, ◌∙◌,
}
use tiny_robotic_voice.Double.{Double, HasLiterals}
use tiny_robotic_voice.Voice.{
  VoiceSettings, VoiceSettingsPatch, known_model, default_settings, with_preset, preset, in_range,
  speed_ok, pitch_ok, expression_ok, gain_ok, settings_in_range, overlay, preset_step, model_ok,
  apply_to_preset, apply_voice_settings_patch,
}

abbrev pub PresetKnown : Option Bytes → Type 0
PresetKnown none = Unit {0}
PresetKnown (some name) =
    (name ≡ lit "default") ⊎ (name ≡ lit "tiny") ⊎ (name ≡ lit "deep") ⊎ (name ≡ lit "flat")

kal16-known : known_model (lit "kal16") ≡ true
unfolding known_model
kal16-known = rw (eqb_refl (lit "kal16"))

&&-four :
    (a b c e : Bool) → a && b && c && e ≡ true → (a ≡ true) × (b ≡ true) × (c ≡ true) × (e ≡ true)
&&-four a b c e h = ground arith

module _ {D : Type 0} ⦃d : Double D⦄ where
  -- Settings that the engine can use.
  pub record IsUsable (s : VoiceSettings D) : Type 0 where
    pub model_known : known_model s.model ≡ true
    pub speed_in : speed_ok s.speed ≡ true
    pub pitch_in : pitch_ok s.pitch_semitones ≡ true
    pub expression_in : expression_ok s.expression ≡ true
    pub gain_in : gain_ok s.gain_db ≡ true

  abbrev pub GivenIn : (D → Bool) → Option D → Type 0
  GivenIn test none = Unit {0}
  GivenIn test (some x) = test x ≡ true

  -- A patch each of whose given fields is acceptable by itself.
  pub record IsAcceptable (p : VoiceSettingsPatch D) : Type 0 where
    pub preset_known : PresetKnown p.preset
    pub model_known : model_ok p.model ≡ true
    pub speed_in : GivenIn speed_ok p.speed
    pub pitch_in : GivenIn pitch_ok p.pitch_semitones
    pub expression_in : GivenIn expression_ok p.expression
    pub gain_in : GivenIn gain_ok p.gain_db

  module _ (l : HasLiterals D) where
    literal-in_range :
        (n minimum maximum : ℤ)
        → negsuc 2399 ≤ℤ minimum
        → maximum ≤ℤ pos 2400
        → minimum ≤ℤ n
        → n ≤ℤ maximum
        → in_range (d.hundredths n) minimum maximum ≡ true
    literal-in_range n minimum maximum a b c e =
        ground (arith, l.literal_finite n, l.literal_lt n minimum, l.literal_lt maximum n)

    preset-IsUsable :
        (s : VoiceSettings D) (name : Bytes) (speed pitch expression gain : ℤ)
        → known_model s.model ≡ true
        → (pos 60 ≤ℤ speed) × (speed ≤ℤ pos 180)
        → (negsuc 1199 ≤ℤ pitch) × (pitch ≤ℤ pos 1200)
        → (pos 0 ≤ℤ expression) × (expression ≤ℤ pos 200)
        → (negsuc 2399 ≤ℤ gain) × (gain ≤ℤ pos 600)
        → IsUsable (with_preset s name speed pitch expression gain)
    preset-IsUsable s name speed pitch expression gain m a b c e = record {
      model_known = m;
      speed_in = literal-in_range speed (pos 60) (pos 180) (omega arith) (omega arith) a.0 a.1;
      pitch_in =
          literal-in_range pitch (negsuc 1199) (pos 1200) (omega arith) (omega arith) b.0 b.1;
      expression_in =
          literal-in_range expression (pos 0) (pos 200) (omega arith) (omega arith) c.0 c.1;
      gain_in = literal-in_range gain (negsuc 2399) (pos 600) (omega arith) (omega arith) e.0 e.1;
    }

    -- The settings with which the program starts are usable.
    pub default_settings-IsUsable : IsUsable default_settings
    default_settings-IsUsable =
        preset-IsUsable default_settings (lit "default") (pos 100) (pos 0) (pos 100) (pos 0)
          kal16-known (omega arith) (omega arith) (omega arith) (omega arith)

    -- A preset, where it is known, gives usable settings.
    abbrev SomeUsable : Option (VoiceSettings D) → Type 0
    SomeUsable none = Unit {0}
    SomeUsable (some s) = IsUsable s

    preset-SomeUsable :
        (name : Bytes) (s : VoiceSettings D)
        → known_model s.model ≡ true
        → SomeUsable (preset name s)
    unfolding preset
    preset-SomeUsable name s m =
        if-elim SomeUsable (eqb name (lit "default")) _ _
          (λ _.
            preset-IsUsable s _ _ _ _ _ m (omega arith) (omega arith) (omega arith) (omega arith))
          (λ _.
            if-elim SomeUsable (eqb name (lit "tiny")) _ _
              (λ _.
                preset-IsUsable s _ _ _ _ _ m (omega arith) (omega arith) (omega arith)
                  (omega arith))
              (λ _.
                if-elim SomeUsable (eqb name (lit "deep")) _ _
                  (λ _.
                    preset-IsUsable s _ _ _ _ _ m (omega arith) (omega arith) (omega arith)
                      (omega arith))
                  (λ _.
                    if-elim SomeUsable (eqb name (lit "flat")) _ _
                      (λ _.
                        preset-IsUsable s _ _ _ _ _ m (omega arith) (omega arith) (omega arith)
                          (omega arith))
                      (λ _. tt))))

    preset_step-SomeUsable :
        (o : Option Bytes) (s : VoiceSettings D) → IsUsable s → SomeUsable (preset_step o s)
    preset_step-SomeUsable none s u = u
    preset_step-SomeUsable (some name) s u = preset-SomeUsable name s u.model_known

  preset-PresetKnown :
      (name : Bytes) (s : VoiceSettings D) → (preset name s ≡ none) ⊎ PresetKnown (some name)
  unfolding preset
  preset-PresetKnown name s = ground (
    arith,
    eqb_sound name (lit "default"),
    eqb_sound name (lit "tiny"),
    eqb_sound name (lit "deep"),
    eqb_sound name (lit "flat"),
  )

  preset-ne-none :
      (name : Bytes) (s : VoiceSettings D) → PresetKnown (some name) → preset name s ≢ none
  unfolding preset
  preset-ne-none name s k = ground (
    arith,
    eqb_refl (lit "default"),
    eqb_refl (lit "tiny"),
    eqb_refl (lit "deep"),
    eqb_refl (lit "flat"),
  )

  overlay-in_range :
      (p : VoiceSettingsPatch D) (s : VoiceSettings D)
      → IsUsable s
      → IsAcceptable p
      → IsUsable (overlay p s)
  overlay-in_range p s u a = ground arith

  settings_in_range-parts :
      (s : VoiceSettings D)
      → settings_in_range s ≡ true
      → (speed_ok s.speed ≡ true)
        × (pitch_ok s.pitch_semitones ≡ true)
        × (expression_ok s.expression ≡ true)
        × (gain_ok s.gain_db ≡ true)
  unfolding settings_in_range
  settings_in_range-parts s h = &&-four (speed_ok s.speed) _ _ _ h

  IsUsable-settings_in_range : (s : VoiceSettings D) → IsUsable s → settings_in_range s ≡ true
  unfolding settings_in_range
  IsUsable-settings_in_range s u = rw (u.speed_in, u.pitch_in, u.expression_in, u.gain_in)

  -- What `apply_to_preset` says of the fields behind the preset.
  apply_to_preset-accepts :
      (p : VoiceSettingsPatch D) (s : VoiceSettings D)
      → IsUsable s
      → IsAcceptable p
      → apply_to_preset p s ≡ (overlay p s, none)
  unfolding apply_to_preset
  apply_to_preset-accepts p s u a =
      rw (a.model_known, IsUsable-settings_in_range (overlay p s) (overlay-in_range p s u a))

  apply_to_preset-none :
      (p : VoiceSettingsPatch D) (s : VoiceSettings D)
      → (apply_to_preset p s).1 ≡ none
      → (model_ok p.model ≡ true) × (settings_in_range (overlay p s) ≡ true)
  unfolding apply_to_preset
  apply_to_preset-none p s e = ground arith

  overlay-given :
      (p : VoiceSettingsPatch D) (s : VoiceSettings D)
      → settings_in_range (overlay p s) ≡ true
      → GivenIn speed_ok p.speed
        × GivenIn pitch_ok p.pitch_semitones
        × GivenIn expression_ok p.expression
        × GivenIn gain_ok p.gain_db
  overlay-given p s h = ground (arith, settings_in_range-parts (overlay p s) h)

  preset_step-PresetKnown :
      (o : Option Bytes) (s : VoiceSettings D) → (preset_step o s ≡ none) ⊎ PresetKnown o
  preset_step-PresetKnown none s = inr tt
  preset_step-PresetKnown (some name) s = preset-PresetKnown name s

  preset_step-ne-none :
      (o : Option Bytes) (s : VoiceSettings D) → PresetKnown o → preset_step o s ≢ none
  preset_step-ne-none none s k = λ e. cc
  preset_step-ne-none (some name) s k = preset-ne-none name s k

module _ {D : Type 0} ⦃d : Double D⦄ (l : HasLiterals D) (s : VoiceSettings D)
    (p : VoiceSettingsPatch D) (u : IsUsable s) where
  -- The settings after the preset.
  preset_step-cases :
      (preset_step p.preset s ≡ none)
      ⊎ ((s' : VoiceSettings D) × (preset_step p.preset s ≡ some s') × IsUsable s')
  preset_step-cases = elim (Option-cases (preset_step p.preset s)) [
    | inl e ↦ inl e
    | inr (s', e) ↦ inr (s', e, subst (SomeUsable l) e (preset_step-SomeUsable l p.preset s u))
  ]

  apply-some :
      (s' : VoiceSettings D)
      → preset_step p.preset s ≡ some s'
      → apply_voice_settings_patch s p ≡ apply_to_preset p s'
  unfolding apply_voice_settings_patch
  apply-some s' e = rw (e, apply_voice_settings_patch)

  accepted_after :
      (s' : VoiceSettings D)
      → preset_step p.preset s ≡ some s'
      → (apply_voice_settings_patch s p).1 ≡ none
      → IsAcceptable p
  accepted_after s' e h =
      let (m, r) = apply_to_preset-none p s' (rw (apply-some s' e) at h) in
      let (a, b, c, f) = overlay-given p s' r in
      record {
        preset_known = ground (arith, preset_step-PresetKnown p.preset s);
        model_known = m;
        speed_in = a;
        pitch_in = b;
        expression_in = c;
        gain_in = f;
      }

  accepts_after :
      (s' : VoiceSettings D)
      → preset_step p.preset s ≡ some s'
      → IsUsable s'
      → IsAcceptable p
      → apply_voice_settings_patch s p ≡ (overlay p s', none)
  accepts_after s' e u' a = apply-some s' e ∙ apply_to_preset-accepts p s' u' a

  -- A patch is accepted by usable settings exactly when each of its given fields is acceptable by
  -- itself: a known preset, a known model, and numbers in their ranges.
  pub apply_voice_settings_patch-accepts :
      ((apply_voice_settings_patch s p).1 ≡ none) ↔ IsAcceptable p
  unfolding apply_voice_settings_patch
  apply_voice_settings_patch-accepts = elim preset_step-cases [
    | inl e ↦
        rw (e, apply_voice_settings_patch)
          (λ h. cc, λ a. absurd (preset_step-ne-none p.preset s a.preset_known e))
    | inr (s', e, u') ↦ (accepted_after s' e, λ a. ap (λ r. r.1) (accepts_after s' e u' a))
  ]

  -- The settings are usable after a patch that is accepted.
  pub apply_voice_settings_patch-IsUsable :
      (apply_voice_settings_patch s p).1 ≡ none → IsUsable (apply_voice_settings_patch s p).0
  unfolding apply_voice_settings_patch
  apply_voice_settings_patch-IsUsable h = elim preset_step-cases [
    | inl e ↦ absurd (preset_step-ne-none p.preset s acceptable.preset_known e)
    | inr (s', e, u') ↦ rw (accepts_after s' e u' acceptable) (overlay-in_range p s' u' acceptable)
  ]
    where
      acceptable : IsAcceptable p
      acceptable = apply_voice_settings_patch-accepts.0 h
