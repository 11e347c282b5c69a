-- ===== src/Protocol/Round.antt =====
-- The settings that `json_event` of src/protocol.cpp shows in the `voice` object of an event, given back
-- to the parser of src/voice_settings.cpp.
use tiny_robotic_voice.Common.{
  Bool-cases, ◌≡◌, refl, sym, ap, ◌∙◌, subst, inl, inr, true, false, not, Option, none, some, Bytes,
  List, [], ◌∷◌, ◌++◌, lit, eqb, eqb_sound, has_nul, is_empty, ℤ, ℕ, ok, if-elim, arith,
}
use tiny_robotic_voice.Double.{Double}
use tiny_robotic_voice.Json.{Json}
use tiny_robotic_voice.Voice.{
  VoiceSettings, VoiceSettingsPatch, known_model, apply_voice_settings_patch,
}
use tiny_robotic_voice.Voice.Range.{IsUsable, PresetKnown}
use tiny_robotic_voice.Voice.Parse.{parse_object}
use tiny_robotic_voice.Voice.Round.{Shows, parse_object-Shows}
use tiny_robotic_voice.Protocol.{
  Event, Scalar, str, flag, sint, uint, real, Member, scalar, settings, text_member, code_members,
  seq_member, bytes_member, voice_fields, voice_member, event_members,
}
use tiny_robotic_voice.Protocol.Events.{c_str-clean}

known_model-clean : (name : Bytes) → known_model name ≡ true → has_nul name ≡ false
unfolding known_model has_nul lit
known_model-clean name h = elim (Bool-cases (eqb name (lit "kal16"))) [
  | inl e ↦ subst (λ n. has_nul n ≡ false) (sym (eqb_sound name (lit "kal16") e)) refl
  | inr e ↦ subst (λ n. has_nul n ≡ false) (sym (eqb_sound name (lit "rms") (ground arith))) refl
]

PresetKnown-clean : (name : Bytes) → PresetKnown (some name) → has_nul name ≡ false
unfolding has_nul lit
PresetKnown-clean name (inl e) = subst (λ n. has_nul n ≡ false) (sym e) refl
PresetKnown-clean name (inr (inl e)) = subst (λ n. has_nul n ≡ false) (sym e) refl
PresetKnown-clean name (inr (inr (inl e))) = subst (λ n. has_nul n ≡ false) (sym e) refl
PresetKnown-clean name (inr (inr (inr e))) = subst (λ n. has_nul n ≡ false) (sym e) refl

some-injective : {A : Type 0} {a b : A} → some a ≡ some b → a ≡ b
some-injective h = ground arith

module _ {D : Type 0} where
  -- The members of the object in an event, if it has one.
  abbrev pub object_of : List (Member D) → Option (List (Bytes × Scalar D))
  object_of [] = none
  object_of (scalar key value ∷ rest) = object_of rest
  object_of (settings key fields ∷ rest) = some fields

  text_member-object_of :
      (key value : Bytes) (rest : List (Member D))
      → object_of (text_member key value ++ rest) ≡ object_of rest
  text_member-object_of key value rest =
      if-elim (λ xs. object_of (xs ++ rest) ≡ object_of rest) (not (is_empty value)) _ _ (λ _. refl)
        (λ _. refl)

  code_members-object_of :
      (e : Event D) (rest : List (Member D)) → object_of (code_members e ++ rest) ≡ object_of rest
  code_members-object_of e rest =
      if-elim (λ xs. object_of (xs ++ rest) ≡ object_of rest) (not (is_empty e.code)) _ _
        (λ _. refl) (λ _. refl)

  seq_member-object_of :
      (seq : Option ℤ) (rest : List (Member D))
      → object_of (seq_member seq ++ rest) ≡ object_of rest
  seq_member-object_of none rest = refl
  seq_member-object_of (some n) rest = refl

  bytes_member-object_of :
      (bytes : Option ℕ) (rest : List (Member D))
      → object_of (bytes_member bytes ++ rest) ≡ object_of rest
  bytes_member-object_of none rest = refl
  bytes_member-object_of (some n) rest = refl

  event_members-object_of :
      (e : Event D) → object_of (event_members e) ≡ object_of (voice_member e.voice)
  unfolding event_members
  event_members-object_of e =
      text_member-object_of (lit "session") e.session _
      ∙ code_members-object_of e _
      ∙ text_member-object_of (lit "message") e.message _
      ∙ seq_member-object_of e.seq _
      ∙ bytes_member-object_of e.bytes _

module _ {V D : Type 0} ⦃d : Double D⦄ (j : Json V D) where
  -- A value that was written as this scalar and read again.
  abbrev pub IsRead : V → Scalar D → Type 0
  IsRead value (str text) = (j.is_str value ≡ true) × (j.get_str value ≡ text)
  IsRead value (flag b) = Unit {0}
  IsRead value (sint n) = (j.is_sint value ≡ true) × (j.get_sint value ≡ n)
  IsRead value (uint n) = (j.is_uint value ≡ true) × (j.get_uint value ≡ n)
  IsRead value (real x) = (j.is_num value ≡ true) × (j.get_num value ≡ x)

  abbrev pub AllRead : V → List (Bytes × Scalar D) → Type 0
  AllRead root [] = Unit {0}
  AllRead root ((key, written) ∷ rest) =
      ((value : V) × (j.obj_get root key ≡ some value) × IsRead value written) × AllRead root rest

  abbrev pub keys_of : List (Bytes × Scalar D) → List Bytes
  keys_of [] = []
  keys_of ((key, written) ∷ rest) = key ∷ keys_of rest

  -- An object that was written with these members and read again.
  pub record IsReadBack (root : V) (fields : List (Bytes × Scalar D)) : Type 0 where
    pub object : j.is_obj root ≡ true
    pub keys : j.obj_keys root ≡ keys_of fields
    pub members : AllRead root fields

  voice_fields-Shows :
      (root : V) (s : VoiceSettings D)
      → IsReadBack root (voice_fields s)
      → IsUsable s
      → PresetKnown (some s.preset)
      → Shows j root s
  voice_fields-Shows root s b u known =
      let (
        (model, model_found, (model_is, model_text)),
        (
          (name, name_found, (name_is, name_text)),
          (
            (speed, speed_found, (speed_is, speed_same)),
            (
              (pitch, pitch_found, (pitch_is, pitch_same)),
              (
                (expression, expression_found, (expression_is, expression_same)),
                ((gain, gain_found, (gain_is, gain_same)), end),
              ),
            ),
          ),
        ),
      ) =
        b.members in
      record {
        object = b.object;
        keys = b.keys;
        model = (
          model,
          model_found,
          model_is,
          model_text ∙ c_str-clean s.model (known_model-clean s.model u.model_known),
          known_model-clean s.model u.model_known,
        );
        preset = (
          name,
          name_found,
          name_is,
          name_text ∙ c_str-clean s.preset (PresetKnown-clean s.preset known),
          PresetKnown-clean s.preset known,
        );
        speed = (speed, speed_found, speed_is, speed_same);
        pitch_semitones = (pitch, pitch_found, pitch_is, pitch_same);
        expression = (expression, expression_found, expression_is, expression_same);
        gain_db = (gain, gain_found, gain_is, gain_same);
      }

  -- The settings that an event shows can be given back: if the object in the event's members is written
  -- and read again, the parser takes it, and its patch turns any settings into exactly those of the
  -- event, which are usable and of a known preset.
  pub event_members-IsReadBack :
      (e : Event D) (s t : VoiceSettings D) (fields : List (Bytes × Scalar D)) (root : V)
      → e.voice ≡ some s
      → object_of (event_members e) ≡ some fields
      → IsReadBack root fields
      → IsUsable s
      → PresetKnown (some s.preset)
      → (patch : VoiceSettingsPatch D) × (parse_object j root ≡ ok patch)
        × (apply_voice_settings_patch t patch ≡ (s, none))
  event_members-IsReadBack e s t fields root shown member back u known =
      parse_object-Shows j root s t
        (voice_fields-Shows root s (subst (IsReadBack root) same back) u known) u known
    where
      same : fields ≡ voice_fields s
      same =
          some-injective
            (sym member ∙ event_members-object_of e ∙ ap (λ v. object_of (voice_member v)) shown)
