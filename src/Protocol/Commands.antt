-- ===== src/Protocol/Commands.antt =====
-- What `parse_command` lets through to the runtime.
use tiny_robotic_voice.Common.{
  ◌≡◌, ◌≤◌, refl, ◌⊎◌, inl, inr, false, not, none, some, Bytes, [], lit, eqb, length, is_empty, leb,
  leb→le, has_nul, Result, ok, err, >>=-eq-ok, guard-ok, or_fail, or_fail-ok, arith, subst,
  ok-injective, if-elim, Option-cases,
}
use tiny_robotic_voice.Double.{Double, HasLiterals}
use tiny_robotic_voice.Json.{Json}
use tiny_robotic_voice.Voice.{
  VoiceSettings, VoiceSettingsPatch, no_patch, apply_voice_settings_patch,
}
use tiny_robotic_voice.Voice.Range.{IsUsable, apply_voice_settings_patch-accepts}
use tiny_robotic_voice.Voice.Parse.{parse_voice_settings_json-accepted}
use tiny_robotic_voice.Protocol.{
  CommandType, finish, interrupt, shutdown, Command, Parsed, plain, parse_voice_value, from_voice,
  get_string, parse_voice, parse_typed, parse_session, parse_body, parse_seq, parse_root,
  parse_command, maximum_protocol_line_bytes,
}

module _ {D : Type 0} ⦃d : Double D⦄ where
  -- Every patch of this kind is accepted by usable settings.
  abbrev pub AlwaysAccepted : VoiceSettingsPatch D → Type 0
  AlwaysAccepted p = (s : VoiceSettings D) → IsUsable s → (apply_voice_settings_patch s p).1 ≡ none

  -- A command that names a session, unless it is a shutdown; whose texts have no NUL; and whose
  -- voice settings will be accepted.
  pub record IsWellFormed (c : Command D) : Type 0 where
    pub named : (c.type ≡ shutdown) ⊎ (is_empty c.session ≡ false)
    pub session_clean : has_nul c.session ≡ false
    pub text_clean : has_nul c.text ≡ false
    pub voice_accepted : AlwaysAccepted c.voice

module _ {V D : Type 0} ⦃d : Double D⦄ (j : Json V D) (l : HasLiterals D) where
  get_string-clean :
      (object : V) (key text : Bytes) → get_string j object key ≡ some text → has_nul text ≡ false
  unfolding get_string
  get_string-clean object key text h = ground arith

  no_patch-AlwaysAccepted : AlwaysAccepted (no_patch D)
  no_patch-AlwaysAccepted s u = (apply_voice_settings_patch-accepts l s (no_patch D) u).1 (record {
    preset_known = tt;
    model_known = refl;
    speed_in = tt;
    pitch_in = tt;
    expression_in = tt;
    gain_in = tt;
  })

  from_voice-ok :
      (r : Result Bytes (VoiceSettingsPatch D)) (p : VoiceSettingsPatch D)
      → from_voice r ≡ ok p
      → r ≡ ok p
  from_voice-ok (ok q) p h = ground arith
  from_voice-ok (err e) p h = cc

  parse_voice_value-AlwaysAccepted :
      (voice : V) (p : VoiceSettingsPatch D) → parse_voice_value j voice ≡ ok p → AlwaysAccepted p
  unfolding parse_voice_value
  parse_voice_value-AlwaysAccepted voice p h =
      let (object, h₁) = guard-ok (j.is_obj voice) _ _ h in
      let (encoded, _, h₂) = >>=-eq-ok (or_fail (j.write voice) _) _ h₁ in
      (parse_voice_settings_json-accepted j l encoded p (from_voice-ok _ p h₂)).2

  parse_voice-AlwaysAccepted :
      (root : V) (p : VoiceSettingsPatch D) → parse_voice j root ≡ ok p → AlwaysAccepted p
  unfolding parse_voice
  parse_voice-AlwaysAccepted root p h = elim (Option-cases (j.obj_get root (lit "voice"))) [
    | inl missing ↦
        let e : no_patch D ≡ p = ground arith in subst AlwaysAccepted e no_patch-AlwaysAccepted
    | inr (voice, found) ↦ parse_voice_value-AlwaysAccepted voice p (ground arith)
  ]

  parse_session-clean :
      (root : V) (session : Bytes)
      → parse_session j root ≡ ok session
      → (is_empty session ≡ false) × (has_nul session ≡ false)
  unfolding parse_session
  parse_session-clean root session h =
      let (read, found, h₁) = >>=-eq-ok (or_fail (get_string j root (lit "session")) _) _ h in
      let clean : has_nul read ≡ false =
        get_string-clean root (lit "session") read (or_fail-ok _ _ found) in
      let (nonempty, h₂) = guard-ok (not (is_empty read)) _ _ h₁ in ground arith

  -- What holds of every command that a parser gives.
  abbrev Ensures : (Command D → Type 0) → Parsed (Command D) → Type 0
  Ensures P r = (c : Command D) → r ≡ ok c → P c

  plain-IsWellFormed :
      (type : CommandType) (session : Bytes)
      → (type ≡ shutdown) ⊎ (is_empty session ≡ false)
      → has_nul session ≡ false
      → IsWellFormed (plain j type session)
  unfolding has_nul
  plain-IsWellFormed type session h k = record {
    named = h;
    session_clean = k;
    text_clean = refl;
    voice_accepted = no_patch-AlwaysAccepted;
  }

  parse_typed-IsWellFormed :
      (root : V) (type session : Bytes)
      → is_empty session ≡ false
      → has_nul session ≡ false
      → Ensures IsWellFormed (parse_typed j root type session)
  unfolding parse_typed has_nul
  parse_typed-IsWellFormed root type session h k =
      if-elim (Ensures IsWellFormed) (eqb type (lit "start")) _ _
        (λ _ c e.
          let (voice, found, last) = >>=-eq-ok (parse_voice j root) _ e in
          subst IsWellFormed (ok-injective last) (record {
            named = inr h;
            session_clean = k;
            text_clean = refl;
            voice_accepted = parse_voice-AlwaysAccepted root voice found;
          }))
        (λ _.
          if-elim (Ensures IsWellFormed) (eqb type (lit "append")) _ _
            (λ _ c e.
              let (text, found, last) =
                >>=-eq-ok (or_fail (get_string j root (lit "text")) _) _ e in
              subst IsWellFormed (ok-injective last) (record {
                named = inr h;
                session_clean = k;
                text_clean = get_string-clean root (lit "text") text (or_fail-ok _ _ found);
                voice_accepted = no_patch-AlwaysAccepted;
              }))
            (λ _.
              if-elim (Ensures IsWellFormed) (eqb type (lit "finish")) _ _
                (λ _ c e.
                  subst IsWellFormed (ok-injective e) (plain-IsWellFormed finish session (inr h) k))
                (λ _.
                  if-elim (Ensures IsWellFormed) (eqb type (lit "interrupt")) _ _
                    (λ _ c e.
                      subst IsWellFormed (ok-injective e)
                        (plain-IsWellFormed interrupt session (inr h) k))
                    (λ _ c e. cc))))

  parse_body-IsWellFormed :
      (root : V) (type : Bytes) → Ensures IsWellFormed (parse_body j root type)
  unfolding parse_body has_nul
  parse_body-IsWellFormed root type =
      if-elim (Ensures IsWellFormed) (eqb type (lit "shutdown")) _ _
        (λ _ c e.
          subst IsWellFormed (ok-injective e) (plain-IsWellFormed shutdown [] (inl refl) refl))
        (λ _ c e.
          let (session, found, last) = >>=-eq-ok (parse_session j root) _ e in
          let (nonempty, clean) = parse_session-clean root session found in
          parse_typed-IsWellFormed root type session nonempty clean c last)

  -- A line that is parsed has at most 1 MiB, and its command is well formed: the session has a name
  -- (a shutdown needs none) without NUL, the text has no NUL, and the voice settings are accepted by
  -- all usable settings.
  pub parse_command-IsWellFormed :
      (line : Bytes) (c : Command D)
      → parse_command j line ≡ ok c
      → (length line ≤ 1048576) × IsWellFormed c
  unfolding parse_command parse_root
  parse_command-IsWellFormed line c h =
      let (small, h₁) = guard-ok (leb (length line) maximum_protocol_line_bytes) _ _ h in
      let (root, _, h₂) = >>=-eq-ok (or_fail (j.read line) _) _ h₁ in
      let (_, h₃) = guard-ok (j.is_obj root) _ _ h₂ in
      let (type, _, h₄) = >>=-eq-ok (or_fail (get_string j root (lit "type")) _) _ h₃ in
      let (command, body, h₅) = >>=-eq-ok (parse_body j root type) _ h₄ in
      let (seq, _, h₆) = >>=-eq-ok (parse_seq j root) _ h₅ in
      let w : IsWellFormed command = parse_body-IsWellFormed root type command body in
      (
        leb→le _ _ small,
        subst IsWellFormed (ok-injective h₆) (record {
          named = w.named;
          session_clean = w.session_clean;
          text_clean = w.text_clean;
          voice_accepted = w.voice_accepted;
        }),
      )
