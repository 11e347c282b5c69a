-- ===== src/Protocol.antt =====
-- include/trv/protocol.h and src/protocol.cpp: commands from JSON lines, and events to JSON lines.
pub mod Commands
pub mod Events
pub mod Round
use tiny_robotic_voice.Common.{
  ℕ, ◌*◌, ◌-◌, ◌^◌, ◌≡◌, Bool, true, false, not, ◌&&◌, ◌||◌, Option, none, some, Bytes, List, [],
  ◌∷◌, ◌++◌, lit, eqb, ℤ, pos, length, is_empty, leb, has_nul, Result, ok, err, ◌>>=◌, ◌>>◌, guard,
  or_fail, ◌==◌, if◌then◌else◌,
}
use tiny_robotic_voice.Double.{Double}
use tiny_robotic_voice.Json.{Json}
use tiny_robotic_voice.Voice.{VoiceSettings, VoiceSettingsPatch, no_patch}
use tiny_robotic_voice.Voice.Parse.{parse_voice_settings_json}

pub data CommandType : Type 0 where
  start append finish interrupt shutdown : CommandType

pub record Command (D : Type 0) : Type 0 where
  pub type : CommandType
  pub session : Bytes
  pub text : Bytes
  pub seq : Option ℤ
  pub voice : VoiceSettingsPatch D

abbrev pub maximum_protocol_line_bytes : ℕ
maximum_protocol_line_bytes = 1024 * 1024

-- `fail`: the code and the message of a `ParseResult` with no command.
pub record Failure : Type 0 where
  pub code : Bytes
  pub message : Bytes

abbrev pub Parsed : Type 0 → Type 0
Parsed A = Result Failure A

abbrev pub failure : Bytes → Bytes → Failure
failure code message = record { code = code; message = message }

abbrev pub from_voice : {A : Type 0} → Result Bytes A → Parsed A
from_voice (ok a) = ok a
from_voice (err message) = err (failure (lit "invalid_voice_settings") message)

module _ {V D : Type 0} ⦃d : Double D⦄ (j : Json V D) where
  unfoldable pub get_string : V → Bytes → Option Bytes
  get_string object key = elim (j.obj_get object key) [
    | none ↦ none
    | some value ↦
        if j.is_str value && not (has_nul (j.get_str value)) then some (j.get_str value) else none
  ]

  -- The optional 'voice' of a start.
  pub parse_voice_value : V → Parsed (VoiceSettingsPatch D)
  parse_voice_value voice = do
    guard (j.is_obj voice)
        (failure (lit "invalid_voice_settings") (lit "Optional field 'voice' must be an object."))
    encoded ←
        or_fail (j.write voice)
          (failure (lit "invalid_voice_settings") (lit "Voice settings could not be decoded."))
    from_voice (parse_voice_settings_json j encoded)

  pub parse_voice : V → Parsed (VoiceSettingsPatch D)
  parse_voice root = elim (j.obj_get root (lit "voice")) [
    | none ↦ ok (no_patch D)
    | some voice ↦ parse_voice_value voice
  ]

  abbrev pub plain : CommandType → Bytes → Command D
  plain type session = record {
    type = type;
    session = session;
    text = [];
    seq = none;
    voice = no_patch D;
  }

  -- The branches on the type, for a session that has been read.
  unfoldable pub parse_typed : V → Bytes → Bytes → Parsed (Command D)
  parse_typed root type session =
      if eqb type (lit "start")
      then (do voice ← parse_voice root; ok (record (plain start session) { voice = voice }))
      else if eqb type (lit "append")
      then (do
        text ←
            or_fail (get_string root (lit "text"))
              (failure (lit "missing_field") (lit "Field 'text' must be a string."))
        ok (record (plain append session) { text = text }))
      else if eqb type (lit "finish")
      then ok (plain finish session)
      else if eqb type (lit "interrupt")
      then ok (plain interrupt session)
      else err (failure (lit "unknown_type") (lit "Unknown protocol message type."))

  unfoldable pub parse_session : V → Parsed Bytes
  parse_session root = do
    session ←
        or_fail (get_string root (lit "session"))
          (failure (lit "missing_field") (lit "Field 'session' must be a non-empty string."))
    guard (not (is_empty session))
        (failure (lit "missing_field") (lit "Field 'session' must be a non-empty string."))
    ok session

  unfoldable pub parse_body : V → Bytes → Parsed (Command D)
  parse_body root type =
      if eqb type (lit "shutdown")
      then ok (plain shutdown [])
      else (do session ← parse_session root; parse_typed root type session)

  unfoldable pub parse_seq : V → Parsed (Option ℤ)
  parse_seq root = elim (j.obj_get root (lit "seq")) [
    | none ↦ ok none
    | some seq ↦
        if j.is_sint seq
        then ok (some (j.get_sint seq))
        else if j.is_uint seq && leb (j.get_uint seq) (2 ^ 63 - 1)
        then ok (some (pos (j.get_uint seq)))
        else err (failure (lit "invalid_field") (lit "Optional field 'seq' must be an integer."))
  ]

  unfoldable pub parse_root : V → Parsed (Command D)
  parse_root root = do
    guard (j.is_obj root)
        (failure (lit "invalid_message") (lit "Protocol message must be a JSON object."))
    type ←
        or_fail (get_string root (lit "type"))
          (failure (lit "missing_field") (lit "Field 'type' must be a string."))
    command ← parse_body root type
    seq ← parse_seq root
    ok (record command { seq = seq })

  unfoldable pub parse_command : Bytes → Parsed (Command D)
  parse_command line = do
    guard (leb (length line) maximum_protocol_line_bytes)
        (failure (lit "line_too_large") (lit "Protocol line exceeds the 1 MiB limit."))
    root ← or_fail (j.read line) (failure (lit "invalid_json") (lit "Input is not valid JSON."))
    parse_root root

-- The arguments of `json_event`; `bytes` and `seq` are optional, `voice` is a pointer.
pub record Event (D : Type 0) : Type 0 where
  pub type : Bytes
  pub session : Bytes
  pub code : Bytes
  pub message : Bytes
  pub recoverable : Bool
  pub seq : Option ℤ
  pub bytes : Option ℕ
  pub voice : Option (VoiceSettings D)

-- An event with the default arguments.
abbrev pub event : {D : Type 0} → Bytes → Bytes → Event D
event type session = record {
  type = type;
  session = session;
  code = [];
  message = [];
  recoverable = false;
  seq = none;
  bytes = none;
  voice = none;
}

pub data Scalar (D : Type 0) : Type 0 where
  str : Bytes → Scalar D
  flag : Bool → Scalar D
  sint : ℤ → Scalar D
  uint : ℕ → Scalar D
  real : D → Scalar D

-- A member of the event's object: a scalar, or the object of the voice settings.
pub data Member (D : Type 0) : Type 0 where
  scalar : Bytes → Scalar D → Member D
  settings : Bytes → List (Bytes × Scalar D) → Member D

-- What a C string holds of a `std::string`.
pub c_str : Bytes → Bytes
c_str [] = []
c_str (c ∷ text) = if c == 0 then [] else c ∷ c_str text

module _ {D : Type 0} where
  abbrev pub text_member : Bytes → Bytes → List (Member D)
  text_member key value = if not (is_empty value) then scalar key (str (c_str value)) ∷ [] else []

  abbrev pub code_members : Event D → List (Member D)
  code_members e =
      if not (is_empty e.code)
      then scalar (lit "code") (str (c_str e.code))
        ∷ scalar (lit "recoverable") (flag e.recoverable)
        ∷ []
      else []

  abbrev pub seq_member : Option ℤ → List (Member D)
  seq_member none = []
  seq_member (some n) = scalar (lit "seq") (sint n) ∷ []

  abbrev pub bytes_member : Option ℕ → List (Member D)
  bytes_member none = []
  bytes_member (some n) = scalar (lit "bytes") (uint n) ∷ []

  -- The members of the object `voice`.
  abbrev pub voice_fields : VoiceSettings D → List (Bytes × Scalar D)
  voice_fields v =
      (lit "model", str (c_str v.model))
      ∷ (lit "preset", str (c_str v.preset))
      ∷ (lit "speed", real v.speed)
      ∷ (lit "pitch_semitones", real v.pitch_semitones)
      ∷ (lit "expression", real v.expression)
      ∷ (lit "gain_db", real v.gain_db)
      ∷ []

  abbrev pub voice_member : Option (VoiceSettings D) → List (Member D)
  voice_member none = []
  voice_member (some v) = settings (lit "voice") (voice_fields v) ∷ []

  unfoldable pub event_members : Event D → List (Member D)
  event_members e =
      scalar (lit "type") (str (c_str e.type))
      ∷ (text_member (lit "session") e.session
          ++ (code_members e
              ++ (text_member (lit "message") e.message
                  ++ (seq_member e.seq ++ (bytes_member e.bytes ++ voice_member e.voice)))))

  -- `encode` is `yyjson_mut_write`.
  unfoldable pub json_event : (List (Member D) → Option Bytes) → Event D → Bytes
  json_event encode e = elim (encode (event_members e)) [
    | none ↦ lit "{\"type\":\"error\",\"code\":\"internal_error\",\"recoverable\":false}"
    | some encoded ↦ encoded
  ]
