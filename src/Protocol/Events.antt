-- ===== src/Protocol/Events.antt =====
-- What an event line says of the strings that it echoes.
use tiny_robotic_voice.Common.{◌≡◌, refl, false, Bytes, [], ◌∷◌, lit, is_empty, has_nul, arith}
use tiny_robotic_voice.Protocol.{event, str, scalar, c_str, event_members}

pub c_str-clean : (text : Bytes) → has_nul text ≡ false → c_str text ≡ text
unfolding c_str has_nul
c_str-clean [] h = refl
c_str-clean (c ∷ rest) h = ground (arith, c_str-clean rest)

-- A session without NUL, as every parsed command has, is echoed whole.
pub event_members-session :
    {D : Type 0} (type session : Bytes)
    → has_nul type ≡ false
    → has_nul session ≡ false
    → is_empty session ≡ false
    → event_members {D = D} (event type session)
      ≡ scalar (lit "type") (str type) ∷ scalar (lit "session") (str session) ∷ []
unfolding event_members
event_members-session type session h k e = rw (e, c_str-clean type h, c_str-clean session k)
