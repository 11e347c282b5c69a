-- ===== src/Stream/Handled.antt =====
-- The lines of `stream` in src/main.cpp: what each keeps of a serving runtime, and which stop the loop.
use tiny_robotic_voice.Common.{ℕ, ◌≡◌, refl, false, Bytes, arith, ok, err}
use tiny_robotic_voice.Double.{Double}
use tiny_robotic_voice.Json.{Json}
use tiny_robotic_voice.Audio.{AudioSink}
use tiny_robotic_voice.Protocol.{
  Command, CommandType, start, append, finish, interrupt, shutdown, Parsed, Event, parse_command,
}
use tiny_robotic_voice.Runtime.{Runtime, handle, handle_type}
use tiny_robotic_voice.Runtime.Serving.{IsServing, emit-IsServing, handle-IsServing}
use tiny_robotic_voice.Stream.{dispatch_line, handle_line, reject_line}

module _ {V D S : Type 0} ⦃d : Double D⦄ (j : Json V D) (sink : AudioSink S)
    (clock : Runtime D S → ℕ) (ready : Event D) where
  dispatch_line-IsServing :
      (parsed : Parsed (Command D)) (r : Runtime D S)
      → IsServing ready r
      → IsServing ready (dispatch_line j sink clock parsed r).0
  unfolding dispatch_line
  dispatch_line-IsServing (ok command) r s = handle-IsServing sink ready (clock r) command r s
  dispatch_line-IsServing (err e) r s = emit-IsServing sink ready _ r s

  pub handle_line-IsServing :
      (line : Bytes) (r : Runtime D S)
      → IsServing ready r
      → IsServing ready (handle_line j sink clock line r).0
  unfolding handle_line
  handle_line-IsServing line r s = dispatch_line-IsServing (parse_command j line) r s

  pub reject_line-IsServing :
      (r : Runtime D S) → IsServing ready r → IsServing ready (reject_line j sink clock r)
  unfolding reject_line
  reject_line-IsServing r s = emit-IsServing sink ready _ r s

module _ {V D : Type 0} ⦃d : Double D⦄ (j : Json V D) where
  -- The line is a `shutdown` command.
  abbrev pub IsShutdown : Bytes → Type 0
  IsShutdown line =
      (command : Command D) × (parse_command j line ≡ ok command) × (command.type ≡ shutdown)

  handle_type-stops :
      {S : Type 0} (sink : AudioSink S) (t : CommandType) (now : ℕ) (c : Command D)
      (r : Runtime D S)
      → (handle_type sink t now c r).1 ≡ false
      → t ≡ shutdown
  unfolding handle_type
  handle_type-stops sink start now c r h = ground arith
  handle_type-stops sink append now c r h = ground arith
  handle_type-stops sink finish now c r h = ground arith
  handle_type-stops sink interrupt now c r h = ground arith
  handle_type-stops sink shutdown now c r h = refl

  dispatch_line-stops :
      {S : Type 0} (sink : AudioSink S) (clock : Runtime D S → ℕ) (parsed : Parsed (Command D))
      (r : Runtime D S)
      → (dispatch_line j sink clock parsed r).1 ≡ false
      → (command : Command D) × (parsed ≡ ok command) × (command.type ≡ shutdown)
  unfolding dispatch_line handle
  dispatch_line-stops sink clock (ok command) r h =
      (command, refl, handle_type-stops sink command.type (clock r) command r h)
  dispatch_line-stops sink clock (err e) r h = ground arith

  pub handle_line-stops :
      {S : Type 0} (sink : AudioSink S) (clock : Runtime D S → ℕ) (line : Bytes) (r : Runtime D S)
      → (handle_line j sink clock line r).1 ≡ false
      → IsShutdown line
  unfolding handle_line
  handle_line-stops sink clock line r h = dispatch_line-stops sink clock (parse_command j line) r h
