-- ===== src/Lib.antt =====
-- trv, a text-to-speech streamer: a shallow model of the C++ program under src/ and include/trv/.
--
-- The program. `trv stream` reads JSON lines from standard input. The main thread cuts the input
-- into lines, parses each into a command and hands it to the runtime. The runtime keeps one session
-- at a time: text is buffered, cut into phrases and queued as jobs. The synthesis thread takes a job,
-- calls the engine, applies the output gain and hands the audio to the sink. The maintenance thread
-- flushes an idle buffer and reports a finished session. The sink is a queue of audio that the
-- callback of the playback device empties. Every session has a generation, and what belongs to an
-- older generation is dropped everywhere. `trv say` speaks one text.
--
-- Which file models what:
--   Common, Common/Tests, Common/Lists, Common/Int: shared names, results, lists and integers.
--   Double: what the program uses of `double`.
--   Json: the calls of yyjson.
--   Audio, Audio/Gain: include/trv/audio.h (PcmAudio, AudioSink), and apply_output_gain of
--     src/audio_processing.cpp.
--   Chunker: PhraseChunker of src/chunker.cpp; Chunker/Cuts and Chunker/Bounds are its proofs.
--   Output: MiniaudioOutput of src/miniaudio_output.cpp; in Output/, Pending has the abstract view,
--     Invariant the well-formed states, Ready and Play the callback, Blocking enqueue,
--     Opening initialize, Calls and Frame what a callback keeps, Newest the generations it holds,
--     Full that no item is empty, and Trace whole runs of enqueues and callbacks.
--   Voice: src/voice_settings.cpp (presets and patches), Voice/Parse its JSON parser, Voice/Range
--     the proofs on ranges, Voice/Round an object that gives every setting.
--   Protocol: src/protocol.cpp (parse_command and json_event), with its proofs in Protocol/Commands
--     and Protocol/Events, and Protocol/Round for the settings of an event that are given back.
--   Runtime: StreamingRuntime of src/streaming_runtime.cpp, its handlers and its shutdown;
--     Runtime/Jobs: JobQueue; Runtime/Threads: the steps of its two threads. In Runtime/, Accounting
--     has the invariant, Commit the cutting of phrases, Steps the steps, System the interleavings,
--     Sessions the commands, Silence the runtime in front of the output, Stopping the shutdown,
--     Delivery the text from the commands to the synthesis thread, Room a sink with room for what
--     waits, Progress and Ending how a session comes to its end, Tuning, TunedSteps and Device the
--     runtime, the output and the device together, Serving and Concluding what each step keeps while
--     the process serves or shuts down.
--   Stream: `stream` in src/main.cpp; Stream/Lines the bytes of its lines, Stream/Reads its loop over
--     reads of at most 4096 bytes, Stream/Keeping what the loop keeps, Stream/Handled what a line
--     does, Stream/Causes what ends the loop, Stream/Life how the process ends.
--   Say: `say` in src/main.cpp; Say/Playing that it plays, Say/Honesty what its exit code tells.
--   Doctor: `doctor`, print_usage and the exit codes of main; Doctor/Exits what doctor foretells.
--   Engine: src/flite_engine.cpp, with each call that registers a voice or gives it back, the
--     features from the settings, and the copy of the wave; Engine/Registering what stays registered.
--   Cli, Cli/Options: parse_voice_cli, load_voice_settings and main of src/main.cpp.
--   Tests: runs at concrete inputs.
--
-- State and threads. A method that runs under a mutex is one step on a record of the state. The
-- synthesis loop is cut where it takes a lock, reads the generation or updates a counter. Its updates
-- of atomic counters commute with the handlers, so the handlers are whole steps. `shutdown` is three
-- steps: up to the lock, under the lock, and the stop of the queue; the other threads run in between
-- and until they are joined, and a round of the maintenance thread may begin before `stopping` is set
-- and take the lock behind it. A handler's events are appended to a list, and the clock is an
-- argument. In the runtime a try of `enqueue` is two steps, the tests without
-- the lock and the push under it, and every other thread may run in between: stale audio can get in
-- behind an interrupt. Where `enqueue` is run as a whole, for `say`, both are one round, since only
-- the callback runs beside it, which changes nothing that is tested; the round takes a list of what
-- the other threads do while it sleeps, and so do the loop of `say` and, before each of its rounds, the reading loop of `stream`. The destination of the callback is the list of the frames written so far, over
-- the zeros of memset.
--
-- Numbers. `size_t` and `uint64_t` wrap at 2 ^ 64. Samples are integers. A `double` is an abstract type
-- whose literals are whole hundredths; where a proof compares literals it assumes that they are
-- finite and keep their order (`HasLiterals`), which the type of hundredths meets.
--
-- Fuel. The callback's loop has the length of the queue and 2: each round uses up an item or fills
-- the destination. The loop of commit_available_locked has the length of the buffer and 1: each round
-- but the last shortens the buffer. The searches of the chunker have the number of bytes that are
-- left. Other loops are recursions on a list.
--
-- Parameters: yyjson, Flite, miniaudio, the arithmetic of `double`, pow and llround, strtod, the file
-- system, whether the platform is supported and whether `pipe` succeeds, and what poll and read give,
-- as rounds of the reading loop.
-- Not modelled: the signal handler and the set-up of descriptors, exceptions of the standard library
-- (memory, threads, locks), the standard error of `main` but for `say`, and the vendored libraries.
mod Common
pub mod Double
pub mod Json
pub mod Audio
pub mod Chunker
pub mod Output
pub mod Voice
pub mod Protocol
pub mod Runtime
pub mod Stream
pub mod Say
pub mod Doctor
pub mod Engine
pub mod Cli
mod Tests
