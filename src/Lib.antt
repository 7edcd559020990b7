-- ===== src/Lib.antt =====
-- skygraph is a performance monitor for Skyrim: a plugin inside the game samples frames, memory,
-- scripts and events and sends each observation as one line of JSON; a viewer outside the game
-- receives the lines over a named pipe (or reads them from a file) and draws them.
--
-- The way of a record, and the file of each part:
--   * samplers make records. Frame.antt and its children: the hook at the end of every frame, the
--     rolling median, the stutter flagger, the JSON of all three, and the cache of latest values
--     (plugin/src/samplers/frame_sampler.cpp, plugin/src/diagnostics). Cpu.antt: the time per
--     subsystem, the mask of installed hooks and the clocks (plugin/src/samplers/cpu_breakdown.cpp).
--     Hooks.antt: the gates before the engine is patched (plugin/src/samplers/subsystem_hooks.cpp).
--     Attribution.antt: the time per script (plugin/src/samplers/papyrus_attribution.cpp).
--     Config.antt: what is sampled (plugin/src/config). Events.antt: the events of cells, saves and mods
--     (plugin/src/samplers/event_sources.cpp). Samplers.antt and its children: the samplers with a
--     thread of their own, by file memory_sampler.cpp, state_sampler.cpp, streaming_sampler.cpp and
--     papyrus_sampler.cpp of plugin/src/samplers; Samplers/Ticker.antt is the pacing that they share.
--     Crash.antt: the exception handler (plugin/src/crash/seh_handler.cpp).
--   * Plugin.antt starts them and answers the viewer's commands (plugin/src/plugin.cpp: HandleCommand is
--     handle_command, SKSEPluginLoad is load, OnSkseMessage is on_skse_message). Plugin/Records.antt are
--     the JSON values that the plugin builds, Plugin/Decode.antt is what the viewer reads of them.
--     Protocol.antt has the types of the records and their shapes
--     (protocol/include/skygraph/protocol), Protocol/Hello.antt the hello record (EmitHello).
--   * Writer.antt frames a submitted record (WriterThread::Submit), Writer/Loop.antt is the thread
--     (WriterThread::Loop) with what it does with a record in Writer/Sinks.antt, and Ring.antt is the
--     bounded ring between the two (plugin/src/transport/ring_buffer.h): TryPush is try_push, TryPop is
--     try_pop, and Ring/Threads.antt has their loads and stores as separate steps.
--   * Pipe.antt fans it out to the connected viewers and reads their commands
--     (plugin/src/transport/pipe_server.cpp: Broadcast, AcceptorLoop, WriterLoop, HandleClient).
--     Recorder.antt keeps it on disk (plugin/src/transport/rolling_recorder.cpp).
--   * Client.antt is the viewer's end of the pipe (viewer/src/transport/pipe_client.cpp: Loop with its
--     connections and waits), Client/Replay.antt the one of a file
--     (viewer/src/transport/file_source.cpp).
--   * Source.antt cuts the bytes into lines again and queues the records
--     (viewer/src/transport/ndjson_source.cpp: Feed, Drain); Framing.antt has the loop over the lines,
--     which the pipe server shares.
--   * Store.antt and its children are what the viewer keeps of a session
--     (viewer/src/state/telemetry_store.cpp: Ingest, PushCapped, Clear).
--   * App.antt is the window: the change of the source, and what a frame drains and ingests
--     (viewer/src/app.cpp). App/Session.antt puts the way together, from the submitted records to the
--     store; App/Commands.antt follows the commands of the viewer to the handler of the plugin.
--   * Panels.antt: what the panels compute before they draw (viewer/src/panels). The menu in
--     Panels/StatusBar.antt replaces the source of the window.
--
-- Conventions. A function has the name of the code's, in small letters. Records of state are passed
-- on explicitly. Bytes and words are numbers, with the wrap-around of size_t, std::uint64_t and
-- unsigned written out. An exception that leaves a function is an outcome of it. A definition that
-- models code is followed in the code's order, guards and early returns included.
--
-- Bounds and fuel. The loop that rounds the capacity up has 65 rounds, which is enough for every hint
-- that it ends for; the loop over lines has one round more than there are bytes; pruning has one
-- round per file.
--
-- Parameters. nlohmann/json, fmt, zlib, the file system, the pipe handles, the Address Library, the
-- engine's memory, the performance counter, floating point, std::sort, std::partial_sort and
-- std::nth_element are arguments, with what is relied on stated as a hypothesis. std::atomic is taken
-- as sequentially consistent; an operation under one mutex is one step.
--
-- Not modelled: the start and the join of threads, the registration of sinks, hooks and handlers
-- (calls of SKSE and Windows), the search for the video adapter, logging, the widgets and plots of the
-- panels and the set-up of the window (ImGui, ImPlot, Direct3D), the GPU sampler (a stub), the scripts
-- and tools.
pub mod App
pub mod Attribution
pub mod Client
pub mod Config
pub mod Cpu
pub mod Crash
pub mod Events
pub mod Frame
pub mod Framing
pub mod Hooks
pub mod Panels
pub mod Pipe
pub mod Plugin
pub mod Prelude
pub mod Protocol
pub mod Recorder
pub mod Ring
pub mod Samplers
pub mod Source
pub mod Store
pub mod Writer
