-- ===== src/Plugin/Saved.antt =====
-- A saved session from the command to the viewer: `HandleCommand` (plugin/src/plugin.cpp), the pin of
-- the recorder, and the branch of the acknowledgement in `Ingest`
-- (viewer/src/state/telemetry_store.cpp).
use skygraph.Prelude.{
  ℕ, ◌+◌, ◌%◌, ◌^◌, ◌≡◌, refl, ap, ◌∙◌, String, some, List, [], ◌∷◌, ◌++◌, false, if◌then◌else◌,
}
use text.Mathlib.Text.{◌==◌}
use skygraph.Framing.{Text}
use skygraph.Recorder.{RollingRecorder, Files, pin_current}
use skygraph.Plugin.{
  Globals, ack, submit_dump, acknowledge, save_session, run_command, handle_command,
}
use skygraph.Plugin.Records.{Value, PluginJson, lookup}
use skygraph.Plugin.Decode.{Decodes, string_of-str}
use skygraph.Store.{TelemetryStore}
use skygraph.Store.Json.{Json, string_of}
use skygraph.Store.Decode.{Arg}
use skygraph.Store.Ingest.{done, ingest, ingest_ack, kind_of, route}

module _ {D J F D' : Type 0} (view : Json J F D') (of : Value D → J) (float : D → F)
    (double : D → D') (decodes : Decodes view of float double) where
  module _ (format : String → List (Arg F) → String) (now : D) (path : String)
      (named : (path == "") ≡ false) (store : TelemetryStore J F D') (time : ℕ) where
    abbrev counted : TelemetryStore J F D'
    counted = record store { total_records = (store.total_records + 1) % 2 ^ 64 }

    -- The branch of the acknowledgement, with the two members that it reads.
    abbrev saving : String → String → TelemetryStore J F D'
    saving cmd p =
        if cmd == "save_session"
        then (if p == ""
            then counted
            else record counted { last_saved_path = some p; last_saved_at = time })
        else counted

    saving_path :
        saving "save_session" path
        ≡ record counted { last_saved_path = some path; last_saved_at = time }
    saving_path = rw named refl

    ack-ingest :
        ingest view format store (of (ack now path)) time
        ≡ done (record counted { last_saved_path = some path; last_saved_at = time })
    unfolding ingest route ingest_ack lookup
    ack-ingest =
        ap (λ t. route view format counted (of (ack now path)) time t (kind_of t))
          (string_of-str view of float double decodes _ "type" "ack" refl)
        ∙ ap done (
            ap (λ f. saving f (string_of view (of (ack now path)) "path"))
              (string_of-str view of float double decodes _ "for_cmd" "save_session" refl)
            ∙ ap (saving "save_session")
                (string_of-str view of float double decodes _ "path" path refl)
            ∙ saving_path)

module _ {D J P W : Type 0} (json : PluginJson D J P) (bytes : String → Text) (fs : Files P W) where
  -- The reply to a pin that succeeded.
  save_session-ack :
      (s : Globals P W) (now : D) (steady stamp later : ℕ) (name : String) (r : RollingRecorder P W)
      (p : P) (path out : String)
      → s.recorder ≡ some r
      → (pin_current fs r (bytes name) steady stamp later).0 ≡ some p
      → json.path_string p ≡ some path
      → json.dump (ack now path) ≡ some out
      → save_session json bytes fs s now steady stamp later name ≡ record {
        recorder = some (pin_current fs r (bytes name) steady stamp later).1;
        submitted = s.submitted ++ out ∷ [];
      }
  unfolding save_session acknowledge submit_dump
  save_session-ack s now steady stamp later name r p path out e f g h =
      rw (e, f, g, h, save_session, acknowledge, submit_dump) refl

  handle_command-save :
      (s : Globals P W) (now : D) (steady stamp later : ℕ) (line : String) (j : J) (name : String)
      → json.parse line ≡ some j
      → json.value j "cmd" "" ≡ some "save_session"
      → json.value j "name" "session" ≡ some name
      → handle_command json bytes fs s now steady stamp later line
        ≡ save_session json bytes fs s now steady stamp later name
  unfolding handle_command run_command
  handle_command-save s now steady stamp later line j name e f g =
      rw (e, f, g, handle_command, run_command) refl

-- A command to save the session, while a recorder runs whose pin succeeds (at a path that has a
-- text, which the JSON library writes): one acknowledgement is submitted, and the store of a viewer
-- that ingests it shows that path as the last saved one. Relied on: what was written as a string
-- member of an object is found and read as that string.
pub save_session-saved :
    {D J P W J' F D' : Type 0} (json : PluginJson D J P) (bytes : String → Text) (fs : Files P W)
    (view : Json J' F D') (of : Value D → J') (float : D → F) (double : D → D')
    (decodes : Decodes view of float double) (format : String → List (Arg F) → String)
    (s : Globals P W) (now : D) (steady stamp later : ℕ) (line : String) (j : J)
    (name path out : String) (r : RollingRecorder P W) (p : P) (store : TelemetryStore J' F D')
    (time : ℕ)
    → json.parse line ≡ some j
    → json.value j "cmd" "" ≡ some "save_session"
    → json.value j "name" "session" ≡ some name
    → s.recorder ≡ some r
    → (pin_current fs r (bytes name) steady stamp later).0 ≡ some p
    → json.path_string p ≡ some path
    → (path == "") ≡ false
    → json.dump (ack now path) ≡ some out
    → ((handle_command json bytes fs s now steady stamp later line).submitted
        ≡ s.submitted ++ out ∷ [])
      × (ingest view format store (of (ack now path)) time
          ≡ done (record store {
            total_records = (store.total_records + 1) % 2 ^ 64;
            last_saved_path = some path;
            last_saved_at = time;
          }))
save_session-saved {P = P} {W = W} json bytes fs view of float double decodes format s now steady
      stamp later line j name path out r p store time hp hc hn hr pin hs ne hd =
    (
      ap (λ (g : Globals P W). g.submitted)
          (handle_command-save json bytes fs s now steady stamp later line j name hp hc hn
            ∙ save_session-ack json bytes fs s now steady stamp later name r p path out hr pin hs
                hd),
      ack-ingest view of float double decodes format now path ne store time,
    )
