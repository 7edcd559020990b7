-- ===== src/Plugin/Commands.antt =====
-- What `HandleCommand` (plugin/src/plugin.cpp) answers, and what the viewer's store makes of it
-- (viewer/src/state/telemetry_store.cpp).
use skygraph.Prelude.{
  ℕ, ◌≡◌, ◌⊎◌, inl, inr, refl, String, Option, none, some, [], ◌∷◌, ◌++◌, Option-all, if-all,
}
use text.Mathlib.Text.{◌==◌}
use skygraph.Framing.{Text}
use skygraph.Recorder.{RollingRecorder, Files, pin_current}
use skygraph.Plugin.{
  Globals, ack, ping_reply, submit_dump, acknowledge, save_session, run_command, handle_command,
}
use skygraph.Plugin.Records.{Value, PluginJson}

module _ {D J P W : Type 0} (json : PluginJson D J P) (bytes : String → Text) (fs : Files P W) where
  -- One command later: at most one line more, and the recorder is as it was or as PinCurrent left it.
  abbrev pub Answered : Globals P W → Globals P W → Type 0
  Answered s s' =
      ((s'.submitted ≡ s.submitted) ⊎ ((line : String) × (s'.submitted ≡ s.submitted ++ line ∷ [])))
      × ((s'.recorder ≡ s.recorder)
          ⊎ ((r : RollingRecorder P W) × (name : Text) × (t : ℕ × ℕ × ℕ) × (s.recorder ≡ some r)
              × (s'.recorder ≡ some (pin_current fs r name t.0 t.1 t.2).1)))

  unchanged : (s : Globals P W) → Answered s s
  unchanged s = (inl refl, inl refl)

  -- A reply to a command that left the recorder alone.
  abbrev Replied : Globals P W → Globals P W → Type 0
  Replied s s' =
      ((s'.submitted ≡ s.submitted) ⊎ ((line : String) × (s'.submitted ≡ s.submitted ++ line ∷ [])))
      × (s'.recorder ≡ s.recorder)

  submit_dump-Replied : (s : Globals P W) (v : Value D) → Replied s (submit_dump json s v)
  unfolding submit_dump
  submit_dump-Replied s v =
      Option-all (Replied s) (json.dump v) s
        (λ line. record s { submitted = s.submitted ++ line ∷ [] }) (inl refl, refl)
        (λ line e. (inr (line, refl), refl))

  acknowledge-Replied :
      (s : Globals P W) (now : D) (p : Option P) → Replied s (acknowledge json bytes fs s now p)
  unfolding acknowledge
  acknowledge-Replied s now none = (inl refl, refl)
  acknowledge-Replied s now (some p) =
      Option-all (Replied s) (json.path_string p) s (λ path. submit_dump json s (ack now path))
        (inl refl, refl) (λ path e. submit_dump-Replied s (ack now path))

  save_session-Answered :
      (s : Globals P W) (now : D) (steady stamp later : ℕ) (name : String)
      → Answered s (save_session json bytes fs s now steady stamp later name)
  unfolding save_session
  save_session-Answered s now steady stamp later name =
      Option-all (Answered s) (s.recorder) s
        (λ r.
          acknowledge json bytes fs
            (record s { recorder = some (pin_current fs r (bytes name) steady stamp later).1 }) now
            (pin_current fs r (bytes name) steady stamp later).0)
        (unchanged s)
        (λ r e.
          let (a, b) =
            acknowledge-Replied
              (record s { recorder = some (pin_current fs r (bytes name) steady stamp later).1 })
              now (pin_current fs r (bytes name) steady stamp later).0 in
          (a, inr (r, bytes name, (steady, stamp, later), e, b)))

  run_command-Answered :
      (s : Globals P W) (now : D) (steady stamp later : ℕ) (j : J) (cmd : String)
      → Answered s (run_command json bytes fs s now steady stamp later j cmd)
  unfolding run_command
  run_command-Answered s now steady stamp later j cmd =
      if-all (Answered s) (cmd == "ping") (submit_dump json s (ping_reply now)) _
        (let (a, b) = submit_dump-Replied s (ping_reply now) in (a, inl b))
        (if-all (Answered s) (cmd == "save_session") _ s
          (Option-all (Answered s) (json.value j "name" "session") s
            (λ name. save_session json bytes fs s now steady stamp later name) (unchanged s)
            (λ name e. save_session-Answered s now steady stamp later name))
          (unchanged s))

  -- Whatever line a viewer sends, well-formed or not: at most one line is submitted in reply, and the
  -- recorder stays as it is, or is left as one call of PinCurrent leaves it.
  pub handle_command-Answered :
      (s : Globals P W) (now : D) (steady stamp later : ℕ) (line : String)
      → Answered s (handle_command json bytes fs s now steady stamp later line)
  unfolding handle_command
  handle_command-Answered s now steady stamp later line =
      Option-all (Answered s) (json.parse line) s
        (λ j. elim (json.value j "cmd" "") [
          | none ↦ s
          | some cmd ↦ run_command json bytes fs s now steady stamp later j cmd
        ])
        (unchanged s)
        (λ j e.
          Option-all (Answered s) (json.value j "cmd" "") s
            (λ cmd. run_command json bytes fs s now steady stamp later j cmd) (unchanged s)
            (λ cmd e. run_command-Answered s now steady stamp later j cmd))
