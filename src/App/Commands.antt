-- ===== src/App/Commands.antt =====
-- The commands of a viewer on their way to the plugin: the callback of the status bar
-- (viewer/src/app.cpp), `PipeClient::SendCommand` (viewer/src/transport/pipe_client.cpp) and
-- `HandleClient` (plugin/src/transport/pipe_server.cpp).
use mathlib.Core.List.{foldl}
use skygraph.Prelude.{
  String, map, Option, none, ℕ, ◌≡◌, refl, ap, ◌∙◌, Bool, some, List, [], ◌∷◌, ◌++◌, All,
  append_assoc,
}
use skygraph.Framing.{Text, newline}
use skygraph.Framing.Lines.{NoNewline, split, split_nil, split-line}
use skygraph.Source.Stream.{framed}
use skygraph.Writer.{ends_line-NoNewline}
use skygraph.Client.{PipeClient, command_bytes, send_command}
use skygraph.Pipe.{Read, command_line, handle_client}
use skygraph.Pipe.Commands.{Complete, bytes_of, handle_client_lem}
use skygraph.Plugin.Records.{Value}
use skygraph.App.{App, live, save_command, save_session}

-- A command as JSON is dumped: not empty, and no newline in it.
abbrev pub Command : Text → Type 0
Command [] = ⊥
Command (b ∷ line) = NoNewline (b ∷ line)

command_bytes_lem : (line : Text) → Command line → command_bytes line ≡ line ++ newline ∷ []
unfolding command_bytes
command_bytes_lem [] h = absurd h
command_bytes_lem (b ∷ line) h = rw (ends_line-NoNewline b line h, command_bytes)

-- What was written.
abbrev pub written : Option (Option Text) → Option Text
written none = none
written (some o) = o

module _ {V : Type 0} (dump : Value V → Option Text) where
  -- A name and its command, as JSON is dumped.
  abbrev pub Dumps : String × Text → Type 0
  Dumps (name, line) = (dump (save_command name) ≡ some line) × Command line

  commands_of : (ps : List (String × Text)) → All Dumps ps → All Command (map (λ p. p.1) ps)
  commands_of [] k = tt
  commands_of (p ∷ ps) k = (k.0.1, commands_of ps k.1)

module _ {H J F D V : Type 0} (dump : Value V → Option Text)
    (write_file : H → Text → Bool × ℕ) where
  -- The bytes that the window writes to the pipe for some names, one after the other.
  abbrev pub sent_bytes : App H J F D → List (String × Text) → Text
  sent_bytes a [] = []
  sent_bytes a (p ∷ ps) = framed (written (save_session dump write_file a p.0)) ++ sent_bytes a ps

  module _ (a : App H J F D) (c : PipeClient H J) (h : H) (source : a.source ≡ some (live c))
      (connected : c.handle ≡ some h) where
    send_command-some :
        (line : Text) → (send_command write_file c line).1 ≡ some (command_bytes line)
    unfolding send_command
    send_command-some line = rw (connected, send_command) refl

    save_session-some :
        (name : String) (line : Text)
        → Dumps dump (name, line)
        → written (save_session dump write_file a name) ≡ some (line ++ newline ∷ [])
    unfolding save_session
    save_session-some name line (e, k) =
        rw (source, e, save_session) refl
        ∙ send_command-some line
        ∙ ap some (command_bytes_lem line k)

    split-sent :
        (ps : List (String × Text))
        → All (Dumps dump) ps
        → split (sent_bytes a ps) ≡ (map (λ (p : String × Text). p.1) ps, [])
    split-sent [] k = split_nil
    split-sent ((name, []) ∷ ps) k = absurd (k.0.1)
    split-sent ((name, b ∷ l) ∷ ps) k =
        ap (λ o. split (framed o ++ sent_bytes a ps)) (save_session-some name (b ∷ l) (k.0))
        ∙ ap split (append_assoc (b ∷ l) (newline ∷ []) (sent_bytes a ps))
        ∙ split-line (b ∷ l) (sent_bytes a ps) (k.0.1)
        ∙ ap (λ (p : List Text × Text). ((b ∷ l) ∷ p.0, p.1)) (split-sent ps k.1)

module _ {S : Type 0} (handler : S → Text → S) where
  each_handled :
      (s : S) (ls : List Text)
      → All Command ls
      → foldl (command_line (some handler)) s ls ≡ foldl handler s ls
  unfolding command_line
  each_handled s [] k = refl
  each_handled s ([] ∷ ls) k = absurd (k.0)
  each_handled s ((b ∷ l) ∷ ls) k = each_handled (handler s (b ∷ l)) ls k.1

  -- The save commands that the window of a connected viewer sends, one after the other, reach the
  -- plugin's handler once each, in order and as they were dumped, wherever the pipe cuts their bytes
  -- into messages and reads, and nothing is left over. Conditions: dump does not throw for the names,
  -- and what it gives is not empty and has no newline; the reads give the bytes that were written,
  -- none fails, and the last one ends its message.
  pub commands-arrive :
      {H J F D V : Type 0} (dump : Value V → Option Text) (write_file : H → Text → Bool × ℕ)
      (a : App H J F D) (c : PipeClient H J) (h : H) (s : S) (ps : List (String × Text))
      (reads : List Read)
      → a.source ≡ some (live c)
      → c.handle ≡ some h
      → All (Dumps dump) ps
      → Complete reads
      → bytes_of reads ≡ sent_bytes dump write_file a ps
      → handle_client (some handler) s [] reads
        ≡ (foldl handler s (map (λ (p : String × Text). p.1) ps), [])
  commands-arrive dump write_file a c h s ps reads source connected k whole e =
      let lines = map (λ (p : String × Text). p.1) ps in
      let cut = ap split e ∙ split-sent dump write_file a c h source connected ps k in
      handle_client_lem (some handler) s reads whole
      ∙ ap (λ (p : List Text × Text). (foldl (command_line (some handler)) s p.0, p.1)) cut
      ∙ ap (λ (t : S). (t, [])) (each_handled s lines (commands_of dump ps k))
