-- ===== src/Pipe/Commands.antt =====
-- The commands that a viewer sends, read by `HandleClient` of
-- plugin/src/transport/pipe_server.cpp.
use mathlib.Core.List.{foldl, foldl-append}
use skygraph.Prelude.{
  ◌≡◌, refl, sym, ap, ◌∙◌, Option, List, [], ◌∷◌, ◌++◌, append-nil, append_assoc,
}
use skygraph.Framing.{Text}
use skygraph.Framing.Lines.{lines_of, partial_of, split_nil, split-append, split_lines_lem}
use skygraph.Pipe.{Read, ok, more_data, broken, command_line, handle_client}

-- The bytes of reads that did not break off.
abbrev pub bytes_of : List Read → Text
bytes_of [] = []
bytes_of (ok t ∷ rs) = t ++ bytes_of rs
bytes_of (more_data t ∷ rs) = t ++ bytes_of rs
bytes_of (broken ∷ rs) = []

-- No read fails, and the last one ends its message.
abbrev pub Complete : List Read → Type 0
Complete [] = Unit
Complete (ok t ∷ rs) = Complete rs
Complete (more_data t ∷ []) = ⊥
Complete (more_data t ∷ (r ∷ rs)) = Complete (r ∷ rs)
Complete (broken ∷ rs) = ⊥

module _ {S : Type 0} (on_command : Option (S → Text → S)) where
  abbrev handled : S → Text → S × Text
  handled s t = (foldl (command_line on_command) s (lines_of t), partial_of t)

  handled-append :
      (s : S) (a b : Text) → handled (handled s a).0 (partial_of a ++ b) ≡ handled s (a ++ b)
  handled-append s a b =
      ap (λ ls. (ls, partial_of (partial_of a ++ b)))
        (sym (foldl-append (command_line on_command) s (lines_of a) (lines_of (partial_of a ++ b))))
      ∙ ap (λ (p : List Text × Text). (foldl (command_line on_command) s p.0, p.1))
          (sym (split-append a b))

  handle-ok :
      (s : S) (acc t : Text) (rs : List Read)
      → handle_client on_command s acc (ok t ∷ rs)
        ≡ handle_client on_command (handled s (acc ++ t)).0 (partial_of (acc ++ t)) rs
  unfolding handle_client
  handle-ok s acc t rs =
      ap (λ (p : S × Text). handle_client on_command p.0 p.1 rs)
        (split_lines_lem (command_line on_command) s (acc ++ t))

  handle-more_data :
      (s : S) (acc t : Text) (rs : List Read)
      → handle_client on_command s acc (more_data t ∷ rs) ≡ handle_client on_command s (acc ++ t) rs
  unfolding handle_client
  handle-more_data s acc t rs = refl

  handle-nil : (s : S) (acc : Text) → handle_client on_command s acc [] ≡ (s, acc)
  unfolding handle_client
  handle-nil s acc = refl

  handle_rest :
      (s : S) (acc : Text) (r : Read) (rs : List Read)
      → Complete (r ∷ rs)
      → handle_client on_command s acc (r ∷ rs) ≡ handled s (acc ++ bytes_of (r ∷ rs))
  handle_rest s acc (ok t) [] h =
      handle-ok s acc t [] ∙ handle-nil _ _ ∙ ap (handled s) (ap (◌++◌ acc) (sym (append-nil t)))
  handle_rest s acc (ok t) (r ∷ rs) h =
      handle-ok s acc t (r ∷ rs)
      ∙ handle_rest (handled s (acc ++ t)).0 (partial_of (acc ++ t)) r rs h
      ∙ handled-append s (acc ++ t) (bytes_of (r ∷ rs))
      ∙ ap (handled s) (append_assoc acc t (bytes_of (r ∷ rs)))
  handle_rest s acc (more_data t) [] h = absurd h
  handle_rest s acc (more_data t) (r ∷ rs) h =
      handle-more_data s acc t (r ∷ rs)
      ∙ handle_rest s (acc ++ t) r rs h
      ∙ ap (handled s) (append_assoc acc t (bytes_of (r ∷ rs)))
  handle_rest s acc broken rs h = absurd h

-- When no read fails and the last read ends its message, the command handler has been called for
-- exactly the complete lines of all the bytes, in order (empty lines skipped), and what follows the
-- last newline is kept, wherever the messages and the reads were cut.
pub handle_client_lem :
    {S : Type 0} (on_command : Option (S → Text → S)) (s : S) (reads : List Read)
    → Complete reads
    → handle_client on_command s [] reads
      ≡ (foldl (command_line on_command) s (lines_of (bytes_of reads)), partial_of (bytes_of reads))
handle_client_lem on_command s [] h =
    handle-nil on_command s []
    ∙ ap (λ (p : List Text × Text). (foldl (command_line on_command) s p.0, p.1)) (sym split_nil)
handle_client_lem on_command s (r ∷ rs) h = handle_rest on_command s [] r rs h
