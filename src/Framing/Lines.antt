-- ===== src/Framing/Lines.antt =====
-- The loop against the lines of a text, and lines of texts that arrive in pieces.
use mathlib.Core.List.{foldl}
use skygraph.Prelude.{
  ℕ, zero, suc, ◌<◌, ◌≡◌, refl, ◌≢◌, sym, ap, subst, ◌∙◌, true, false, none, some, List, [], ◌∷◌,
  ◌++◌, arith, ◌==◌, if◌then◌else◌, length, Bool-cases, inl, inr, All, Option-cases,
}
use skygraph.Framing.{newline, Text, find_newline, each_line, split_lines}

-- The complete lines of a text, and what follows the last newline.
abbrev pub add_byte : ℕ → List Text × Text → List Text × Text
add_byte b ([], rest) = ([], b ∷ rest)
add_byte b (line ∷ ls, rest) = ((b ∷ line) ∷ ls, rest)

unfoldable pub split : Text → List Text × Text
split [] = ([], [])
split (b ∷ bs) =
    let (ls, rest) = split bs in if b == newline then ([] ∷ ls, rest) else add_byte b (ls, rest)

abbrev pub lines_of : Text → List Text
lines_of s = (split s).0

abbrev pub partial_of : Text → Text
partial_of s = (split s).1

-- One newline found splits off one line.
split-find_none : (s : Text) → find_newline s ≡ none → split s ≡ ([], s)
unfolding split find_newline
split-find_none [] e = refl
split-find_none (b ∷ bs) e = ground (arith, split-find_none bs)

split-find_some :
    (s line rest : Text)
    → find_newline s ≡ some (line, rest)
    → (split s ≡ (line ∷ lines_of rest, partial_of rest)) × (length rest < length s)
unfolding split find_newline
split-find_some [] line rest e = cc
split-find_some (b ∷ bs) line rest e = elim (Option-cases (find_newline bs)) [
  | inl none_left ↦ ground (arith, split-find_none bs none_left)
  | inr ((l, r), found) ↦ ground (arith, split-find_some bs l r found)
]

each_line_lem {ℓ} :
    {S : Type ℓ} (handle : S → Text → S) (fuel : ℕ) (s : S) (bytes : Text)
    → length bytes < fuel
    → each_line fuel handle s bytes ≡ (foldl handle s (lines_of bytes), partial_of bytes)
unfolding each_line
each_line_lem handle zero s bytes h = elim h [ ]
each_line_lem handle (suc fuel) s bytes h = elim (Option-cases (find_newline bytes)) [
  | inl e ↦ rw (e, each_line) (ground (arith, split-find_none bytes e))
  | inr ((line, rest), e) ↦
      let (cut, shorter) = split-find_some bytes line rest e in
      rw (e, each_line)
        (each_line_lem handle fuel (handle s line) rest (omega arith)
          ∙ ap (λ (p : List Text × Text). (foldl handle s p.0, p.1)) (sym cut))
]

abbrev pub before : List Text → List Text × Text → List Text × Text
before ls (ms, rest) = (ls ++ ms, rest)

split-newline :
    (c : ℕ) (bs : Text) → (c == newline) ≡ true → split (c ∷ bs) ≡ ([] ∷ lines_of bs, partial_of bs)
unfolding split
split-newline c bs e = rw (e, split)

split-other : (c : ℕ) (bs : Text) → (c == newline) ≡ false → split (c ∷ bs) ≡ add_byte c (split bs)
unfolding split
split-other c bs e = rw (e, split)

before-add_byte :
    (c : ℕ) (ls : List Text) (r b : Text)
    → (c == newline) ≡ false
    → add_byte c (before ls (split (r ++ b)))
      ≡ before (add_byte c (ls, r)).0 (split ((add_byte c (ls, r)).1 ++ b))
before-add_byte c [] r b ne = sym (split-other c (r ++ b) ne)
before-add_byte c (l ∷ ls) r b ne = refl

pub split_nil : split [] ≡ ([], [])
unfolding split
split_nil = refl

-- A text that arrives in two pieces: the second begins with what the first left over.
pub split-append : (a b : Text) → split (a ++ b) ≡ before (lines_of a) (split (partial_of a ++ b))
split-append [] b = ap (λ (p : List Text × Text). before p.0 (split (p.1 ++ b))) (sym split_nil)
split-append (c ∷ a) b = elim (Bool-cases (c == newline)) [
  | inl e ↦
      split-newline c (a ++ b) e
      ∙ ap (λ (p : List Text × Text). ([] ∷ p.0, p.1)) (split-append a b)
      ∙ ap continue (sym (split-newline c a e))
  | inr ne ↦
      split-other c (a ++ b) ne
      ∙ ap (add_byte c) (split-append a b)
      ∙ before-add_byte c (lines_of a) (partial_of a) b ne
      ∙ ap continue (sym (split-other c a ne))
]
  where
    continue : List Text × Text → List Text × Text
    continue p = before p.0 (split (p.1 ++ b))

-- The loop hands over the complete lines in order, and leaves what follows the last newline.
pub split_lines_lem {ℓ} :
    {S : Type ℓ} (handle : S → Text → S) (s : S) (bytes : Text)
    → split_lines handle s bytes ≡ (foldl handle s (lines_of bytes), partial_of bytes)
split_lines_lem handle s bytes = each_line_lem handle (suc (length bytes)) s bytes (omega arith)

abbrev pub NoNewline : Text → Type 0
NoNewline = All (λ b. b ≢ newline)

-- A line with its newline, and then more.
pub split-line :
    (line rest : Text)
    → NoNewline line
    → split (line ++ newline ∷ rest) ≡ (line ∷ lines_of rest, partial_of rest)
split-line [] rest h = split-newline newline rest refl
split-line (b ∷ line) rest h =
    split-other b (line ++ newline ∷ rest) (ground (arith, h.0))
    ∙ ap (add_byte b) (split-line line rest h.1)

add_byte-NoNewline :
    (b : ℕ) (p : List Text × Text) → b ≢ newline → NoNewline p.1 → NoNewline (add_byte b p).1
add_byte-NoNewline b ([], rest) ne h = (ne, h)
add_byte-NoNewline b (l ∷ ls, rest) ne h = h

-- Nothing left over holds a newline.
pub partial_of-NoNewline : (s : Text) → NoNewline (partial_of s)
partial_of-NoNewline [] = subst (λ (p : List Text × Text). NoNewline p.1) (sym split_nil) tt
partial_of-NoNewline (b ∷ bs) = elim (Bool-cases (b == newline)) [
  | inl e ↦
      subst (λ (p : List Text × Text). NoNewline p.1) (sym (split-newline b bs e))
        (partial_of-NoNewline bs)
  | inr ne ↦
      subst (λ (p : List Text × Text). NoNewline p.1) (sym (split-other b bs ne))
        (add_byte-NoNewline b (split bs) (ground arith) (partial_of-NoNewline bs))
]

-- A text with no newline has no complete line.
pub split-NoNewline : (s : Text) → NoNewline s → split s ≡ ([], s)
split-NoNewline [] h = split_nil
split-NoNewline (b ∷ bs) h =
    split-other b bs (ground (arith, h.0)) ∙ ap (add_byte b) (split-NoNewline bs h.1)
