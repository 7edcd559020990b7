-- ===== src/Crash/Once.antt =====
-- Any exceptions, one after the other, at the handler of plugin/src/crash/seh_handler.cpp.
use mathlib.Core.Option.{map}
use skygraph.Prelude.{
  ℕ, ◌≡◌, refl, sym, ap, ◌∙◌, String, Bool, true, false, append-nil, ◌++◌, ◌||◌, Option, none, some,
  List, [], ◌∷◌, ◌==◌, if◌then◌else◌, Bool-cases, inl, inr, if-cases, arith,
}
use skygraph.Framing.{Text}
use skygraph.Recorder.{Files, RollingRecorder, rotate_now}
use skygraph.Plugin.Records.{Value, str, num, object, end, field}
use skygraph.Crash.{
  Crash, Exception, ExceptionCode, access_violation, illegal_instruction, priv_instruction,
  stack_overflow, int_divide_by_zero, noncontinuable, flt_divide_by_zero, flt_invalid_operation,
  flt_stack_check, other, is_fatal, module_at_address, has_separator, leaf, crash_record, report,
  handler,
}

-- Every code of the handler's list ends the process.
abbrev pub ends_process : ExceptionCode → Bool
ends_process other = false
ends_process _ = true

is_fatal-ends : (c : ExceptionCode) → is_fatal c ≡ ends_process c
unfolding is_fatal
is_fatal-ends access_violation = refl
is_fatal-ends illegal_instruction = refl
is_fatal-ends priv_instruction = refl
is_fatal-ends stack_overflow = refl
is_fatal-ends int_divide_by_zero = refl
is_fatal-ends noncontinuable = refl
is_fatal-ends flt_divide_by_zero = refl
is_fatal-ends flt_invalid_operation = refl
is_fatal-ends flt_stack_check = refl
is_fatal-ends other = refl

module _ {D : Type 0} where
  abbrev pub first_fatal : List (Option (Exception D)) → Option (Exception D)
  first_fatal [] = none
  first_fatal (none ∷ es) = first_fatal es
  first_fatal (some e ∷ es) =
      let rest = first_fatal es in if ends_process (e.code) then some e else rest

-- The name of a module has no separator.
leaf-no_separator : (path : Text) → has_separator (leaf path) ≡ false
unfolding leaf has_separator
leaf-no_separator [] = refl
leaf-no_separator (c ∷ cs) =
    if-cases (λ t. has_separator t ≡ false) (has_separator cs) (leaf cs)
      (if c == 92 || c == 47 then cs else c ∷ cs) (λ e. leaf-no_separator cs)
      (λ e.
        if-cases (λ t. has_separator t ≡ false) (c == 92 || c == 47) cs (c ∷ cs) (λ f. e)
          (λ f. ground (arith, e, f)))

module _ {D P W : Type 0} (fs : Files P W) (dump : Value D → Option String)
    (hex8 hex16 : ℕ → String) (module_path : ℕ → Option Text)
    (string_of_bytes : Text → String) where
  -- The lines that are sent: none without a writer, or if the dump throws.
  abbrev pub sent : Bool → Option String → List String
  sent false line = []
  sent true none = []
  sent true (some line) = line ∷ []

  -- One record of the exception is submitted, with its code, its address and the module there, and
  -- the recorder, if there is one, is rotated.
  abbrev pub reported_once : Crash P W → Exception D → Crash P W
  reported_once s e = record {
    handled = true;
    has_writer = s.has_writer;
    recorder = map (λ r. rotate_now fs r (e.steady) (e.stamp)) (s.recorder);
    submitted =
        s.submitted
        ++ sent (s.has_writer) (
            dump (
              object (
                field "type" (str "event.crash") (
                  field "t" (num (e.wall)) (
                    field "code" (str (hex8 (e.number))) (
                      field "rip" (str (hex16 (e.address))) (
                        field "module"
                          (str (string_of_bytes (module_at_address (module_path (e.address)))))
                          end)))))));
  }

  lines-sent :
      (w : Bool) (o : Option String) (before : List String)
      → (if w
          then elim o as (λ x. List String) [ none ↦ before | some line ↦ before ++ line ∷ [] ]
          else before)
        ≡ before ++ sent w o
  lines-sent false o before = sym (append-nil before)
  lines-sent true none before = sym (append-nil before)
  lines-sent true (some line) before = refl

  rotated-map :
      (o : Option (RollingRecorder P W)) (steady stamp : ℕ)
      → elim o as (λ x. Option (RollingRecorder P W)) [
        | none ↦ none
        | some r ↦ some (rotate_now fs r steady stamp)
      ]
        ≡ map (λ r. rotate_now fs r steady stamp) o
  rotated-map none steady stamp = refl
  rotated-map (some r) steady stamp = refl

  report-once :
      (s : Crash P W) (e : Exception D)
      → report fs dump hex8 hex16 module_path string_of_bytes s e ≡ reported_once s e
  unfolding report crash_record
  report-once s e = cc (
    lines-sent (s.has_writer) (dump (crash_record fs dump hex8 hex16 module_path string_of_bytes e))
        (s.submitted),
    rotated-map (s.recorder) (e.steady) (e.stamp),
  )

  unfoldable pub handle_all : Crash P W → List (Option (Exception D)) → Crash P W
  unfolding handler
  handle_all s [] = s
  handle_all s (e ∷ es) = handle_all (handler fs dump hex8 hex16 module_path string_of_bytes s e) es

  handler-handled :
      (s : Crash P W) (e : Option (Exception D))
      → s.handled ≡ true
      → handler fs dump hex8 hex16 module_path string_of_bytes s e ≡ s
  unfolding handler
  handler-handled s none h = refl
  handler-handled s (some e) h = elim (Bool-cases (is_fatal (e.code))) [
    | inl f ↦ rw (f, h, handler) refl
    | inr f ↦ rw (f, handler) refl
  ]

  handler-fatal :
      (s : Crash P W) (e : Exception D)
      → s.handled ≡ false
      → is_fatal (e.code) ≡ true
      → handler fs dump hex8 hex16 module_path string_of_bytes s (some e)
        ≡ report fs dump hex8 hex16 module_path string_of_bytes s e
  unfolding handler
  handler-fatal s e h f = rw (f, h, handler) refl

  handler-other :
      (s : Crash P W) (e : Exception D)
      → is_fatal (e.code) ≡ false
      → handler fs dump hex8 hex16 module_path string_of_bytes s (some e) ≡ s
  unfolding handler
  handler-other s e f = rw (f, handler) refl

  all-handled :
      (s : Crash P W) (es : List (Option (Exception D))) → s.handled ≡ true → handle_all s es ≡ s
  unfolding handle_all
  all-handled s [] h = refl
  all-handled s (e ∷ es) h = ap (λ r. handle_all r es) (handler-handled s e h) ∙ all-handled s es h

  reported :
      (s : Crash P W) (e : Exception D)
      → (report fs dump hex8 hex16 module_path string_of_bytes s e).handled ≡ true
  unfolding report
  reported s e = refl

  -- Of any exceptions that a process meets, the first one that ends it (any of the nine codes of the
  -- handler) is reported and no other: one record with its code, address and module is submitted, if
  -- there is a writer and the dump does not throw, and the recorder, if there is one, is rotated.
  -- Exceptions of other codes, and all that come later, change nothing. Condition: none was handled
  -- before.
  pub handle_all-first :
      (s : Crash P W) (es : List (Option (Exception D)))
      → s.handled ≡ false
      → handle_all s es ≡ (elim (first_fatal es) [ none ↦ s | some e ↦ reported_once s e ])
  unfolding handle_all handler
  handle_all-first s [] h = refl
  handle_all-first s (none ∷ es) h = handle_all-first s es h
  handle_all-first s (some e ∷ es) h = elim (Bool-cases (ends_process (e.code))) [
    | inl f ↦
        ap (λ r. handle_all r es) (handler-fatal s e h (is_fatal-ends (e.code) ∙ f))
        ∙ all-handled (report fs dump hex8 hex16 module_path string_of_bytes s e) es (reported s e)
        ∙ report-once s e
        ∙ ap
            (λ (o : Option (Exception D)). elim o as (λ x. Crash P W) [
              | none ↦ s
              | some x ↦ reported_once s x
            ])
            (let z : some e ≡ first_fatal (some e ∷ es) = rw f refl in z)
    | inr f ↦
        ap (λ r. handle_all r es) (handler-other s e (is_fatal-ends (e.code) ∙ f))
        ∙ handle_all-first s es h
        ∙ ap
            (λ (o : Option (Exception D)). elim o as (λ x. Crash P W) [
              | none ↦ s
              | some x ↦ reported_once s x
            ])
            (let z : first_fatal es ≡ first_fatal (some e ∷ es) = rw f refl in z)
  ]
