-- ===== src/Crash.antt =====
-- plugin/src/crash/seh_handler.cpp: the vectored exception handler. `hex8` and `hex16` are the
-- formats of fmt, `module_path` is what GetModuleFileName gives for an address, `dump` is `none`
-- where it throws. The clocks are of the rotation.
pub mod Once
mod Tests
use skygraph.Prelude.{
  ℕ, String, Bool, true, false, not, ◌||◌, Option, none, some, List, [], ◌∷◌, ◌++◌, ◌==◌,
  if◌then◌else◌,
}
use skygraph.Framing.{Text}
use skygraph.Recorder.{Files, RollingRecorder, rotate_now}
use skygraph.Plugin.Records.{Value, str, num, object, end, field}

pub data ExceptionCode : Type 0 where
  access_violation illegal_instruction priv_instruction stack_overflow int_divide_by_zero
        noncontinuable flt_divide_by_zero flt_invalid_operation flt_stack_check :
      ExceptionCode
  other : ExceptionCode

unfoldable pub is_fatal : ExceptionCode → Bool
is_fatal access_violation = true
is_fatal illegal_instruction = true
is_fatal priv_instruction = true
is_fatal stack_overflow = true
is_fatal int_divide_by_zero = true
is_fatal noncontinuable = true
is_fatal flt_divide_by_zero = true
is_fatal flt_invalid_operation = true
is_fatal flt_stack_check = true
is_fatal other = false

-- Does the path have a separator, a slash or a backslash?
unfoldable pub has_separator : Text → Bool
has_separator [] = false
has_separator (c ∷ cs) = let rest = has_separator cs in c == 92 || c == 47 || rest

-- What follows the last separator, of `ModuleAtAddress`.
unfoldable pub leaf : Text → Text
unfolding has_separator
leaf [] = []
leaf (c ∷ cs) =
    let rest = leaf cs in
    if has_separator cs then rest else if c == 92 || c == 47 then cs else c ∷ cs

-- `none` for an address in no module.
unfoldable pub module_at_address : Option Text → Text
unfolding leaf
module_at_address none = []
module_at_address (some path) = leaf path

pub record Crash (P W : Type 0) : Type 0 where
  pub handled : Bool
  pub has_writer : Bool
  pub recorder : Option (RollingRecorder P W)
  pub submitted : List String

-- An exception record, with the clocks of its handling.
pub record Exception (D : Type 0) : Type 0 where
  pub code : ExceptionCode
  pub number : ℕ
  pub address : ℕ
  pub wall : D
  pub steady : ℕ
  pub stamp : ℕ

module _ {D P W : Type 0} (fs : Files P W) (dump : Value D → Option String)
    (hex8 hex16 : ℕ → String) (module_path : ℕ → Option Text)
    (string_of_bytes : Text → String) where
  unfoldable pub crash_record : Exception D → Value D
  unfolding module_at_address
  crash_record e = object (
      field "type" (str "event.crash") (
        field "t" (num (e.wall)) (
          field "code" (str (hex8 (e.number))) (
            field "rip" (str (hex16 (e.address))) (
              field "module" (str (string_of_bytes (module_at_address (module_path (e.address)))))
                end)))))

  -- The two calls at the end; what they throw is caught.
  unfoldable pub report : Crash P W → Exception D → Crash P W
  unfolding crash_record rotate_now
  report s e =
      let lines = elim (dump (crash_record e)) as (λ x. List String) [
        | none ↦ s.submitted
        | some line ↦ s.submitted ++ line ∷ []
      ] in
      record s {
        handled = true;
        submitted = if s.has_writer then lines else s.submitted;
        recorder = elim (s.recorder) [
          | none ↦ none
          | some r ↦ some (rotate_now fs r (e.steady) (e.stamp))
        ];
      }

  -- `Handler`; `none` without an exception record.
  unfoldable pub handler : Crash P W → Option (Exception D) → Crash P W
  unfolding is_fatal report
  handler s none = s
  handler s (some e) =
      let reported = report s e in
      if not (is_fatal (e.code)) then s else if s.handled then s else reported

  -- `Install`
  unfoldable pub install : Crash P W → Bool → Option (RollingRecorder P W) → Crash P W
  install s writer recorder = record s { has_writer = writer; recorder = recorder }
