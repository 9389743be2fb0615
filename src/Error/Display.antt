-- ===== src/Error/Display.antt =====
-- src/error.rs: the `Display` texts that `thiserror` derives from the `#[error]` attributes, and the
-- standard library's debug form of a `Duration`.
use memable.Prelude.{ℕ, zero, suc, ◌/◌, ◌%◌, ◌+◌, [], ◌∷◌, ◌++◌, leb, ◌==◌, if◌then◌else◌}
use memable.Text.{Text, text}
use memable.Text.Decimal.{decimal}
use memable.Error.{
  EngineError, serialization, step_failed, not_started, workflow_not_found, step_timeout,
  invalid_key, type_mismatch, signal_rejected, signal_superseded, suspended_step_conflict,
  retries_exhausted, input_missing, output_missing, suspended,
}

-- The fraction's digits from the weight `div` down, without trailing zeros.
fraction : ℕ → ℕ → ℕ → Text
fraction zero frac div = []
fraction (suc f) frac div =
    let rest = fraction f (frac % div) (div / 10) in
    if frac == 0 then [] else (b'0' + frac / div) ∷ rest

with_fraction : ℕ → ℕ → ℕ → Text
unfolding fraction
with_fraction whole frac div =
    decimal whole ++ (if frac == 0 then [] else b'.' ∷ fraction 9 frac div)

-- `{:?}` of a `Duration` of `n` nanoseconds; the micro sign is two bytes.
debug_duration : ℕ → Text
unfolding with_fraction
debug_duration n =
    if leb 1000000000 n
    then with_fraction (n / 1000000000) (n % 1000000000) 100000000 ++ text "s"
    else if leb 1000000 n
    then with_fraction (n / 1000000) (n % 1000000) 100000 ++ text "ms"
    else if leb 1000 n
    then with_fraction (n / 1000) (n % 1000) 100 ++ (0xc2 ∷ 0xb5 ∷ text "s")
    else decimal n ++ text "ns"

abbrev em_dash : Text
em_dash = 0xe2 ∷ 0x80 ∷ 0x94 ∷ []

abbrev quoted : Text → Text
quoted s = b'\'' ∷ s ++ b'\'' ∷ []

unfoldable pub error_to_string : EngineError → Text
unfolding debug_duration
error_to_string (EngineError.storage e) = text "storage error: " ++ e
error_to_string (serialization key source) =
    text "serialization error for step " ++ quoted key ++ text ": " ++ source
error_to_string (step_failed key source _) =
    text "step " ++ quoted key ++ text " failed: " ++ source
error_to_string not_started = text "engine has not been started"
error_to_string (workflow_not_found name) =
    text "workflow " ++ quoted name ++ text " is not registered"
error_to_string (step_timeout key duration) =
    text "step " ++ quoted key ++ text " timed out after " ++ debug_duration duration
error_to_string (invalid_key label value) =
    text "invalid key component ("
    ++ label
    ++ text "): "
    ++ quoted value
    ++ text " must not contain '/'"
error_to_string (type_mismatch key expected found) =
    text "type mismatch for step "
    ++ quoted key
    ++ text ": expected `"
    ++ expected
    ++ text "`, found `"
    ++ found
    ++ text "`"
error_to_string (signal_rejected key reason) =
    text "signal rejected for step " ++ quoted key ++ text ": " ++ reason
error_to_string (signal_superseded key) =
    text "signal superseded for step " ++ quoted key ++ text ": another caller already claimed it"
error_to_string (suspended_step_conflict key) =
    text "step "
    ++ quoted key
    ++ text " has a suspended entry but was called as a regular step "
    ++ em_dash
    ++ text " the workflow code likely changed while an instance was suspended"
error_to_string (retries_exhausted key attempts source) =
    text "step "
    ++ quoted key
    ++ text " failed after "
    ++ decimal attempts
    ++ text " attempts: "
    ++ source
error_to_string (input_missing workflow) =
    text "workflow " ++ quoted workflow ++ text " requires input but none was provided"
error_to_string (output_missing workflow instance_id) =
    text "output not available for workflow "
    ++ quoted workflow
    ++ text " instance "
    ++ quoted instance_id
error_to_string (suspended key) = text "workflow suspended at step " ++ quoted key
