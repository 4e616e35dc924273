-- ===== src/Health/UiError.antt =====
-- messk/src/lib/uiErrorRecovery.ts. `console.error` is not modelled.
use messk.Prelude.{
  ℕ, ◌≤◌, ◌≡◌, refl, Bool, true, false, ◌&&◌, ◌||◌, Option, none, some, [], ◌∷◌, Text, codes, all,
  take, length, leb, ◌==◌, nonempty, if◌then◌else◌, if-property, arith, suc, zero,
}

pub data UiErrorScope : Type 0 where
  app chat_surface : UiErrorScope

-- What was thrown: an Error with its name and message, or another value with its `typeof`.
pub data Thrown : Type 0 where
  an_error : Text → Text → Thrown
  other : Text → Thrown

pub record SafeUiErrorReport : Type 0 where
  pub scope : UiErrorScope
  pub error_name : Text
  pub component_stack : Option Text

pub record UiRecoveryCopy : Type 0 where
  pub title : Text
  pub body : Text
  pub primary_action : Text
  pub secondary_action : Text

abbrev pub max_component_stack_length : ℕ
max_component_stack_length = 600

abbrev pub is_letter : ℕ → Bool
is_letter c = leb b'A' c && leb c b'Z' || leb b'a' c && leb c b'z'

-- [A-Za-z0-9_. -]
abbrev pub is_name_char : ℕ → Bool
is_name_char c =
    is_letter c || leb b'0' c && leb c b'9' || c == b'_' || c == b'.' || c == b' ' || c == b'-'

-- /^[A-Za-z][A-Za-z0-9_. -]{0,80}$/
unfoldable pub is_safe_error_name : Text → Bool
is_safe_error_name [] = false
is_safe_error_name (c ∷ s) = is_letter c && all is_name_char s && leb (length s) 80

abbrev pub error_name_of : Thrown → Text
error_name_of (an_error name message) = name
error_name_of (other type) = type

unfoldable pub to_safe_error_name : Thrown → Text
to_safe_error_name error =
    if is_safe_error_name (error_name_of error) then error_name_of error else codes "UnknownError"

-- An empty stack gives none, in the function and again at the spread of its result.
unfoldable pub to_safe_component_stack : Option Text → Option Text
to_safe_component_stack none = none
to_safe_component_stack (some stack) =
    if nonempty stack then some (take max_component_stack_length stack) else none

unfoldable pub get_safe_ui_error_report : UiErrorScope → Thrown → Option Text → SafeUiErrorReport
get_safe_ui_error_report scope error component_stack = record {
  scope = scope;
  error_name = to_safe_error_name error;
  component_stack = to_safe_component_stack component_stack;
}

unfoldable pub get_safe_ui_recovery_copy : UiErrorScope → UiRecoveryCopy
get_safe_ui_recovery_copy chat_surface = record {
  title = codes "Chat recovered";
  body =
      codes
        "This conversation view hit a local rendering error. Message text, keys, and raw diagnostics stay hidden.";
  primary_action = codes "Try again";
  secondary_action = codes "Back to chats";
}
get_safe_ui_recovery_copy app = record {
  title = codes "Interface recovered";
  body =
      codes
        "A local interface error was contained. Reloading keeps your account data and reconnects the chat.";
  primary_action = codes "Reload";
  secondary_action = codes "Try again";
}

length-take : (n : ℕ) (s : Text) → length (take n s) ≤ n
length-take zero s = omega arith
length-take (suc n) [] = omega arith
length-take (suc n) (c ∷ s) = omega (arith, length-take n s)

-- The stack of a report.
abbrev pub IsShort : Option Text → Type 0
IsShort none = Unit
IsShort (some s) = length s ≤ 600

-- Whatever was thrown, the name in a report fits the safe pattern and the stack has at most 600
-- units.
pub report-is_safe :
    (scope : UiErrorScope) (error : Thrown) (stack : Option Text)
    → (is_safe_error_name (get_safe_ui_error_report scope error stack).error_name ≡ true)
      × IsShort (get_safe_ui_error_report scope error stack).component_stack
unfolding get_safe_ui_error_report to_safe_error_name to_safe_component_stack is_safe_error_name
report-is_safe scope error none = (
  if-property (λ t. is_safe_error_name t ≡ true) (is_safe_error_name (error_name_of error)) _ _
      (λ h. h) (λ _. refl),
  tt,
)
report-is_safe scope error (some stack) = (
  if-property (λ t. is_safe_error_name t ≡ true) (is_safe_error_name (error_name_of error)) _ _
      (λ h. h) (λ _. refl),
  if-property IsShort (nonempty stack) _ none (λ _. length-take 600 stack) (λ _. tt),
)

-- A report does not depend on the message of the error.
pub report-message :
    (scope : UiErrorScope) (name message message' : Text) (stack : Option Text)
    → get_safe_ui_error_report scope (an_error name message) stack
      ≡ get_safe_ui_error_report scope (an_error name message') stack
unfolding get_safe_ui_error_report to_safe_error_name
report-message scope name message message' stack = refl
