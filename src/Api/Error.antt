-- ===== src/Api/Error.antt =====
-- `core.ExecutionError` and the `error` values that the engine passes around.
-- A message is a list of bytes; the texts that `fmt` builds are a parameter (`Format`).
use flytepropeller.Prelude.{ℕ, String, Bool, true, false, List, ℕ_discrete}

pub data ErrorKind : Type 0 where
  unknown user system : ErrorKind

abbrev pub Message : Type 0
Message = List ℕ

unfoldable pub Message-discrete : Discrete Message
Message-discrete = hlevel ℕ_discrete

pub record ExecutionError : Type 0 where
  pub code : String
  pub message : Message
  pub kind : ErrorKind

-- `events/errors`: the codes of an `EventError`.
pub data EventCode : Type 0 where
  already_exists execution_not_found resource_exhausted invalid_argument : EventCode
  too_large event_sink_error already_in_terminal_state incompatible_cluster : EventCode

-- `nodes/errors` and `workflow/errors`: an error with a code, one that wraps a cause, an
-- `EventError`, an `ErrorCollection` (a list, by `no_errors` and `collected`), and an error of
-- another package, told apart by a number.
pub data GoError : Type 0 where
  coded : String → String → GoError
  wrapped : String → String → GoError → GoError
  event_error : EventCode → GoError
  no_errors : GoError
  collected : GoError → GoError → GoError
  foreign : ℕ → GoError

-- A Go function that returns `(A, error)`: its value where the error is nil.
pub data Result {ℓ} (A : Type ℓ) : Type ℓ where
  ok : A → Result A
  err : GoError → Result A

abbrev pub same_code : EventCode → EventCode → Bool
same_code already_exists already_exists = true
same_code execution_not_found execution_not_found = true
same_code too_large too_large = true
same_code already_in_terminal_state already_in_terminal_state = true
same_code incompatible_cluster incompatible_cluster = true
same_code _ _ = false

-- `errors.Is(err, &EventError{Code: code})` for the codes that the engine asks for: it follows
-- the causes, and an `ErrorCollection` has none.
unfoldable pub is_event_error : EventCode → GoError → Bool
is_event_error c (event_error d) = same_code c d
is_event_error c (wrapped _ _ e) = is_event_error c e
is_event_error c _ = false

-- What `fmt.Sprintf` and `error.Error()` render.
pub record Format : Type 0 where
  pub error_text : GoError → Message
  pub active_timeout : ℕ → Message
  pub execution_timeout : ℕ → Message
  pub retries_exhausted : ℕ → ℕ → ExecutionError → Message
  pub retries_exhausted_code : String → String
  pub unknown_error : Message → Message
  pub missing_downstream : String → Message
