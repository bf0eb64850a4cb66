-- ===== src/Support/Errors.antt =====
-- Errors: packages/core/src/errors/errors.ts and errorHandling.ts. Stack traces are left out.
use streamerson.Prelude.{
  ℕ, String, ◌≡◌, refl, Bool, true, false, ◌&&◌, Option, none, some, or_else, arith, if◌then◌else◌,
  Bool-cases, inl, inr,
}

pub data ErrorLogLevel : Type 0 where
  warn error : ErrorLogLevel

pub record ExtendedErrorOptions : Type 0 where
  pub code : Option ℕ
  pub type : Option String
  pub handled : Option Bool
  pub exposed : Option Bool
  pub level : Option ErrorLogLevel

abbrev pub default_options : ExtendedErrorOptions
default_options = record {
  code = some 500;
  type = some "INTERNAL_ERROR";
  handled = some false;
  exposed = some false;
  level = some error;
}

-- `name` is that of the class that was constructed.
pub record ExtendedError : Type 0 where
  pub name : String
  pub message : String
  pub code : ℕ
  pub handled : Bool
  pub exposed : Bool
  pub type : String
  pub level : ErrorLogLevel
  pub logged : Bool

-- What an error is made of: a text, an object that has a message or none, or another extended error.
pub data Thrown : Type 0 where
  text : String → Thrown
  plain : Option String → Thrown
  extended : ExtendedError → Thrown

abbrev pub message_of : Thrown → String
message_of (text s) = s
message_of (plain none) = "Unknown error"
message_of (plain (some m)) = m
message_of (extended e) = e.message

-- The constructor, of the class with the given name.
unfoldable pub new_extended_error : String → Thrown → ExtendedErrorOptions → ExtendedError
new_extended_error name message o = record {
  name = name;
  message = message_of message;
  code = or_else o.code 500;
  handled = or_else o.handled false;
  exposed = or_else o.exposed false;
  type = or_else o.type "INTERNAL_ERROR";
  level = or_else o.level error;
  logged = false;
}

-- The classes for the end user, for the developer and for a handler.
unfoldable pub error_for_end_user : String → String → Option ℕ → ExtendedError
unfolding new_extended_error
error_for_end_user message type code = new_extended_error "ErrorForEndUser" (text message) (record {
  code = code;
  type = some type;
  handled = some true;
  exposed = some true;
  level = some warn;
})

unfoldable pub error_for_developer : String → String → Option ℕ → ExtendedError
unfolding new_extended_error
error_for_developer message type code =
    new_extended_error "ErrorForDeveloper" (text message) (record {
      code = code;
      type = some type;
      handled = some false;
      exposed = some false;
      level = some error;
    })

unfoldable pub error_for_handler : String → String → ErrorLogLevel → ExtendedError
unfolding new_extended_error
error_for_handler message type level = new_extended_error "ErrorForHandler" (text message) (record {
  code = some 5000;
  type = some type;
  handled = some true;
  exposed = some false;
  level = some level;
})

-- `toJSON()`, without the stack.
unfoldable pub to_json : ExtendedError → String × ℕ × String
to_json e = (e.name, e.code, e.type)

-- What `withExtendedErrors` does: it logs the error that it is given, with its message if that has one, at
-- a level, and returns with the error marked as logged, or throws a new one that is.
pub record Reported : Type 0 where
  pub level : ErrorLogLevel
  pub logged_error : Thrown
  pub logged_message : Option String
  pub error : ExtendedError
  pub thrown : Bool

abbrev logged : ExtendedError → ExtendedError
logged e = record e { logged = true }

-- `err.message`
abbrev pub message_property : Thrown → Option String
message_property (text s) = none
message_property (plain m) = m
message_property (extended e) = some e.message

abbrev report : ErrorLogLevel → Thrown → ExtendedError → Bool → Reported
report level err e thrown = record {
  level = level;
  logged_error = err;
  logged_message = message_property err;
  error = logged e;
  thrown = thrown;
}

abbrev wrapped : Thrown → Reported
wrapped err =
    let e = new_extended_error "ExtendedError" err default_options in report e.level err e true

unfoldable pub with_extended_errors : Thrown → Reported
unfolding new_extended_error
with_extended_errors (extended e) =
    if e.handled && e.exposed then report e.level (extended e) e false else wrapped (extended e)
with_extended_errors (text s) = wrapped (text s)
with_extended_errors (plain m) = wrapped (plain m)

-- The error that a report leaves, which is the one that it throws if it does, has the message of the
-- given one. To report that error again throws or returns as the first time did, leaves the same error
-- and logs at the same level, but logs the error that the first report left, with its message: that it was
-- logged before keeps it from nothing.
pub with_extended_errors-again :
    (err : Thrown)
    → (let first = with_extended_errors err in
        let again = with_extended_errors (extended first.error) in
        (first.error.message ≡ message_of err)
        × (again ≡ record first {
          logged_error = extended first.error;
          logged_message = some (message_of err);
        }))
unfolding with_extended_errors new_extended_error
with_extended_errors-again (text s) = (refl, refl)
with_extended_errors-again (plain none) = (refl, refl)
with_extended_errors-again (plain (some m)) = (refl, refl)
with_extended_errors-again (extended e) = (
  ground arith,
  elim (Bool-cases (e.handled && e.exposed)) [ inl h ↦ rw h (rw h refl) | inr h ↦ rw h refl ],
)

-- An error for the end user passes; one for the developer or for a handler is thrown as another one, which
-- is that of its message alone.
pub with_extended_errors-classes :
    (message type : String) (code : Option ℕ) (level : ErrorLogLevel)
    → ((with_extended_errors (extended (error_for_end_user message type code))).thrown ≡ false)
      × ((with_extended_errors (extended (error_for_developer message type code))).error
          ≡ (with_extended_errors (text message)).error)
      × ((with_extended_errors (extended (error_for_handler message type level))).error
          ≡ (with_extended_errors (text message)).error)
unfolding with_extended_errors error_for_end_user error_for_developer error_for_handler
with_extended_errors-classes message type code level = (refl, refl, refl)
