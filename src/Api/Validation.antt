-- ===== src/Api/Validation.antt =====
-- The responses of src/qfa/api/app.py to requests that are not valid, and to exceptions of the HTTP framework.
use qualitative_feedback_ana.Prelude.{
  ℕ, Bool, Option, none, some, List, [], ◌∷◌, ◌++◌, Text, codes, starts_with, if◌then◌else◌, all,
  join, map,
}
use qualitative_feedback_ana.Prelude.Decimal.{decimal}
use qualitative_feedback_ana.Api.Responses.{ErrorResponse, plain_response}

-- `_JSON_DECODE_HINTS`
abbrev pub json_decode_hints : List (Text × Text)
json_decode_hints =
    (
      codes "Invalid control character",
      codes
          "a raw control character (U+0000-U+001F) appears inside a JSON string; escape it as \\n, \\r, \\t, \\f or \\u000b. The API accepts these characters once escaped -- escape them, do not strip them",
    )
    ∷ (
      codes "Invalid \\",
      codes
          "a backslash is not the start of a valid escape sequence; a literal backslash must be written as \\\\",
    )
    ∷ (
      codes "Unterminated string starting at",
      codes "a JSON string is never closed; a literal \" inside a string must be written as \\\"",
    )
    ∷ (
      codes "Expecting ',' delimiter",
      codes
          "unexpected token, most often an unescaped \" that ended a string value early; write it as \\\"",
    )
    ∷ (
      codes "Expecting ':' delimiter",
      codes
          "unexpected token, most often an unescaped \" that ended a string value early; write it as \\\"",
    )
    ∷ (
      codes "Expecting property name enclosed in double quotes",
      codes
          "unexpected token where an object key was expected, most often an unescaped \" that ended an earlier value early",
    )
    ∷ []

abbrev pub json_decode_fallback_hint : Text
json_decode_fallback_hint =
    codes
      "the request body is not well-formed JSON; check that it parses per RFC 8259 before sending"

hint_from : List (Text × Text) → (reason : Text) → Text
hint_from [] reason = json_decode_fallback_hint
hint_from ((prefix, hint) ∷ hints) reason =
    if starts_with prefix reason then hint else hint_from hints reason

unfoldable pub json_decode_hint : (reason : Text) → Text
unfolding hint_from
json_decode_hint reason = hint_from json_decode_hints reason

pub data LocPart : Type 0 where
  key_part : Text → LocPart
  index_part : ℕ → LocPart

-- One entry of `RequestValidationError.errors()`. `reason` is the error in its context, or empty.
pub record ValidationIssue : Type 0 where
  pub json_invalid : Bool
  pub loc : List LocPart
  pub msg : Text
  pub reason : Text

abbrev printed_part : LocPart → Text
printed_part (key_part key) = key
printed_part (index_part i) = decimal i

-- The offset is the second of two parts.
with_offset : (issue : Text) → List LocPart → Text
with_offset issue (part ∷ index_part offset ∷ []) =
    issue ++ (codes " (byte offset " ++ (decimal offset ++ codes ")"))
with_offset issue _ = issue

module _ (request_id : Text) where
  unfoldable pub json_invalid_response : List ValidationIssue → ErrorResponse
  unfolding json_decode_hint with_offset
  json_invalid_response errors = record {
    status_code = 422;
    error = record {
      code = codes "json_invalid";
      message = some (codes "Request body is not valid JSON");
      request_id = request_id;
      fields = some (
          map
            (λ e. record {
              field = codes "body";
              issue = with_offset (json_decode_hint e.reason) e.loc;
            })
            errors);
    };
    retry_after = none;
  }

  field_name : List LocPart → Text
  field_name [] = codes "unknown"
  field_name (part ∷ parts) = join (codes ".") (map printed_part (part ∷ parts))

  unfoldable pub handle_validation_error : List ValidationIssue → ErrorResponse
  unfolding json_invalid_response field_name
  handle_validation_error [] = record {
    status_code = 422;
    error = record {
      code = codes "validation_error";
      message = some (codes "Request validation failed");
      request_id = request_id;
      fields = some [];
    };
    retry_after = none;
  }
  handle_validation_error (e ∷ errors) =
      if all (λ e. e.json_invalid) (e ∷ errors)
      then json_invalid_response (e ∷ errors)
      else record {
        status_code = 422;
        error = record {
          code = codes "validation_error";
          message = some (codes "Request validation failed");
          request_id = request_id;
          fields =
              some (map (λ e. record { field = field_name e.loc; issue = e.msg }) (e ∷ errors));
        };
        retry_after = none;
      }

-- The `detail` of an HTTPException: a dictionary with or without the two keys, or another value, after `str`.
pub data HttpDetail : Type 0 where
  keyed : (code message : Option Text) → HttpDetail
  said : Text → HttpDetail
  absent : HttpDetail

abbrev code_of : HttpDetail → Text
code_of (keyed (some code) message) = code
code_of _ = codes "http_error"

abbrev message_of : HttpDetail → Text
message_of (keyed code (some message)) = message
message_of (keyed code none) = []
message_of (said text) = text
message_of absent = []

unfoldable pub handle_http_exception :
    (request_id : Text) (status_code : ℕ) (detail : HttpDetail) → ErrorResponse
handle_http_exception request_id status_code detail =
    plain_response status_code (code_of detail) (some (message_of detail)) request_id
