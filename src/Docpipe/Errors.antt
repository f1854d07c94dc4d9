-- ===== src/Docpipe/Errors.antt =====
-- errors.py: the structured errors of the parsers.
use mama_gift.Base.{
  Bool, Option, String, false, list_eq, nat_eq, none, option_eq, some, string_eq, true,
}

pub data ParserErrorCode : Type 0 where
  provider_unavailable encrypted_pdf invalid_pdf unsupported_input : ParserErrorCode
  parse_timeout provider_failure normalization_failure recording_missing : ParserErrorCode
  parser_strategy_undecided : ParserErrorCode

-- RETRYABLE_CODES
unfoldable pub is_retryable_code : ParserErrorCode → Bool
is_retryable_code parse_timeout = true
is_retryable_code provider_failure = true
is_retryable_code _ = false

pub record ParserError : Type 0 where
  pub code : ParserErrorCode
  pub message : String
  pub retryable : Bool
  pub parser_name : String

-- `ParserError(code, message, parser_name, retryable=...)`; `none` takes the code's default
unfoldable pub parser_error : ParserErrorCode → String → String → Option Bool → ParserError
parser_error code message parser_name retryable = record {
  code = code;
  message = message;
  retryable = elim retryable [ none ↦ is_retryable_code code | some b ↦ b ];
  parser_name = parser_name;
}
