-- ===== src/Application/Dto.antt =====
-- application/dto.py: the envelope of every response, and the errors in it. The field `data` is
-- called `result`, since `data` is a reserved word.
use converse_os.Prelude.{ℕ, String, Option, none, some, List, [], Bool, true, false, string_eq}
use converse_os.Prelude.Dict.{Dict, insert}
use converse_os.Domain.Value.{Value, null, str}

pub record FieldError : Type 0 where
  pub field : String
  pub message : String
  pub code : String

pub record ErrorDetail : Type 0 where
  pub code : String
  pub message : String
  pub details : List FieldError
  pub status_code : ℕ

pub record ApiResponse : Type 0 where
  pub success : Bool
  pub result : Value
  pub error : Option ErrorDetail
  pub meta : Dict String Value
  pub request_id : Option String

-- `ApiResponse.ok`
unfoldable pub respond_ok : Value → Dict String Value → ApiResponse
respond_ok result meta = record {
  success = true;
  result = result;
  error = none;
  meta = meta;
  request_id = none;
}

-- `ApiResponse.created`
unfoldable pub respond_created : Value → Dict String Value → ApiResponse
unfolding insert
respond_created result meta = record {
  success = true;
  result = result;
  error = none;
  meta = insert "status" (str "created") meta;
  request_id = none;
}

-- `ApiResponse.fail`
unfoldable pub respond_fail : String → String → List FieldError → ℕ → ApiResponse
respond_fail error_code message details status_code = record {
  success = false;
  result = null;
  error = some (record {
    code = error_code;
    message = message;
    details = details;
    status_code = status_code;
  });
  meta = [];
  request_id = none;
}
