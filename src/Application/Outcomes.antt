-- ===== src/Application/Outcomes.antt =====
-- application/command.py and application/query.py: commands, queries and their results. The abstract
-- handlers declare no behaviour. The field `data` is called `payload` here.
use converse_os.Prelude.{ℕ, String, [], Option, none, some, Bool, true, false}
use converse_os.Prelude.Dict.{Dict}
use converse_os.Domain.Value.{Value}
use converse_os.Domain.Pagination.{Pagination}

pub record Command : Type 0 where
  pub command_id : ℕ
  pub tenant_id : Option ℕ
  pub user_id : Option ℕ
  pub correlation_id : Option String
  pub timestamp : ℕ

pub record Query : Type 0 where
  pub query_id : ℕ
  pub tenant_id : Option ℕ
  pub user_id : Option ℕ
  pub correlation_id : Option String
  pub timestamp : ℕ
  pub pagination : Option Pagination

pub record CommandResult : Type 0 where
  pub success : Bool
  pub payload : Option Value
  pub error_code : Option String
  pub error_message : Option String
  pub metadata : Dict String Value

unfoldable pub command_ok : Option Value → Dict String Value → CommandResult
command_ok payload metadata = record {
  success = true;
  payload = payload;
  error_code = none;
  error_message = none;
  metadata = metadata;
}

unfoldable pub command_fail : String → String → Dict String Value → CommandResult
command_fail error_code error_message metadata = record {
  success = false;
  payload = none;
  error_code = some error_code;
  error_message = some error_message;
  metadata = metadata;
}

pub record QueryResult : Type 0 where
  pub success : Bool
  pub payload : Option Value
  pub error_code : Option String
  pub error_message : Option String
  pub metadata : Dict String Value

unfoldable pub query_ok : Option Value → Dict String Value → QueryResult
query_ok payload metadata = record {
  success = true;
  payload = payload;
  error_code = none;
  error_message = none;
  metadata = metadata;
}

unfoldable pub query_fail : String → String → QueryResult
query_fail error_code error_message = record {
  success = false;
  payload = none;
  error_code = some error_code;
  error_message = some error_message;
  metadata = [];
}
