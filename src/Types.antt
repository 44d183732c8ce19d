-- ===== src/Types.antt =====
-- chamge/types.h, and the state of a node (chamge/node.h).
use chamge.Prelude.{Text, Bool, true, false}

pub data Return : Type 0 where
  fail ok async : Return

pub data NodeState : Type 0 where
  null enrolled activated : NodeState

pub data BackendKind : Type 0 where
  unknown mock amqp : BackendKind

pub data ErrorCode : Type 0 where
  invalid_parameter operation_failure inaccessible missing_parameter : ErrorCode

-- GError, in the domain CHAMGE_BACKEND_ERROR.
pub record Error : Type 0 where
  pub code : ErrorCode
  pub message : Text

abbrev pub is_ok : Return → Bool
is_ok ok = true
is_ok _ = false
