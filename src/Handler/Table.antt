-- ===== src/Handler/Table.antt =====
-- The handler with its command table: `exec` is `table_.dispatch(result.args, link)`.
use redis_plus.Prelude.{Option}
use redis_plus.Buffer.{Buffer}
use redis_plus.Commands.Base.{Args}
use redis_plus.Commands.Ops.{Link, PersistenceOps, ReplicationOps, World}
use redis_plus.Commands.Dispatch.{dispatch}
use redis_plus.Handler
use redis_plus.Handler.{Progress}

module _ {P R : Type 0} (pops : PersistenceOps P) (rops : ReplicationOps R) where
  unfoldable pub on_data :
      Option (Args → World P R → World P R)
      → Link
      → Buffer
      → Buffer
      → World P R
      → Option (Progress (World P R))
  on_data hook link input output w =
      Handler.on_data (λ args v. dispatch pops rops args link v) hook input output w

  -- `apply_silently`: no reply, and the hook is not called
  unfoldable pub apply_silently : Args → World P R → World P R
  unfolding dispatch
  apply_silently args w = (dispatch pops rops args Option.none w).1
