-- ===== src/Client/Waiting.antt =====
-- The wait for the first configs, and the two ways to go on after a timeout.
use prefab_cloud_go.Prelude.{GoString, ret, ◌≡◌, Bool}
use prefab_cloud_go.Errors.{Result}
use prefab_cloud_go.Contexts.{ContextSet}
use prefab_cloud_go.Resolver.{ConfigMatch}
use prefab_cloud_go.Client.{Client, internal_get_value}

-- Calls of `internalGetValue` in sequence that all return, from a client to the client behind them.
pub data Calls : Client → Client → Type 0 where
  none_made : {c : Client} → Calls c c
  call :
      {c later last : Client} (in_time : Bool) (key : GoString) (set : ContextSet)
      {result : Result ConfigMatch}
      → internal_get_value c in_time key set ≡ ret (later, result)
      → Calls later last
      → Calls c last
