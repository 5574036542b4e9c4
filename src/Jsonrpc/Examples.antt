-- ===== src/Jsonrpc/Examples.antt =====
-- Requests to the sample server.
use fork_observer.Prelude.{◌≡◌, ◌↔◌}
use fork_observer.Prelude.Results.{ok}
use fork_observer.Jsonrpc.{btcd_blockheader}
use fork_observer.Jsonrpc.Answers.{DeliversHeader, btcd_blockheader_iff}
use fork_observer.Samples.Serving.{web}

btcd_blockheader_iff_example :
    (btcd_blockheader web "u" "user" "pass" "a" ≡ ok "a")
    ↔ DeliversHeader web "u" "user" "pass" "a" "a"
btcd_blockheader_iff_example = btcd_blockheader_iff web "u" "user" "pass" "a" "a"
