-- ===== src/Docker/Client.antt =====
-- internal/docker/client.go. What the Docker library's constructor and its ping answer are
-- parameters.
use openwatch.Base.{Bool, true, false}
use openwatch.Base.Text.{codes}
use openwatch.Base.Errors.{Result, ok, err, wrap}

-- The client, and whether one that was opened has been closed again.
unfoldable pub new_client :
    {Client : Type 0} → Result Client → Result (Unit {0}) → Result Client × Bool
new_client (err e) ping = (err (wrap (codes "create docker client") e), false)
new_client (ok cli) (err e) = (err (wrap (codes "ping docker daemon") e), true)
new_client (ok cli) (ok u) = (ok cli, false)
