-- ===== src/Proxy/Headers/Examples.antt =====
-- The theorems on headers at concrete ones.
use cachic.Common.{◌⊎◌, ◌≡◌, [], ◌∷◌}
use cachic.Common.Text.{codes}
use cachic.Common.Headers.{HeaderMap, header_values}
use cachic.Proxy.Headers.{forwarded_request_headers}
use cachic.Proxy.Headers.Withheld.{KeptBack}
use cachic.Proxy.Headers.Forwarded.{forwarded_request_headers-withheld}

abbrev client : HeaderMap
client =
    (codes "connection", codes "X-Token, close")
    ∷ (codes "x-token", codes "1")
    ∷ (codes "cookie", codes "id=2")
    ∷ (codes "user-agent", codes "steam")
    ∷ []

forwarded_request_headers-withheld_example :
    ((header_values (codes "x-token") (forwarded_request_headers client) ≡ [])
      × KeptBack client (codes "x-token"))
    ⊎ ((header_values (codes "x-token") (forwarded_request_headers client)
          ≡ header_values (codes "x-token") client)
        × ¬ KeptBack client (codes "x-token"))
forwarded_request_headers-withheld_example =
    forwarded_request_headers-withheld (codes "x-token") client
