-- ===== src/Sni/Examples.antt =====
-- The theorems on the ClientHello at a record for one host.
use cachic.Common.{◌≡◌, refl, ◌∙◌, some, [], ◌∷◌, replicate}
use cachic.Common.Text.{codes, utf8, is_ascii, is_empty, to_ascii_lowercase}
use cachic.Sni.ClientHello.{host_of}
use cachic.Sni.ClientHello.RoundTrip.{Hello, print_record, server_name-host_of}
use cachic.Sni.ClientHello.Answers.{IsHost, server_name-IsHost}

abbrev hello : Hello
hello = record {
  record_version = 769;
  high = 0;
  low = 60;
  client_version = 771;
  random = replicate 32 0;
  session_id = [];
  cipher_suites = 19 ∷ 1 ∷ [];
  compression_methods = 0 ∷ [];
  before = record { kind = 10; body = 1 ∷ 2 ∷ []; other_kind = refl } ∷ [];
  name = codes "CDN.example";
  more_names = [];
  after = [];
  random_length = refl;
}

hello_host : host_of (codes "CDN.example") ≡ some (codes "cdn.example")
unfolding host_of utf8 is_ascii is_empty to_ascii_lowercase
hello_host = refl

server_name-IsHost_example : IsHost (codes "cdn.example")
server_name-IsHost_example =
    server_name-IsHost (print_record hello) (server_name-host_of hello ∙ hello_host)
