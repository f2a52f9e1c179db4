-- ===== src/Tests/Starting.antt =====
-- The start of the server at concrete inputs.
use enigma_relay.Base.{refl, true, none, some, Option, List, [], ◌∷◌, ◌++◌, String, ℕ}
use enigma_relay.Base.Text.{Text, codes}
use enigma_relay.Error.{done}
use enigma_relay.Config.{Features, RelayConfig, default_config, TlsConfig, tls_mode}
use enigma_relay.StoreMem.{mem_store}
use enigma_relay.StoreMem.State.{new}
use enigma_relay.Metrics.{default_metrics}
use enigma_relay.Store.{DynRelayStore}
use enigma_relay.Server.Tls.{
  Rustls, collect_all, add_all, verifier_from, client_verifier, build_rustls_config, Secures,
  build_rustls_config-Secures,
}
use enigma_relay.Server.Listen.{Net, Route, routes, RunningRelay}
use enigma_relay.Server.Listen.Started.{Started}
use enigma_relay.Tests.Data.{latin, in_order}

-- Every file has one certificate and two keys; a configuration is what it is built of.
abbrev toy_tls : Rustls
toy_tls = record {
  File = String;
  Certificate = ℕ;
  PrivateKey = ℕ;
  RootCertStore = List ℕ;
  Verifier = List ℕ;
  ServerConfig = Option (List ℕ) × List ℕ × ℕ;
  open_file = λ path. done path;
  certs = λ file. done 5 ∷ [];
  pkcs8_private_keys = λ file. done 7 ∷ done 8 ∷ [];
  empty = [];
  add = λ ca store. done (ca ∷ store);
  build_verifier = λ store. done store;
  with_single_cert = λ verifier chain key. done (verifier, chain, key);
}

-- A builder is the routes; a server is the configuration of rustls, the address and the builder.
abbrev toy_net : Net toy_tls.ServerConfig
toy_net = record {
  TcpListener = Text;
  Builder = List Route;
  Server = Option toy_tls.ServerConfig × Text × List Route;
  Sender = ℕ;
  ShutdownSignal = ℕ;
  http_server = λ state routes. routes;
  bind = λ address. done address;
  set_nonblocking = λ listener. done listener;
  local_addr = λ listener. done (codes "127.0.0.1:4433");
  listen = λ listener builder. done (none, listener, builder);
  listen_rustls = λ listener c builder. done (some c, listener, builder);
  channel = (1, 2);
}

abbrev secure_features : Features
secure_features = record {
  http = true;
  tls = true;
  mtls = true;
  persistence = true;
  metrics = true;
}

abbrev tls_config : TlsConfig
tls_config = record {
  cert_pem_path = "cert.pem";
  key_pem_path = "key.pem";
  client_ca_pem_path = some "ca.pem";
}

build_rustls_config-Secures_example :
    Secures toy_tls secure_features tls_config (some (5 ∷ []), 5 ∷ [], 8)
unfolding build_rustls_config collect_all client_verifier verifier_from add_all
build_rustls_config-Secures_example =
    build_rustls_config-Secures toy_tls secure_features tls_config (some (5 ∷ []), 5 ∷ [], 8) refl

abbrev secure_config : RelayConfig
secure_config = record default_config { mode = tls_mode; tls = some tls_config }

abbrev given : DynRelayStore
given = record { relay_store = mem_store latin in_order; state = new }

abbrev running : RunningRelay toy_tls toy_net
running = record {
  base_url = codes "https" ++ (codes "://" ++ codes "127.0.0.1:4433");
  shutdown = 1;
  handle = record {
    shutdown = 2;
    server = (some (some (5 ∷ []), 5 ∷ [], 8), codes "127.0.0.1:0", routes);
    gc_task = record {
      store = given;
      limits = default_config.relay;
      shutdown = 2;
      metrics = some default_metrics;
    };
  };
}
