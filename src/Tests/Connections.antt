-- ===== src/Tests/Connections.antt =====
-- Runs of the life of a connection (internal/transport).
use micelio.Base.{◌≡◌, refl, arith, true, false, none, some, [], ◌∷◌, nat_eq}
use micelio.Base.Dict
use micelio.Base.Bytes.{bytes_eq, bytes_beq, codes}
use micelio.Stdlib.Hex
use micelio.Proto.{verify_envelope, envelope_sign_data}
use micelio.Transport.State.{Manager, Identity}
use micelio.Transport.Hello.{
  receive_hello, recv_hello, verify_peer_identity, from_option, reject_if,
}
use micelio.Transport.Hello.Greeting.{Encoder, local_hello, send_hello}
use micelio.Transport.Peers.{add_peer}
use micelio.Transport.Chat.{node_engine}
use micelio.Transport.Connections.{
  EngineView, Opening, running, open_connection, exchange_hello, greet, be_greeted, enter_table,
  new_link, to_peer, hello_config, Settings, new_manager, fresh_manager,
}
use micelio.Transport.Connections.Greeted.{Known, open_connection-Known}
use micelio.Transport.Connections.WellFormed.{WellFormed}
use micelio.Transport.Connections.Steps.{IsWire}
use micelio.Transport.Connections.Events.{
  inbound, outbound, disconnected, framed, dials_ticked, listening, after_all, manager-WellFormed,
}
use micelio.Identity.Stable.{IsOwn}
use micelio.Transport.Discovery.{load_known_peers}
use micelio.Tests.{toy_crypto, key_a, private_a, id_a}
use micelio.Tests.Transport.{wire, greeted, manager}
use micelio.Tests.Exchange.{services, key_bytes, infos_bytes}

abbrev encoder : Encoder
encoder = record { envelope = λ env. some (codes "e"); hello = λ hello. some (codes "h") }

abbrev opening : Opening
opening = record {
  handshake = some key_a;
  frame = some (1 ∷ []);
  takes = λ bytes. true;
  hello_id = codes "m1";
  exchange_id = codes "m2";
}

greeted_runs :
    (open_connection services wire encoder (λ infos. some []) [] manager false opening 60).1
    ≡ running greeted
unfolding open_connection exchange_hello greet be_greeted enter_table new_link to_peer hello_config
    local_hello send_hello add_peer receive_hello recv_hello verify_peer_identity from_option
    reject_if verify_envelope envelope_sign_data Hex.encode bytes_beq Dict.lookup
greeted_runs = refl

open_connection-Known_example :
    Known services wire encoder (λ infos. some []) [] opening false greeted
open_connection-Known_example =
    open_connection-Known services wire encoder (λ infos. some []) [] manager false opening 60
      greeted greeted_runs

wire_bytes : IsWire wire
wire_bytes = record {
  hello_bytes = λ raw hello got. ground (arith, key_bytes);
  exchange_bytes = λ raw infos got. ground (arith, infos_bytes);
}

abbrev pub own : Identity
own = record { node_id = id_a; public_key = key_a; private_key = private_a }

own-IsOwn : IsOwn toy_crypto own
unfolding Hex.encode
own-IsOwn = record { named = refl; paired = refl }

abbrev settings : Settings
settings = record { max_peers = 1; advertise_addr = []; bootstrap = [] }

abbrev started : Manager
started = load_known_peers services (fresh_manager settings own none)

started_by : new_manager services settings own (some key_a) none ≡ some started
unfolding new_manager
started_by = refl

abbrev view : EngineView
view = record { engine = node_engine own; handles = []; shuffle = λ ps. ps }

-- A peer comes, another is dialled, the first sends a list of peers and a gossip message and leaves.
manager-WellFormed_example : WellFormed services (
    after_all services wire encoder
      (λ infos. some [])
      []
      started
      (listening (codes "10.0.0.1:4000")
        ∷ inbound opening 60
        ∷ outbound true opening 61
        ∷ framed view greeted (4 ∷ []) 62
        ∷ framed view greeted (3 ∷ []) 63
        ∷ dials_ticked 63
        ∷ disconnected id_a
        ∷ []))
manager-WellFormed_example =
    manager-WellFormed services wire encoder (λ infos. some []) [] wire_bytes settings own
      (some key_a) none started
      (listening (codes "10.0.0.1:4000")
        ∷ inbound opening 60
        ∷ outbound true opening 61
        ∷ framed view greeted (4 ∷ []) 62
        ∷ framed view greeted (3 ∷ []) 63
        ∷ dials_ticked 63
        ∷ disconnected id_a
        ∷ [])
      own-IsOwn started_by
