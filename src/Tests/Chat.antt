-- ===== src/Tests/Chat.antt =====
-- Runs of a chat message from one node to the sessions of another (internal/transport).
use micelio.Base.{Option, none, some, ◌∷◌, ◌++◌, take, drop, length, ◌==◌, nat_eq}
use micelio.Base.Bytes.{Bytes, bytes_eq, codes}
use micelio.Base.Dict
use micelio.Stdlib.Crypto.{Crypto}
use micelio.Stdlib.Hex
use micelio.Proto.{ChatMessage}
use micelio.Gossip.Seen
use micelio.Gossip.KeyRing
use micelio.Gossip.Limiter
use micelio.Gossip.State.{Host}
use micelio.Partyline.{RemoteMsg}
use micelio.Transport.State.{Identity}
use micelio.Transport.Chat.{ChatCodec}
use micelio.Tests.{key_a, private_a, zeros}
use micelio.Tests.Greeting.{put_envelope}

-- A toy hash of 32 bytes.
abbrev crypto : Crypto
crypto = record {
  sum256 = λ bytes. take 32 (bytes ++ zeros 32);
  sign = λ private_key msg. take 1 private_key ++ zeros 63;
  verify = λ public_key msg signature. take 1 signature == take 1 public_key;
  public = λ private_key. take 32 private_key;
}

abbrev host : Host
host = record { crypto = crypto; marshal = λ env. some (put_envelope env); shuffle = λ ps. ps }

-- The codec of a chat message puts the timestamp in front of the length of the nick.
abbrev unmarshal : Bytes → Option ChatMessage
unmarshal (ts ∷ n ∷ rest) = some (record { nick = take n rest; text = drop n rest; timestamp = ts })
unmarshal _ = none

abbrev codec : ChatCodec
codec = record {
  marshal = λ chat. some (chat.timestamp ∷ length chat.nick ∷ (chat.nick ++ chat.text));
  unmarshal = unmarshal;
}

abbrev ada : Identity
ada = record {
  node_id = Hex.encode (take 32 (key_a ++ zeros 32));
  public_key = key_a;
  private_key = private_a;
}

abbrev bob : Identity
bob = record { node_id = codes "bb"; public_key = key_b; private_key = 11 ∷ zeros 63 }
  where
    key_b : Bytes
    key_b = 11 ∷ zeros 31

abbrev said : RemoteMsg
said = record { nick = codes "ada"; text = codes "hi" }

abbrev payload : Bytes
payload = 9 ∷ 3 ∷ codes "adahi"
