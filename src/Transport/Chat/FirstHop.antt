-- ===== src/Transport/Chat/FirstHop.antt =====
-- From fanoutLoop of one node to the sessions of its peer.
use micelio.Base.{ℕ, nat_eq}
use micelio.Base.Bytes.{Bytes, bytes_eq}
use micelio.Proto.{Envelope, sign_envelope}
use micelio.Gossip.State.{Host, Engine}
use micelio.Transport.State.{Identity}
use micelio.Transport.Chat.{chat_envelope}

abbrev fresh : Host → Identity → ℕ → Bytes → Bytes → Envelope
fresh h id max_hops message_id payload =
    sign_envelope h.crypto (chat_envelope id max_hops message_id payload) id.private_key
