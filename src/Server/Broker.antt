-- ===== src/Server/Broker.antt =====
-- crates/pes-server/src/broker.rs: `InProcessBroker`. The channel stands as the list of what is in it; a
-- send that finds it full waits, and is a step of its own once there is room. Fewer than 2^64 events are
-- published by one process.
use prometheus_entity_sync.Base.{
  Text, codes, Result, ok, err, List, [], ◌∷◌, ◌++◌, ℕ, ◌+◌, ltb, length, Bool, true, false,
  if◌then◌else◌, Option, none, some,
}
use prometheus_entity_sync.Router.Run.{EventEnvelope}

abbrev pub channel_buffer : ℕ
channel_buffer = 1024

-- What the sender holds, whether the receiver is still to be taken, and the next offset.
pub record InProcessBroker : Type 0 where
  pub queue : List EventEnvelope
  pub rx : Bool
  pub next_offset : ℕ

abbrev pub new_broker : InProcessBroker
new_broker = record { queue = []; rx = true; next_offset = 0 }

-- The two halves of `publish`: the envelope takes the next offset, and is sent.
unfoldable pub take_offset : EventEnvelope → InProcessBroker → EventEnvelope × InProcessBroker
take_offset e b =
    (record e { offset = b.next_offset }, record b { next_offset = b.next_offset + 1 })

unfoldable pub send : EventEnvelope → InProcessBroker → Option InProcessBroker
send e b =
    if ltb (length b.queue) channel_buffer
    then some (record b { queue = b.queue ++ e ∷ [] })
    else none

unfoldable pub subscribe : InProcessBroker → Result Text InProcessBroker
subscribe b =
    if b.rx
    then ok (record b { rx = false })
    else err (codes "InProcessBroker::subscribe called more than once")
