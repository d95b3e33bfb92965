-- ===== src/Messaging.antt =====
-- pkg/messaging: the messages, connections and destinations over an AMQP 0.9.1 broker.
pub mod Message
pub mod Wire
pub mod RoundTrip
pub mod Connection
pub mod Opening
pub mod Dialling
pub mod Connecting
pub mod Session
pub mod Reconnection
pub mod Lifetime
pub mod Lasting
pub mod Pooling
pub mod Waiting
pub mod Address
pub mod AddressText
pub mod Broker
pub mod Producer
pub mod Send
pub mod Dispatcher
pub mod Conservation
pub mod Draining
pub mod Stranding
pub mod Consumer
pub mod Receiver
pub mod Tending
pub mod Held
pub mod OneChannel
pub mod Ordering
pub mod Returns
pub mod Undeliverable
pub mod Routing
pub mod Sending
pub mod Subscription
