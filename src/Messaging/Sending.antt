-- ===== src/Messaging/Sending.antt =====
-- What Send makes of a message when the producer's channel has closed.
use lambda_runtime_api_daemo.Base.{false, nat_eq, Bytes, bytes_eq}
use lambda_runtime_api_daemo.Messaging.Message.{Message}
use lambda_runtime_api_daemo.Messaging.Wire.{Publishing}
use lambda_runtime_api_daemo.Messaging.Session.{Session}
use lambda_runtime_api_daemo.Messaging.Address.{Destination}
use lambda_runtime_api_daemo.Messaging.Broker.{Broker}
use lambda_runtime_api_daemo.Messaging.Producer.{Producer}

-- The producer as an address makes it, before it is routed.
abbrev pub addressed : Destination → Producer → Producer
addressed d p = record p { name = d.name; subject = d.subject; closed = false }

-- The exchange and the routing key.
abbrev pub target : Publishing → Bytes × Bytes
target out = (out.exchange, out.routing_key)
