-- ===== src/Examples/Consumers.antt =====
-- Consumers and returned messages at concrete inputs.
use lambda_runtime_api_daemo.Base.{
  ◌≡◌, refl, true, false, none, some, [], ◌∷◌, arith, nat_eq, codes, bytes_eq,
}
use lambda_runtime_api_daemo.Messaging.Wire.{
  Delivery, Publishing, from_delivery, from_return, received, returned,
}
use lambda_runtime_api_daemo.Messaging.Receiver.{
  awaiting, left, Receivers, new_receivers, start_receivers, consume, put, take_delivery, hand_over,
  lose_channel, takes, hands, loses, here, later,
}
use lambda_runtime_api_daemo.Messaging.Tending.{Tended, Run-Tended}
use lambda_runtime_api_daemo.Messaging.Held.{Sub}
use lambda_runtime_api_daemo.Messaging.Ordering.{Run-in_order}
use lambda_runtime_api_daemo.Messaging.Returns.{Returns, sends, ends, make_returns, forward_returns}
use lambda_runtime_api_daemo.Messaging.Undeliverable.{make_returns-take}

abbrev fresh : Receivers
fresh = record {
  pool_size = 1;
  auto_ack = true;
  consuming = false;
  receivers = [];
  taken = [];
  closed = false;
  session_closed = false;
}

-- The channel of the one dispatcher is lost.
abbrev lost : Receivers
lost = record fresh { consuming = true; receivers = (0, left) ∷ []; closed = true }

Run-Tended_example : Tended lost
unfolding consume start_receivers new_receivers lose_channel put
Run-Tended_example =
    Run-Tended fresh (omega arith) refl (later here (loses 0 0 (consume fresh) refl))

abbrev delivery : Delivery
delivery = record {
  headers = [];
  content_type = [];
  content_encoding = [];
  delivery_mode = 2;
  priority = 0;
  correlation_id = codes "id";
  reply_to = [];
  expiration = [];
  message_id = [];
  timestamp = none;
  type_name = [];
  user_id = [];
  app_id = [];
  consumer_tag = codes "tag";
  delivery_tag = 7;
  redelivered = false;
  routing_key = codes "echo";
  body = codes "hello";
}

abbrev has_received : Receivers
has_received = record fresh {
  consuming = true;
  receivers = (0, awaiting) ∷ [];
  taken = from_delivery true delivery ∷ [];
}

Run-in_order_example : Sub (from_delivery true delivery ∷ []) (from_delivery true delivery ∷ [])
unfolding consume start_receivers new_receivers take_delivery hand_over put received
Run-in_order_example = Run-in_order fresh {e = has_received} refl refl refl refl refl (
    later (later here (takes 0 0 (some delivery) (consume fresh) refl)) (
      hands 0 0 (from_delivery true delivery) (take_delivery 0 0 (some delivery) (consume fresh))
        refl))

abbrev undelivered : Publishing
undelivered = record {
  exchange = [];
  routing_key = codes "nobody";
  mandatory = true;
  immediate = false;
  headers = [];
  content_type = [];
  content_encoding = [];
  delivery_mode = 2;
  priority = 0;
  correlation_id = codes "id";
  reply_to = [];
  expiration = [];
  message_id = [];
  timestamp = none;
  type_name = [];
  user_id = [];
  app_id = [];
  body = codes "hello";
}

abbrev quiet_producer : Returns
quiet_producer = record { pool_size = 1; buf_size = 0; returns = none; started = 0 }

make_returns-take_example :
    (forward_returns
      ((sends, some undelivered) ∷ (ends, some undelivered) ∷ (sends, none) ∷ [])
      (make_returns 1 quiet_producer)).returns
    ≡ some (from_return undelivered ∷ [])
unfolding returned
make_returns-take_example =
    make_returns-take 1 quiet_producer
      ((sends, some undelivered) ∷ (ends, some undelivered) ∷ (sends, none) ∷ []) refl
