-- ===== src/Health/Delivery.antt =====
-- messk/src/lib/deliveryStatus.ts
use messk.Prelude.{Bool, true, false, Text, codes, same, if◌then◌else◌, ◌≡◌, ◌↔◌, arith}
use messk.Store.{Status, pending, sent, delivered, read, failed}

pub data Tone : Type 0 where
  neutral waiting success danger : Tone

pub record DeliveryStatusPresentation : Type 0 where
  pub label : Text
  pub description : Text
  pub tone : Tone

unfoldable pub get_delivery_status_presentation : Status → Bool → DeliveryStatusPresentation
get_delivery_status_presentation pending is_group_message = record {
  label = codes "pending";
  description = codes "Message is encrypted locally and waiting for a successful send attempt.";
  tone = waiting;
}
get_delivery_status_presentation failed is_group_message = record {
  label = codes "error";
  description = codes "Message was not delivered. Use retry after checking the connection.";
  tone = danger;
}
get_delivery_status_presentation read is_group_message =
    if is_group_message
    then record {
      label = codes "distributed";
      description =
          codes
            "Message was delivered to the group delivery path. Group read receipts are not implied.";
      tone = success;
    }
    else record {
      label = codes "read";
      description = codes "Recipient client reported the message as read.";
      tone = success;
    }
get_delivery_status_presentation delivered is_group_message = record {
  label = if is_group_message then codes "distributed" else codes "delivered";
  description =
      if is_group_message
      then codes "Message was accepted by the group delivery path."
      else codes "Recipient device acknowledged delivery.";
  tone = success;
}
get_delivery_status_presentation sent is_group_message = record {
  label = codes "sent";
  description = codes "Server accepted the encrypted message for delivery.";
  tone = neutral;
}

-- A message is shown as read exactly when it is a direct message that has been read.
pub presentation-read_iff :
    (status : Status) (is_group_message : Bool)
    → (same (get_delivery_status_presentation status is_group_message).label (codes "read") ≡ true)
      ↔ ((status ≡ read) × (is_group_message ≡ false))
unfolding get_delivery_status_presentation same
presentation-read_iff pending b = ground arith
presentation-read_iff failed b = ground arith
presentation-read_iff read true = ground arith
presentation-read_iff read false = ground arith
presentation-read_iff delivered true = ground arith
presentation-read_iff delivered false = ground arith
presentation-read_iff sent b = ground arith
