-- ===== src/Deliveries/Steps.antt =====
-- The committed transactions on the outbox, in any order and from any connection, and what each does
-- to the delivery table.
use coordinate.Base.{
  ℕ, String, ◌≡◌, Bool, false, Option, List, nat_dec_eq, string_dec_eq, Result, ok,
}
use coordinate.Schema.{Db, Delivery}
use coordinate.Resources.{Platform}
use coordinate.Events.Log.{DbError}
use coordinate.Deliveries.Ledger.{
  NewDelivery, create_delivery, get_delivery, is_channel_delivery, mark_delivery_sending,
  mark_delivery_sent, mark_delivery_failed, recover_sending_deliveries,
}
use coordinate.Deliveries.Channel.{
  Reservation, ReserveInput, ChannelDeliveryReservation, reserve_channel_delivery, FinishInput,
  finish_channel_delivery,
}

-- The marks are those of `send_delivery`, which come after its test of the row.
pub data Step (lib : Platform) (db : Db) : Db → Type 0 where
  elsewhere : {after : Db} → after.deliveries ≡ db.deliveries → Step lib db after
  created :
      {after : Db} (now : ℕ) (id : String) (n : NewDelivery) (r : Delivery × Bool)
      → create_delivery db now id n ≡ ok (r, after)
      → Step lib db after
  marked_sending :
      {after : Db} (now : ℕ) (id : String) (d row : Delivery)
      → get_delivery db id ≡ ok d
      → is_channel_delivery d ≡ false
      → mark_delivery_sending db now id ≡ ok (row, after)
      → Step lib db after
  marked_sent :
      {after : Db} (now : ℕ) (id message_id : String) (d row : Delivery)
      → get_delivery db id ≡ ok d
      → is_channel_delivery d ≡ false
      → mark_delivery_sent db now id message_id ≡ ok (row, after)
      → Step lib db after
  marked_failed :
      {after : Db} (now : ℕ) (id error : String) (is_dead : Bool) (d row : Delivery)
      → get_delivery db id ≡ ok d
      → is_channel_delivery d ≡ false
      → mark_delivery_failed db now id error is_dead ≡ ok (row, after)
      → Step lib db after
  recovered :
      {after : Db} (now : ℕ) (platform : Option String) (reason : String)
      (rows : Result DbError (List Delivery))
      → recover_sending_deliveries db now platform reason ≡ (rows, after)
      → Step lib db after
  reserved :
      {after : Db} (i : ReserveInput) (q : Reservation) (r : ChannelDeliveryReservation)
      → reserve_channel_delivery lib db i q ≡ ok (r, after)
      → Step lib db after
  finished :
      {after : Db} (i : FinishInput) (id : String) (message_id : Option String) (rejected : Bool)
      (d : Delivery)
      → finish_channel_delivery db i id message_id rejected ≡ ok (d, after)
      → Step lib db after

pub data Steps (lib : Platform) (db : Db) : Db → Type 0 where
  start : Steps lib db db
  onward : {mid after : Db} → Steps lib db mid → Step lib mid after → Steps lib db after
