-- ===== src/Trading/Messages/Equality.antt =====
-- `operator==` of `Message`, the conjunction of the comparisons of its fields.
use limit_order_book.Base.{ℕ, Bool, true, ◌&&◌, ◌≡◌, refl, ◌==◌, nat_eq}
use limit_order_book.Types.{side_eq}
use limit_order_book.Map.Laws.{beq_refl}
use limit_order_book.Trading.Messages.{Message}
use limit_order_book.Trading.Messages.Bytes.{
  kind_byte, action_byte, order_type_byte, tif_byte, report_byte, reject_byte, update_byte,
  bool_byte,
}

-- Enumerators are compared by their values.
unfoldable pub message_beq : Message → Message → Bool
unfolding kind_byte action_byte order_type_byte tif_byte report_byte reject_byte update_byte
    bool_byte
message_beq a b =
    (kind_byte a.kind == kind_byte b.kind)
    && ((action_byte a.action == action_byte b.action)
        && ((a.side == b.side)
            && ((order_type_byte a.order_type == order_type_byte b.order_type)
                && ((tif_byte a.tif == tif_byte b.tif)
                    && ((report_byte a.report == report_byte b.report)
                        && ((reject_byte a.reject == reject_byte b.reject)
                            && ((update_byte a.update == update_byte b.update)
                                && ((bool_byte a.post_only == bool_byte b.post_only)
                                    && ((a.epoch == b.epoch)
                                        && ((a.sequence == b.sequence)
                                            && ((a.client_id == b.client_id)
                                                && ((a.price == b.price)
                                                    && ((a.request_id == b.request_id)
                                                        && ((a.order_id == b.order_id)
                                                            && ((a.exchange_id == b.exchange_id)
                                                            && ((a.instrument_id == b.instrument_id)
                                                            && ((a.quantity == b.quantity)
                                                            && ((a.remaining == b.remaining)
                                                            && (a.trade_id
                                                            == b.trade_id)))))))))))))))))))

both : (a b : Bool) → a ≡ true → b ≡ true → (a && b) ≡ true
both a b h k = rw (h, k) refl

same : (n : ℕ) → (n == n) ≡ true
same n = beq_refl n

pub message_beq_refl : (m : Message) → message_beq m m ≡ true
unfolding message_beq
message_beq_refl m = both _ _ (same (kind_byte m.kind)) (
    both _ _ (same (action_byte m.action)) (
      both _ _ (beq_refl m.side) (
        both _ _ (same (order_type_byte m.order_type)) (
          both _ _ (same (tif_byte m.tif)) (
            both _ _ (same (report_byte m.report)) (
              both _ _ (same (reject_byte m.reject)) (
                both _ _ (same (update_byte m.update)) (
                  both _ _ (same (bool_byte m.post_only)) (
                    both _ _ (same m.epoch) (
                      both _ _ (same m.sequence) (
                        both _ _ (same m.client_id) (
                          both _ _ (same m.price) (
                            both _ _ (same m.request_id) (
                              both _ _ (same m.order_id) (
                                both _ _ (same m.exchange_id) (
                                  both _ _ (same m.instrument_id) (
                                    both _ _ (same m.quantity) (
                                      both _ _ (same m.remaining)
                                        ((same m.trade_id))))))))))))))))))))
