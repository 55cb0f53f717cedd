-- ===== src/PunchRecords/Deliveries.antt =====
-- src/admin/punchRecords.ts: the delivery log of a punch.
use adms.Retention.{get_or_create_platform_settings}
use adms.Store.Exec.{◌>>=◌, Async, promise_all, pure, read}
use adms.PunchRecords.{Visible, not_found, forbidden, visible, assert_visible}
use adms.Store.{WebhookDelivery, Db, Device, PunchRecord}
use adms.Prelude.{ℕ, String, Bool, Option, none, some, List, filter, length, ◌==◌, string_eq}
use adms.Access.{AdminIdentity}
use adms.DataTables.{TableQuery, page_of}
use adms.PunchRecords.Listing.{Serialized, serialize_record}

-- The delivery log of a punch: a refusal, or one page and the total.
pub data DeliveriesReply : Type 0 where
  refused : (status : ℕ) → DeliveriesReply
  deliveries_page : Serialized → List WebhookDelivery → (total page page_size : ℕ) → DeliveriesReply

abbrev is_delivery_of : String → WebhookDelivery → Bool
is_delivery_of id d = d.punch_record_id == id

abbrev deliveries_of : String → Db → List WebhookDelivery
deliveries_of id db = filter (is_delivery_of id) db.webhook_deliveries

-- `newest_first` is the database's `ORDER BY createdAt DESC`; a query that its schema refuses is
-- absent.
module _ (newest_first : List WebhookDelivery → List WebhookDelivery) where
  abbrev deliveries_page_of : PunchRecord → Device → TableQuery → Async DeliveriesReply
  deliveries_page_of p d query = do
    found ←
        promise_all (read (λ db. page_of query (newest_first (deliveries_of p.id db)))) (
          promise_all (read (λ db. length (deliveries_of p.id db))) get_or_create_platform_settings)
    let max_attempts = found.1.1.webhook_max_attempts
    pure (
        deliveries_page (serialize_record max_attempts (p, d)) found.0 found.1.0 query.page
          query.page_size)

  abbrev deliveries_visible : Option TableQuery → Visible → Async DeliveriesReply
  deliveries_visible query not_found = pure (refused 404)
  deliveries_visible query forbidden = pure (refused 403)
  deliveries_visible none (visible p d) = pure (refused 400)
  deliveries_visible (some query) (visible p d) = deliveries_page_of p d query

  -- GET /:id/deliveries
  unfoldable pub list_deliveries :
      AdminIdentity → String → Option TableQuery → Async DeliveriesReply
  unfolding serialize_record assert_visible page_of
  list_deliveries admin id query = do
    found ← read (assert_visible admin id)
    deliveries_visible query found
