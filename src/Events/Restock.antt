-- ===== src/Events/Restock.antt =====
-- What an ad becomes when stock comes back.
use bazos.Base.{
  ℕ, suc, ◌≡◌, refl, List, true, false, ◌||◌, arith, ◌==◌, nat_eq, if◌then◌else◌, ℕ_discrete,
}
use bazos.Store.{
  BazosAd, StockEventType, stock_updated, stock_out, stock_event_type_eq, StockEventType-discrete,
  PublishStatus, PublishStatus-discrete, publish_status_eq,
}
use bazos.Events.Stock.{project_stock}

-- An ad that a stock event took off sale becomes active with the next event that reports stock. It
-- becomes a draft only if the event before was `stock.out`. After a `stock.updated` with no stock
-- it stays deleted, though active.
pub project_stock-restock :
    (now later : ℕ) (out_id back_id : List ℕ) (type : StockEventType) (target n : ℕ)
    (ad row : BazosAd)
    → (type == stock_out || target == 0) ≡ true
    → ((project_stock later back_id stock_updated
          (suc n)
          (project_stock now out_id type target ad row)
          (project_stock now out_id type target ad row)).is_active
        ≡ true)
      × ((project_stock later back_id stock_updated
            (suc n)
            (project_stock now out_id type target ad row)
            (project_stock now out_id type target ad row)).publish_status
          ≡ (if type == stock_out then PublishStatus.draft else PublishStatus.deleted))
unfolding project_stock StockEventType-discrete PublishStatus-discrete ℕ_discrete
project_stock-restock now later out_id back_id type target n ad row out =
    let left : (suc n == 0) ≡ false = ground arith in rw (out, left) (refl, refl)
