-- ===== src/SellAction/Stock.antt =====
-- The quantity that a draft offers: what was asked for, as far as Warehouse has it.
use bazos.Base.{ℕ, Option, none, some, Bool, if◌then◌else◌, ltb, leb, ℤ, pos, negsuc}

-- The whole part of a number that is finite and positive, else 0. The argument is the floor of the
-- number, `none` where it is not finite.
unfoldable pub normalize_stock_quantity : Option ℤ → ℕ
normalize_stock_quantity none = 0
normalize_stock_quantity (some (pos n)) = n
normalize_stock_quantity (some (negsuc n)) = 0

pub record WarehouseStock : Type 0 where
  pub total_available : ℕ
  pub requested_quantity : Option ℕ
  pub quantity : ℕ
  pub capped : Bool

abbrev pub requested_or : ℕ → Option ℕ → ℕ
requested_or total none = total
requested_or total (some n) = n

abbrev pub smaller : ℕ → ℕ → ℕ
smaller a b = if leb a b then a else b

unfoldable pub resolve_warehouse_stock : Option ℤ → Option ℕ → WarehouseStock
unfolding normalize_stock_quantity
resolve_warehouse_stock total requested =
    let available = normalize_stock_quantity total in
    let wanted = requested_or available requested in
    record {
      total_available = available;
      requested_quantity = requested;
      quantity = smaller wanted available;
      capped = ltb (smaller wanted available) wanted;
    }
