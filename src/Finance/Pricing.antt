-- ===== src/Finance/Pricing.antt =====
-- The line maths of invoices and bills, and the status of a document by what is paid
-- (backend/app/modules/finance/service.py, `_priced_lines` and `_status_for`).
pub mod Totals
use blyns_ops.Prelude.{ℕ, ◌+◌, String, Bool, Option, List, [], ◌∷◌, ◌==◌, ltb, if◌then◌else◌}
use blyns_ops.Tenant.{PricedLine, Status, RawId}

-- The products of floating-point numbers, rounded to cents by Python's `round`: `money(qty * price)`,
-- `money(amount * rate / 100)` and `money(price)`. A price and a rate are any encoding of the numbers.
pub record Rounding : Type 0 where
  pub line_amount : ℕ → ℕ → ℕ
  pub line_tax : ℕ → ℕ → ℕ
  pub cents : ℕ → ℕ

pub record DocLine : Type 0 where
  pub description : String
  pub qty : ℕ
  pub unit_price : ℕ
  pub tax_rate : ℕ
  pub product_id : Option RawId

-- The lines, the subtotal, the tax total and the total.
pub record Priced : Type 0 where
  pub lines : List PricedLine
  pub subtotal : ℕ
  pub tax_total : ℕ
  pub total : ℕ

module _ (r : Rounding) where
  abbrev pub price_line : DocLine → PricedLine
  price_line l = record {
    description = l.description;
    qty = l.qty;
    unit_price = r.cents l.unit_price;
    tax_rate = l.tax_rate;
    amount = r.line_amount l.qty l.unit_price;
    tax_amount = r.line_tax (r.line_amount l.qty l.unit_price) l.tax_rate;
    product_id = l.product_id;
  }

  -- The loop, with its two running sums.
  unfoldable pub price_loop : List DocLine → ℕ → ℕ → Priced
  price_loop [] subtotal tax_total = record {
    lines = [];
    subtotal = subtotal;
    tax_total = tax_total;
    total = subtotal + tax_total;
  }
  price_loop (l ∷ ls) subtotal tax_total =
      let line = price_line l in
      let rest = price_loop ls (subtotal + line.amount) (tax_total + line.tax_amount) in
      record rest { lines = line ∷ rest.lines }

  unfoldable pub priced_lines : List DocLine → Priced
  unfolding price_loop
  priced_lines lines = price_loop lines 0 0

-- `paid <= 0` is `paid == 0`, since amounts are not negative.
unfoldable pub status_for : ℕ → ℕ → Status
status_for amount total =
    if amount == 0
    then Status.sent
    else if ltb amount total
    then Status.partly_paid
    else Status.paid
