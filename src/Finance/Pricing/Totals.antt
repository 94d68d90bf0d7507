-- ===== src/Finance/Pricing/Totals.antt =====
-- The totals of a priced document, and its status by what is paid.
use blyns_ops.Prelude.{ℕ, ◌+◌, ◌<◌, ◌≤◌, ◌≡◌, ◌↔◌, refl, List, [], ◌∷◌, arith, map}
use blyns_ops.Tenant.{PricedLine, sent, partly_paid, paid}
use blyns_ops.Finance.Pricing.{
  Rounding, DocLine, Priced, price_line, price_loop, priced_lines, status_for,
}

abbrev pub sum_amount : List PricedLine → ℕ
sum_amount [] = 0
sum_amount (l ∷ ls) = l.amount + sum_amount ls

abbrev pub sum_tax : List PricedLine → ℕ
sum_tax [] = 0
sum_tax (l ∷ ls) = l.tax_amount + sum_tax ls

-- The totals are the sums over the lines, which are the given ones priced one by one.
pub record AddsUp (subtotal tax_total : ℕ) (p : Priced) : Type 0 where
  pub amounts : p.subtotal ≡ subtotal + sum_amount p.lines
  pub taxes : p.tax_total ≡ tax_total + sum_tax p.lines
  pub total : p.total ≡ p.subtotal + p.tax_total

module _ (r : Rounding) where
  price_loop-AddsUp :
      (ls : List DocLine) (subtotal tax_total : ℕ)
      → AddsUp subtotal tax_total (price_loop r ls subtotal tax_total)
  unfolding price_loop
  price_loop-AddsUp [] subtotal tax_total = omega arith
  price_loop-AddsUp (l ∷ ls) subtotal tax_total =
      let line = price_line r l in
      omega (arith, price_loop-AddsUp ls (subtotal + line.amount) (tax_total + line.tax_amount))

  price_loop-lines :
      (ls : List DocLine) (subtotal tax_total : ℕ)
      → (price_loop r ls subtotal tax_total).lines ≡ map (price_line r) ls
  unfolding price_loop
  price_loop-lines [] subtotal tax_total = refl
  price_loop-lines (l ∷ ls) subtotal tax_total =
      let line = price_line r l in
      rw (price_loop-lines ls (subtotal + line.amount) (tax_total + line.tax_amount))

  -- Pricing keeps the lines in order, and the document's totals are the sums over them.
  pub priced_lines_sums :
      (ls : List DocLine)
      → ((priced_lines r ls).lines ≡ map (price_line r) ls) × AddsUp 0 0 (priced_lines r ls)
  unfolding priced_lines
  priced_lines_sums ls = (price_loop-lines ls 0 0, price_loop-AddsUp ls 0 0)

-- The status says exactly how much is paid of a document of some value.
pub status_for_exact :
    (amount total : ℕ)
    → 0 < total
    → (status_for amount total ≡ sent ↔ amount ≡ 0)
      × (status_for amount total ≡ partly_paid ↔ (0 < amount) × (amount < total))
      × (status_for amount total ≡ paid ↔ total ≤ amount)
unfolding status_for
status_for_exact amount total h = (
  (λ e. ground arith, λ e. ground arith),
  (λ e. ground arith, λ e. ground arith),
  (λ e. ground arith, λ e. ground arith),
)
