-- ===== src/Finance/Aging/Totals.antt =====
-- The aging report against the documents themselves (backend/app/modules/finance/service.py,
-- `aging`).
use blyns_ops.Prelude.{
  ℕ, ◌+◌, ◌≡◌, refl, List, [], ◌∷◌, arith, length, Bool-cases, inl, inr, ltb, if◌then◌else◌,
}
use blyns_ops.Tenant.{Db, Document}
use blyns_ops.Finance.Aging.{
  AgingKind, documents_of, outstanding, is_open, insert_due, aging_rows, Bucket, bucket_of,
  days_overdue, Buckets, empty_buckets, add_to_bucket, fill_buckets, buckets_total, aging,
}

-- What is outstanding on the open documents, and how many there are.
abbrev pub open_total : List Document → ℕ
open_total [] = 0
open_total (d ∷ ds) = if is_open d then outstanding d + open_total ds else open_total ds

abbrev pub open_count : List Document → ℕ
open_count [] = 0
open_count (d ∷ ds) = if is_open d then 1 + open_count ds else open_count ds

abbrev pub buckets_count : Buckets → ℕ
buckets_count bs =
    bs.current.count + bs.to_30.count + bs.to_60.count + bs.to_90.count + bs.over_90.count

abbrev rows_total : List Document → ℕ
rows_total [] = 0
rows_total (d ∷ ds) = outstanding d + rows_total ds

insert_due-sums :
    (d : Document) (ds : List Document)
    → (rows_total (insert_due d ds) ≡ outstanding d + rows_total ds)
      × (length (insert_due d ds) ≡ 1 + length ds)
unfolding insert_due
insert_due-sums d [] = (refl, refl)
insert_due-sums d (x ∷ xs) =
    let ih = insert_due-sums d xs in
    elim (Bool-cases (ltb x.due_date d.due_date)) [
      | inl later ↦ rw later (omega (arith, ih.0), omega (arith, ih.1))
      | inr here ↦ rw here (omega arith, omega arith)
    ]

aging_rows-sums :
    (ds : List Document)
    → (rows_total (aging_rows ds) ≡ open_total ds) × (length (aging_rows ds) ≡ open_count ds)
unfolding aging_rows
aging_rows-sums [] = (refl, refl)
aging_rows-sums (d ∷ ds) =
    let ih = aging_rows-sums ds in
    let inserted = insert_due-sums d (aging_rows ds) in
    elim (Bool-cases (is_open d)) [
      | inl due ↦ rw due (omega (arith, ih.0, inserted.0), omega (arith, ih.1, inserted.1))
      | inr closed ↦ rw closed ih
    ]

add_to_bucket-sums :
    (b : Bucket) (n : ℕ) (bs : Buckets)
    → (buckets_total (add_to_bucket b n bs) ≡ n + buckets_total bs)
      × (buckets_count (add_to_bucket b n bs) ≡ 1 + buckets_count bs)
unfolding add_to_bucket
add_to_bucket-sums Bucket.current n bs = (omega arith, omega arith)
add_to_bucket-sums Bucket.to_30 n bs = (omega arith, omega arith)
add_to_bucket-sums Bucket.to_60 n bs = (omega arith, omega arith)
add_to_bucket-sums Bucket.to_90 n bs = (omega arith, omega arith)
add_to_bucket-sums Bucket.over_90 n bs = (omega arith, omega arith)

fill_buckets-sums :
    (now : ℕ) (ds : List Document) (bs : Buckets)
    → (buckets_total (fill_buckets now ds bs) ≡ rows_total ds + buckets_total bs)
      × (buckets_count (fill_buckets now ds bs) ≡ length ds + buckets_count bs)
unfolding fill_buckets
fill_buckets-sums now [] bs = (omega arith, omega arith)
fill_buckets-sums now (d ∷ ds) bs =
    let b = bucket_of (days_overdue now d) in
    let rest = fill_buckets-sums now ds (add_to_bucket b (outstanding d) bs) in
    let one = add_to_bucket-sums b (outstanding d) bs in
    (omega (arith, rest.0, one.0), omega (arith, rest.1, one.1))

-- The buckets of an aging report hold every open document once: their totals and the total of the
-- report are what is outstanding on the open documents of the collection, and their counts are the
-- number of those documents.
pub aging_totals :
    (now : ℕ) (k : AgingKind) (s : Db)
    → ((aging now k s).total ≡ open_total (documents_of k s))
      × (buckets_total (aging now k s).buckets ≡ open_total (documents_of k s))
      × (buckets_count (aging now k s).buckets ≡ open_count (documents_of k s))
unfolding aging
aging_totals now k s =
    let rows = aging_rows-sums (documents_of k s) in
    let filled = fill_buckets-sums now (aging_rows (documents_of k s)) empty_buckets in
    (
      omega (arith, filled.0, rows.0),
      omega (arith, filled.0, rows.0),
      omega (arith, filled.1, rows.1),
    )
