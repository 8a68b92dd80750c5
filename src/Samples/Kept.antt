-- ===== src/Samples/Kept.antt =====
-- The sample company's tables have different keys, and its lines stand on its accounts.
use mono256_sic_core.Base.{refl, arith}
use mono256_sic_core.Samples.{empty_books, sold_books}
use mono256_sic_core.Reports.Rows.{Complete}

pub empty-Complete : Complete empty_books
empty-Complete = record {
  entry_keys = tt;
  account_keys =
      (refl, (refl, (refl, (refl, (refl, (refl, (refl, (refl, (refl, (refl, (refl, tt)))))))))));
  placed = λ c. tt;
}

pub sold-Complete : Complete sold_books
sold-Complete = record {
  entry_keys = (refl, (refl, tt));
  account_keys =
      (refl, (refl, (refl, (refl, (refl, (refl, (refl, (refl, (refl, (refl, (refl, tt)))))))))));
  placed = λ c. (
    (λ h. ground arith),
    ((λ h. ground arith), ((λ h. ground arith), ((λ h. ground arith), tt))),
  );
}
