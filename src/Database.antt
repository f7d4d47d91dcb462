-- ===== src/Database.antt =====
-- The tables of the database, as the services see them through the Prisma client.
pub mod Rows
use micro_saas_api.Base.{
  ℕ, ◌≡◌, Bool, true, false, List, Option, none, some, All, Member, length, filter, refl,
}
use Rows.{update_rows, list_first, none_matches, first_matches}

-- The Prisma client is a library that the services call. The contents of a table is the list of its
-- rows, in an order that carries no meaning: `findFirst` may return any row that matches.
-- `update_many` returns the new table and `count`, the number of rows it changed. Writes are those
-- of one transaction; `create` appends the row that it is given, its key included.
pub record Client : Type 1 where
  pub find_first : {Row : Type 0} → (Row → Bool) → List Row → Option Row
  pub find_first-some :
      {Row : Type 0} (p : Row → Bool) (rows : List Row) (r : Row)
      → find_first p rows ≡ some r
      → (p r ≡ true) × Member r rows
  pub find_first-none :
      {Row : Type 0} (p : Row → Bool) (rows : List Row)
      → find_first p rows ≡ none
      → All (λ r. p r ≡ false) rows
  pub update_many : {Row : Type 0} → (Row → Bool) → (Row → Row) → List Row → List Row × ℕ
  pub update_many_rows :
      {Row : Type 0} (p : Row → Bool) (f : Row → Row) (rows : List Row)
      → (update_many p f rows).0 ≡ update_rows p f rows
  pub update_many_count :
      {Row : Type 0} (p : Row → Bool) (f : Row → Row) (rows : List Row)
      → (update_many p f rows).1 ≡ length (filter p rows)

-- A client over plain lists, which shows that the behaviour above can be had.
abbrev pub list_client : Client
list_client = record {
  find_first = list_first;
  find_first-some = first_matches;
  find_first-none = none_matches;
  update_many = λ p f rows. (update_rows p f rows, length (filter p rows));
  update_many_rows = λ p f rows. refl;
  update_many_count = λ p f rows. refl;
}
