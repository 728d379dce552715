-- ===== src/Storage/Queries/Laws.antt =====
-- The statements against a description of them, and the joined arrays.
use web_form.Prelude.{
  Text, Text-comparable, [], ◌∷◌, ◌++◌, if◌then◌else◌, false, List, codes, map, ◌≡◌, refl, sym, ◌∙◌,
  append_assoc, append-nil, ℕ, suc, nat_eq, All,
}
use web_form.Prelude.Dict.{Dict, lookup}
use web_form.Golang.Strconv.{itoa}
use web_form.Utils.Quote.{quote, quote_builder}
use web_form.Utils.Quote.Reading.{quote_builder-quote}
use web_form.Schema.Types.{Value, Stored}
use web_form.Storage.Queries.{
  columns_loop, insert_into, Query, pg_loop, pg_query, join_loop, join_iterable, lite_value,
  lite_loop, lite_query,
}

-- The texts with the separator between them.
abbrev pub tail_text : Text → List Text → Text
tail_text sep [] = []
tail_text sep (t ∷ ts) = sep ++ (t ++ tail_text sep ts)

abbrev pub intercalate : Text → List Text → Text
intercalate sep [] = []
intercalate sep (t ∷ ts) = t ++ tail_text sep ts

-- The placeholders of PostgreSQL, from a number on.
abbrev pub dollars {ℓ} : {A : Type ℓ} → ℕ → List A → List Text
dollars i [] = []
dollars i (x ∷ xs) = (b'$' ∷ itoa (suc i)) ∷ dollars (suc i) xs

-- An INSERT statement, from its table, its columns and its placeholders.
abbrev pub statement : Text → List Text → List Text → Text
statement table columns placeholders =
    codes "INSERT INTO "
    ++ (quote table b'"'
        ++ (codes " ("
            ++ (intercalate (codes ", ") (map (λ k. quote k b'"') columns)
                ++ (codes ") VALUES ("
                    ++ (intercalate (codes ", ") placeholders ++ codes ") RETURNING *")))))

columns_loop-later :
    (names : List Text) (query : Text) (i : ℕ)
    → columns_loop query (suc i) names
      ≡ query ++ tail_text (codes ", ") (map (λ k. quote k b'"') names)
unfolding columns_loop
columns_loop-later [] query i = sym (append-nil query)
columns_loop-later (name ∷ names) query i =
    columns_loop-later names (quote_builder (query ++ codes ", ") name b'"') (suc i)
    ∙ simp (quote_builder-quote, append_assoc)

columns_loop-intercalate :
    (names : List Text) (query : Text)
    → columns_loop query 0 names ≡ query ++ intercalate (codes ", ") (map (λ k. quote k b'"') names)
unfolding columns_loop
columns_loop-intercalate [] query = sym (append-nil query)
columns_loop-intercalate (name ∷ names) query =
    columns_loop-later names (quote_builder query name b'"') 0
    ∙ simp (quote_builder-quote, append_assoc)

pg_loop-later :
    (fields : Dict Stored) (ks : List Text) (q : Query) (i : ℕ)
    → pg_loop fields q (suc i) ks ≡ record {
      sql = q.sql ++ tail_text (codes ", ") (dollars (suc i) ks);
      params = q.params ++ map (λ k. lookup k fields) ks;
    }
unfolding pg_loop
pg_loop-later fields [] q i = simp append-nil
pg_loop-later fields (k ∷ ks) q i = pg_loop-later fields ks _ (suc i) ∙ simp append_assoc

pg_loop-intercalate :
    (fields : Dict Stored) (q : Query) (ks : List Text)
    → pg_loop fields q 0 ks ≡ record {
      sql = q.sql ++ intercalate (codes ", ") (dollars 0 ks);
      params = q.params ++ map (λ k. lookup k fields) ks;
    }
unfolding pg_loop
pg_loop-intercalate fields q [] = simp append-nil
pg_loop-intercalate fields q (k ∷ ks) = pg_loop-later fields ks _ 0 ∙ simp append_assoc

insert_into-statement :
    (table : Text) (columns placeholders : List Text)
    → (insert_into table columns ++ intercalate (codes ", ") placeholders) ++ codes ") RETURNING *"
      ≡ statement table columns placeholders
unfolding insert_into
insert_into-statement table columns placeholders =
    simp (columns_loop-intercalate, quote_builder-quote, append_assoc)

-- Whatever the order of the keys, the statement for PostgreSQL names the table and the columns,
-- quoted, and has the placeholders $1, $2, … in the order of the columns; the parameters are the
-- values of the columns in the same order, and no value has a part in the text.
pub pg_query_lem :
    (table : Text) (ks : List Text) (fields : Dict Stored)
    → pg_query table ks fields
      ≡ record { sql = statement table ks (dollars 0 ks); params = map (λ k. lookup k fields) ks }
unfolding pg_query
pg_query_lem table ks fields = rw (pg_loop-intercalate, insert_into-statement)

module _ (sprint : Value → Text) where
  lite_loop-later :
      (fields : Dict Stored) (ks : List Text) (q : Query) (i : ℕ)
      → lite_loop sprint fields q (suc i) ks ≡ record {
        sql = q.sql ++ tail_text (codes ", ") (map (λ k. codes "?") ks);
        params = q.params ++ map (λ k. lite_value sprint (lookup k fields)) ks;
      }
  unfolding lite_loop
  lite_loop-later fields [] q i = simp append-nil
  lite_loop-later fields (k ∷ ks) q i = lite_loop-later fields ks _ (suc i) ∙ simp append_assoc

  lite_loop-intercalate :
      (fields : Dict Stored) (q : Query) (ks : List Text)
      → lite_loop sprint fields q 0 ks ≡ record {
        sql = q.sql ++ intercalate (codes ", ") (map (λ k. codes "?") ks);
        params = q.params ++ map (λ k. lite_value sprint (lookup k fields)) ks;
      }
  unfolding lite_loop
  lite_loop-intercalate fields q [] = simp append-nil
  lite_loop-intercalate fields q (k ∷ ks) = lite_loop-later fields ks _ 0 ∙ simp append_assoc

  -- Whatever the order of the keys, the statement for SQLite names the table and the columns,
  -- quoted, and has one placeholder for each column; the parameters are the values of the columns
  -- in the same order, an array as one text.
  pub lite_query_lem :
      (table : Text) (ks : List Text) (fields : Dict Stored)
      → lite_query sprint table ks fields ≡ record {
        sql = statement table ks (map (λ k. codes "?") ks);
        params = map (λ k. lite_value sprint (lookup k fields)) ks;
      }
  unfolding lite_query
  lite_query_lem table ks fields = rw (lite_loop-intercalate, insert_into-statement)

  join_loop-later :
      (sep out : Text) (i : ℕ) (vs : List Value)
      → join_loop sprint sep out (suc i) vs ≡ out ++ tail_text sep (map sprint vs)
  unfolding join_loop
  join_loop-later sep out i [] = sym (append-nil out)
  join_loop-later sep out i (v ∷ vs) =
      join_loop-later sep ((out ++ sep) ++ sprint v) (suc i) vs ∙ simp append_assoc

  join_iterable-intercalate :
      (sep : Text) (vs : List Value) → join_iterable sprint vs sep ≡ intercalate sep (map sprint vs)
  unfolding join_iterable join_loop
  join_iterable-intercalate sep [] = refl
  join_iterable-intercalate sep (v ∷ vs) = join_loop-later sep (sprint v) 0 vs

  -- Reading a joined array back: the texts between the commas.
  abbrev pub split_from : Text → Text → List Text
  split_from part [] = part ∷ []
  split_from part (c ∷ s) =
      let ended = split_from [] s in
      let longer = split_from (part ++ c ∷ []) s in if nat_eq c b',' then part ∷ ended else longer

  -- Texts without a comma.
  abbrev pub IsUncut : Text → Type 0
  IsUncut = All (λ c. nat_eq c b',' ≡ false)

  split_from-tail :
      (ts : List Text) (t part : Text)
      → IsUncut t
      → All IsUncut ts
      → split_from part (t ++ tail_text (codes ",") ts) ≡ (part ++ t) ∷ ts
  split_from-tail [] [] part h k = simp append-nil
  split_from-tail (u ∷ us) [] part h (k, ks) = simp (append-nil, split_from-tail us u [] k ks)
  split_from-tail ts (c ∷ t) part (plain, h) k =
      rw (plain, split_from-tail ts t (part ++ c ∷ []) h k, append_assoc)

  -- An array that is stored as one text can be read back, by cutting the text at its commas, if it
  -- is not empty and none of the texts of its values has a comma.
  pub join_iterable-split :
      (v : Value) (vs : List Value)
      → All IsUncut (map sprint (v ∷ vs))
      → split_from [] (join_iterable sprint (v ∷ vs) (codes ",")) ≡ map sprint (v ∷ vs)
  join_iterable-split v vs (h, k) =
      rw (join_iterable-intercalate, split_from-tail (map sprint vs) (sprint v) [] h k)
