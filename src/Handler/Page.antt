-- ===== src/Handler/Page.antt =====
-- The page of Index, from the entries of a snapshot in the orders in which the loops visit them.
use golectra.Base.{List, String, [], ◌∷◌, ℕ}
use Prim.Native.String.{◌++◌ as text_append}
use golectra.Handler.Numbers.{format_int64}

abbrev pub text5 : String → String → String → String → String → String
text5 a b c d e = text_append a (text_append b (text_append c (text_append d e)))

-- one row of a table; the name goes into the page as it is
abbrev pub table_row : String → String → String
table_row name value = text5 "<tr><td>" name "</td><td>" value "</td></tr>"

unfoldable pub table_rows {ℓ} : {A : Type ℓ} → (A → String) → List (String × A) → String
table_rows format [] = ""
table_rows format ((k, v) ∷ rest) = text_append (table_row k (format v)) (table_rows format rest)

abbrev pub page_head : String
page_head =
    text5 "<!doctype html><html><head><meta charset='utf-8'><title>metrics</title>"
      "<style>body{font-family:system-ui,Arial,sans-serif}table{border-collapse:collapse}td,th{border:1px solid #ddd;padding:6px 10px}</style>"
      "</head><body>" "<h1>Metrics</h1>" "<h2>Gauge</h2><table><tr><th>Name</th><th>Value</th></tr>"

unfoldable pub index_page {ℓ} :
    {F : Type ℓ} → (F → String) → List (String × F) → List (String × ℕ) → String
unfolding table_rows
index_page format_float gs cs =
    text5 page_head (table_rows format_float gs)
      (text_append "</table>" "<h2>Counter</h2><table><tr><th>Name</th><th>Value</th></tr>")
      (table_rows format_int64 cs) (text_append "</table>" "</body></html>")
