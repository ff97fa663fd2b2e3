-- ===== src/Handler/Dashboard.antt =====
-- What the page of Index shows, over any repository.
use golectra.Base.{
  eq_iff, refl, arith, inr, inl, ◌==◌, Bool-cases, sym, some, ◌∙◌, ◌≡◌, ap, List, String, [], ◌∷◌,
  ℕ,
}
use golectra.Base.Maps
use golectra.Base.Maps.{GoMap, Visits}
use golectra.Domain.{ok, Snapshot, Result-cases}
use golectra.Handler.{FloatText, index, html, http_error}
use golectra.Handler.Page.{table_row, table_rows, index_page, page_head}
use golectra.Handler.Numbers.{format_int64}
use golectra.MetricsService.{Service, snapshot}
use golectra.Ports.{MetricsRepo, Contract}
use Prim.Native.String.{◌++◌ as text_append}
use text.Mathlib.TextLemmas.{append_assoc, nil-append}

-- a text that stands somewhere in another
abbrev pub Within : String → String → Type 0
Within part whole =
    (before : String) × (after : String) × (whole ≡ text_append before (text_append part after))

Within-before : (a part whole : String) → Within part whole → Within part (text_append a whole)
Within-before a part whole (b, c, e) =
    (text_append a b, c, ap (text_append a) e ∙ sym (append_assoc a b (text_append part c)))

Within-after : (a part whole : String) → Within part whole → Within part (text_append whole a)
Within-after a part whole (b, c, e) = (
  b,
  text_append c a,
  ap (λ t. text_append t a) e
      ∙ append_assoc b (text_append part c) a
      ∙ ap (text_append b) (append_assoc part c a),
)

module _ {A : Type 0} (format : A → String) where
  table_rows-lookup :
      (order : List (String × A)) (k : String) (v : A)
      → Maps.lookup k order ≡ some v
      → Within (table_row k (format v)) (table_rows format order)
  unfolding Maps.lookup table_rows
  table_rows-lookup [] k v h = absurd (cc h)
  table_rows-lookup ((j, u) ∷ rest) k v h = elim (Bool-cases (j == k)) [
    | inl same ↦
        let names : j ≡ k = ground (arith, eq_iff j k, same) in
        let values : u ≡ v = cc (rw same at h) in
        (
          "",
          table_rows format rest,
          ap (λ n. text_append (table_row n (format u)) (table_rows format rest)) names
              ∙ ap (λ x. text_append (table_row k (format x)) (table_rows format rest)) values
              ∙ sym (nil-append (text_append (table_row k (format v)) (table_rows format rest))),
        )
    | inr other_key ↦
        Within-before (table_row j (format u)) (table_row k (format v)) (table_rows format rest)
          (table_rows-lookup rest k v (rw other_key at h))
  ]

module _ {F : Type 0} (format_float : F → String) (gs : List (String × F))
    (cs : List (String × ℕ)) where
  gauge_row-Within :
      (k : String) (v : F)
      → Maps.lookup k gs ≡ some v
      → Within (table_row k (format_float v)) (index_page format_float gs cs)
  unfolding index_page
  gauge_row-Within k v h = Within-before page_head (table_row k (format_float v)) _ (
      Within-after _ (table_row k (format_float v)) (table_rows format_float gs)
        (table_rows-lookup format_float gs k v h))

  counter_row-Within :
      (k : String) (n : ℕ)
      → Maps.lookup k cs ≡ some n
      → Within (table_row k (format_int64 n)) (index_page format_float gs cs)
  unfolding index_page
  counter_row-Within k n h =
      let row = table_row k (format_int64 n) in
      Within-before page_head row _ (
        Within-before (table_rows format_float gs) row _ (
          Within-before
            (text_append "</table>" "<h2>Counter</h2><table><tr><th>Name</th><th>Value</th></tr>")
            row _
            (Within-after (text_append "</table>" "</body></html>") row (table_rows format_int64 cs)
              (table_rows-lookup format_int64 cs k n h))))

module _ {F : Type 0} (floats : FloatText F) {repo : MetricsRepo F} (c : Contract repo)
    (gauges_of : GoMap F → List (String × F)) (counters_of : GoMap ℕ → List (String × ℕ)) where
  -- If Index answers 200, its page has, whatever the order of the loops, a row for every gauge and
  -- every counter that the repository holds, with the text that a read of the value gives. The name
  -- stands in the row as it was stored.
  pub index_shows :
      (k : String) (s : Service repo.State F)
      → c.Valid s.repo
      → ((sn : Snapshot F)
          → (repo.snapshot s.repo).0 ≡ ok sn
          → Visits (gauges_of sn.gauges) sn.gauges × Visits (counters_of sn.counters) sn.counters)
      → (index floats repo gauges_of counters_of s).0.status ≡ 200
      → (page : String) × ((index floats repo gauges_of counters_of s).0.body ≡ html page)
        × ((v : F)
            → (c.view s.repo).gauge_at k ≡ some v
            → Within (table_row k (floats.format_float v)) page)
        × ((n : ℕ)
            → (c.view s.repo).counter_at k ≡ some n
            → Within (table_row k (format_int64 n)) page)
  unfolding index snapshot http_error
  index_shows k s valid visits h = elim (Result-cases (repo.snapshot s.repo).0) [
    | inl (sn, e) ↦
        let (g, n) = c.snapshot-ok k s.repo sn valid e in
        let gs = gauges_of sn.gauges in
        let cs = counters_of sn.counters in
        rw e (
          index_page floats.format_float gs cs,
          refl,
          λ v held.
              gauge_row-Within floats.format_float gs cs k v ((visits sn e).0.same k ∙ g ∙ held),
          λ d held.
              counter_row-Within floats.format_float gs cs k d ((visits sn e).1.same k ∙ n ∙ held),
        )
    | inr (x, e) ↦ absurd (ground (arith, rw e at h))
  ]
