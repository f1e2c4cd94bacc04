-- ===== src/Mysql/Cases.antt =====
-- internal/infrastructure/persistence/mysql/ut_case_repository.go. FindInBatches is GORM's: its pages,
use case_execution.Prelude.{
  refl, sym, ap, ◌≡◌, ℤ, pos_part, Bool, List, Option, [], ◌∷◌, ◌==◌, ◌&&◌, none, some, ℕ, map,
}
use case_execution.Domain.Errs.{wrap, GoError}
use case_execution.Relay.Config.{or_default}
-- and the error with which its reading ends, are parameters.
use case_execution.Text.{str_eq, lit, Bytes}
use case_execution.Domain.Entity.{UtCase}
use case_execution.Mysql.Table.{Table, wrapped}
use case_execution.Mysql.Rows.{CaseRow, case_of_row}
use case_execution.Dispatch.Ports.{Ctx, Action, after, return}

-- The conditions, under the collation of the table.
abbrev pub has_version : (Bytes → Bytes) → Bytes → CaseRow → Bool
has_version weight v r = str_eq (weight r.version) (weight v)

abbrev pub has_channel : (Bytes → Bytes) → Bytes → Bytes → CaseRow → Bool
has_channel weight channel v r =
    str_eq (weight r.channel) (weight channel) && has_version weight v r

module _ {D : Type 0} (table : Table D CaseRow) where
  unfoldable pub find_by_id : Ctx → ℕ → Action D (Option UtCase)
  find_by_id ctx case_id d =
      after
        (wrapped (lit "select ut_case by id: ") (table.first_where (λ r. r.case_id == case_id) d))
        (λ row. return (elim row [ none ↦ none | some r ↦ some (case_of_row r) ]))

  unfoldable pub count_by_version : Ctx → Bytes → Action D ℕ
  count_by_version ctx v d =
      after
        (wrapped (lit "count ut_case by version: ")
          (table.count_where (has_version table.weight v) d))
        return

  unfoldable pub count_by_channel_version : Ctx → Bytes → Bytes → Action D ℕ
  count_by_channel_version ctx channel v d =
      after
        (wrapped (lit "count ut_case by channel+version: ")
          (table.count_where (has_channel table.weight channel v) d))
        return

-- A page with the error of the context at the time that it is read.
abbrev pub Page : Type 0
Page = Option GoError × List CaseRow

-- The callback is called for one page after the other, up to its first error.
module _ {S : Type 0} (callback : List UtCase → S → Option GoError × S) where
  unfoldable pub scan_page : Page → S → Option GoError × S
  scan_page (some e, rows) s = (some e, s)
  scan_page (none, rows) s = callback (map case_of_row rows) s

  go_on : Option GoError × S → (S → Option GoError × S) → Option GoError × S
  go_on (some e, s) rest = (some e, s)
  go_on (none, s) rest = rest s

  scan_pages : List Page → Option GoError → S → Option GoError × S
  unfolding scan_page go_on
  scan_pages [] ended s = (ended, s)
  scan_pages (page ∷ pages) ended s = go_on (scan_page page s) (scan_pages pages ended)

  scan_error : Option GoError × S → Option GoError × S
  scan_error (none, s) = (none, s)
  scan_error (some e, s) = (some (wrap (lit "scan ut_case: ") e []), s)

  module _ (read : (CaseRow → Bool) → ℕ → List Page × Option GoError) where
    unfoldable pub scan : ℤ → (CaseRow → Bool) → S → Option GoError × S
    unfolding scan_pages scan_error
    scan size condition s =
        let (pages, ended) = read condition (pos_part (or_default size 1000)) in
        scan_error (scan_pages pages ended s)

    unfoldable pub scan_by_version : (Bytes → Bytes) → Bytes → ℤ → S → Option GoError × S
    unfolding scan
    scan_by_version weight v size s = scan size (has_version weight v) s

    unfoldable pub scan_by_channel_version :
        (Bytes → Bytes) → Bytes → Bytes → ℤ → S → Option GoError × S
    unfolding scan
    scan_by_channel_version weight channel v size s = scan size (has_channel weight channel v) s

  -- The callback has been called for each page, and has accepted it.
  abbrev pub Runs : List Page → S → S → Type 0
  Runs [] s s' = s' ≡ s
  Runs (page ∷ pages) s s' =
      (s1 : S) × (callback (map case_of_row page.1) s ≡ (none, s1)) × Runs pages s1 s'

  scan_pages-Runs :
      (pages : List Page) (ended : Option GoError) (s s' : S)
      → scan_pages pages ended s ≡ (none, s')
      → (ended ≡ none) × Runs pages s s'
  unfolding scan_pages scan_page go_on
  scan_pages-Runs [] ended s s' done = (ap (λ r. r.0) done, sym (ap (λ r. r.1) done))
  scan_pages-Runs ((some e, rows) ∷ pages) ended s s' done = absurd (cc (ap (λ r. r.0) done))
  scan_pages-Runs ((none, rows) ∷ pages) ended s s' done =
      one_of (callback (map case_of_row rows) s) refl done (λ s1. scan_pages-Runs pages ended s1 s')
    where
      one_of :
          (r : Option GoError × S)
          → callback (map case_of_row rows) s ≡ r
          → go_on r (scan_pages pages ended) ≡ (none, s')
          → ((s1 : S) → scan_pages pages ended s1 ≡ (none, s') → (ended ≡ none) × Runs pages s1 s')
          → (ended ≡ none) × Runs ((none, rows) ∷ pages) s s'
      one_of (some e, s1) called done rest = absurd (cc (ap (λ r. r.0) done))
      one_of (none, s1) called done rest =
          let (no_error, runs) = rest s1 done in (no_error, (s1, called, runs))

  -- A scan that returns no error has read to the end and has given every page, in order and converted, to
  -- the callback, which has accepted each.
  pub scan_lem :
      (read : (CaseRow → Bool) → ℕ → List Page × Option GoError) (size : ℤ)
      (condition : CaseRow → Bool) (s s' : S)
      → scan read size condition s ≡ (none, s')
      → ((read condition (pos_part (or_default size 1000))).1 ≡ none)
        × Runs (read condition (pos_part (or_default size 1000))).0 s s'
  unfolding scan scan_error
  scan_lem read size condition s s' done =
      let pages = read condition (pos_part (or_default size 1000)) in
      scan_pages-Runs pages.0 pages.1 s s' (no_error (scan_pages pages.0 pages.1 s) done)
    where
      no_error : (r : Option GoError × S) → scan_error r ≡ (none, s') → r ≡ (none, s')
      no_error (none, s1) e = e
      no_error (some x, s1) e = absurd (cc (ap (λ r. r.0) e))
