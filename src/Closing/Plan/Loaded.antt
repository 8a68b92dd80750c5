-- ===== src/Closing/Plan/Loaded.antt =====
-- The balances that `_load_balance_nodes` reads, and the plan that is made of them.
use mono256_sic_core.Base.{
  ℕ, true, false, ◌&&◌, none, List, [], ◌∷◌, map, ◌≡◌, refl, ap, inl, inr, arith, ◌==◌, exists,
  where_, All, All-map, Bool-cases, sort_by,
}
use mono256_sic_core.Base.Int.{pos, ◌-ℤ◌, sum_of, int_laws, parts_eq}
use mono256_sic_core.Base.Result.{ok, >>=-eq-ok}
use mono256_sic_core.Base.Sums.{IsKeyed}
use mono256_sic_core.Base.Sorted.{All-sort_by, IsKeyed-sort_by}
use mono256_sic_core.Store.{Company, Account, JournalEntry, JournalEntryLine, Db}
use mono256_sic_core.Journal.Invariant.{line_debit, line_credit, WellFormed}
use mono256_sic_core.Closing.Balances.{by_id, has_key, account_key, root_of_parent}
use mono256_sic_core.Closing.Balances.Measure.{
  weigh, IsUnique, is_chart_root, IsSound, IsConsistent,
}
use mono256_sic_core.Closing.Adjust.{ClosingRequest}
use mono256_sic_core.Closing.Adjust.Counted.{everywhere, IsBalancedDraft}
use mono256_sic_core.Closing.Exercises.{build_logical_exercises}
use mono256_sic_core.Closing.Load.{
  is_counted, line_is_counted, counted_lines, on_account, loaded_node, moved_accounts, code_le,
  has_lines, load_balance_nodes,
}
use mono256_sic_core.Closing.Support.{is_owned_by}
use mono256_sic_core.Closing.Plan.{
  Plan, ordered_entries, validate_request, build_simplified_closing_plan,
}
use mono256_sic_core.Closing.Plan.Emptied.{plan_from-IsBalancedDraft}
use mono256_sic_core.Reports.Rows.{
  is_in_range, lines_in, Complete, IsKeyed-where_, All-kept, lines_in-balanced,
}
use mono256_sic_core.Reports.Trial.Totals.{sum_of-trial_rows, and-left}

-- What the chart promises of an account: the code of its root is the first part of its parent's code, and
-- is one of the five roots.
abbrev pub LiesInChart : Db → Account → Type 0
LiesInChart db a =
    ((loaded_node db [] a).root_code ≡ root_of_parent (loaded_node db [] a).parent_code)
    × (is_chart_root (loaded_node db [] a).root_code ≡ true)

-- The accounts of a company lie in the chart.
abbrev pub IsCharted : Db → ℕ → Type 0
IsCharted db company_id =
    All (λ a. is_owned_by db company_id a ≡ true → LiesInChart db a) db.accounts

-- The two ways to write the join on the entries up to a day.
same_join :
    (es : List JournalEntry) (company_id to : ℕ) (l : JournalEntryLine)
    → exists (λ e. e.id == l.entry_id && is_counted company_id to e) es
      ≡ exists (λ e. l.entry_id == e.id && is_in_range company_id none to e) es
same_join [] company_id to l = refl
same_join (e ∷ es) company_id to l = ground (arith, same_join es company_id to l)

same_filter :
    (db : Db) (company_id to : ℕ) (ls : List JournalEntryLine)
    → where_ (line_is_counted db company_id to) ls
      ≡ where_
          (λ l. exists (λ e. l.entry_id == e.id && is_in_range company_id none to e) db.entries)
          ls
same_filter db company_id to [] = refl
same_filter db company_id to (l ∷ ls) =
    let rest = same_filter db company_id to ls in
    let one = same_join db.entries company_id to l in
    elim (Bool-cases
      (exists (λ e. l.entry_id == e.id && is_in_range company_id none to e) db.entries)) [
        | inl keep ↦ rw (one, keep) (ap (λ ys. l ∷ ys) rest)
        | inr drop ↦ rw (one, drop) rest
      ]

no_key :
    (db : Db) (lines : List JournalEntryLine) (i : ℕ) (accounts : List Account)
    → exists (λ y. i == y.id) accounts ≡ false
    → exists (has_key (by_id i)) (map (loaded_node db lines) accounts) ≡ false
unfolding account_key
no_key db lines i [] h = refl
no_key db lines i (a ∷ accounts) h = ground (arith, no_key db lines i accounts)

loaded-IsUnique :
    (db : Db) (lines : List JournalEntryLine) (accounts : List Account)
    → IsKeyed Account.id accounts
    → IsUnique (map (loaded_node db lines) accounts)
unfolding account_key
loaded-IsUnique db lines [] keyed = tt
loaded-IsUnique db lines (a ∷ accounts) (fresh, keyed) =
    (no_key db lines a.id accounts fresh, loaded-IsUnique db lines accounts keyed)

loaded-IsSound :
    (db : Db) (lines : List JournalEntryLine) (accounts : List Account)
    → All (LiesInChart db) accounts
    → All IsSound (map (loaded_node db lines) accounts)
loaded-IsSound db lines [] charted = tt
loaded-IsSound db lines (a ∷ accounts) ((root, known), charted) =
    ((refl, root, known), loaded-IsSound db lines accounts charted)

weigh_loaded :
    (db : Db) (lines : List JournalEntryLine) (accounts : List Account)
    → sum_of (weigh everywhere) (map (loaded_node db lines) accounts)
      ≡ sum_of (λ a. sum_of line_debit (on_account a.id lines)) accounts
        -ℤ sum_of (λ a. sum_of line_credit (on_account a.id lines)) accounts
unfolding sum_of
weigh_loaded db lines [] = omega int_laws
weigh_loaded db lines (a ∷ accounts) = omega (int_laws, parts_eq (weigh_loaded db lines accounts))

module _ (db : Db) (wf : WellFormed db) (complete : Complete db) (company_id to : ℕ) where
  abbrev lines : List JournalEntryLine
  lines = counted_lines db company_id to

  same_lines : lines ≡ lines_in db company_id none to
  same_lines = same_filter db company_id to db.lines

  -- The debits of what is loaded are its credits.
  load_balance_nodes_net : sum_of (weigh everywhere) (load_balance_nodes db company_id to) ≡ pos 0
  unfolding load_balance_nodes
  load_balance_nodes_net = rw same_lines (
      net_of (sum_of-trial_rows db complete company_id none to line_debit)
        (sum_of-trial_rows db complete company_id none to line_credit))
    where
      shown : List JournalEntryLine
      shown = lines_in db company_id none to

      rows : List Account
      rows = sort_by code_le (moved_accounts db company_id shown)

      net_of :
          sum_of (λ a. sum_of line_debit (on_account a.id shown)) rows ≡ sum_of line_debit shown
          → sum_of (λ a. sum_of line_credit (on_account a.id shown)) rows ≡ sum_of line_credit shown
          → sum_of (weigh everywhere) (map (loaded_node db shown) rows) ≡ pos 0
      net_of debits credits = omega (
        int_laws,
        parts_eq (weigh_loaded db shown rows),
        parts_eq debits,
        parts_eq credits,
        parts_eq (lines_in-balanced db company_id none to complete.entry_keys wf.balanced),
      )

  load_balance_nodes-IsConsistent :
      IsCharted db company_id → IsConsistent (load_balance_nodes db company_id to)
  unfolding load_balance_nodes
  load_balance_nodes-IsConsistent charted = record {
    unique = loaded-IsUnique db lines (sort_by code_le (moved_accounts db company_id lines)) (
        IsKeyed-sort_by code_le Account.id (moved_accounts db company_id lines)
          (IsKeyed-where_ Account.id _ db.accounts complete.account_keys));
    sound = loaded-IsSound db lines (sort_by code_le (moved_accounts db company_id lines)) (
        All-sort_by code_le _ (moved_accounts db company_id lines) (
          All-map _ (LiesInChart db) (moved_accounts db company_id lines)
            (λ a h. h.0 (and-left (is_owned_by db company_id a) (has_lines lines a) h.1))
            (All-kept _ _ db.accounts charted)));
  }

-- In a well-formed journal whose lines stand on accounts of their companies, for a company whose accounts
-- lie below the five roots of the chart: every entry of a simplified closing plan that can be built has equal debits
-- and credits.
pub build_simplified_closing_plan-IsBalancedDraft :
    (db : Db) (c : Company) (r : ClosingRequest) {plan : Plan}
    → WellFormed db
    → Complete db
    → IsCharted db c.id
    → build_simplified_closing_plan db c r ≡ ok plan
    → All IsBalancedDraft (ordered_entries plan)
unfolding build_simplified_closing_plan
build_simplified_closing_plan-IsBalancedDraft db c r wf complete charted built =
    let (done, valid, rest) = >>=-eq-ok (validate_request db c r) _ built in
    let (exercises, chain, planned) = >>=-eq-ok (build_logical_exercises db c.id) _ rest in
    plan_from-IsBalancedDraft r exercises (load_balance_nodes db c.id r.closing_date)
      (load_balance_nodes-IsConsistent db wf complete c.id r.closing_date charted)
      (load_balance_nodes_net db wf complete c.id r.closing_date) planned
