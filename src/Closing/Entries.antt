-- ===== src/Closing/Entries.antt =====
-- The result-closing entries, the snapshot lines, and the patrimonial closing with its reopening.
pub mod Weights
pub mod Patrimonial
pub mod Drafts
pub mod Closed
use mono256_sic_core.Base.{
  ℕ, Bool, true, false, not, ◌&&◌, ◌||◌, Option, none, some, List, [], ◌∷◌, ◌++◌, map, String,
  if◌then◌else◌, where_, or_default, str_eq, str_leb, sort_by,
}
use mono256_sic_core.Base.Int.{ℤ, pos, ◌+ℤ◌, ltb_ℤ, sum_of}
use mono256_sic_core.Base.Result.{Result, ok, raise, ◌>>=◌, ◌>>◌, raise_if, conflict_error, Reason}
use mono256_sic_core.Store.{AccountType, LineType, SourceType, swap_side}
use mono256_sic_core.Closing.Draft.{DraftLine, DraftEntry, draft_entry, support_line}
use mono256_sic_core.Closing.Balances.{
  BalanceNode, Balances, debit_balance, credit_balance, apply_entry, is_patrimonial,
}
use mono256_sic_core.Closing.Adjust.{ClosingRequest}
use mono256_sic_core.Closing.Statement.{
  ResultNodes, collect_result_nodes, ResultKind, kind_of, has_debit_balance, has_credit_balance,
}

-- A line on the account of a node.
abbrev pub node_line : LineType → (BalanceNode → ℤ) → BalanceNode → DraftLine
node_line type amount_of n = record {
  account_id = n.account_id;
  account_code = n.account_code;
  account_name = n.account_name;
  parent_code = n.parent_code;
  type = type;
  amount = amount_of n;
}

abbrev pub result_line : LineType → ℤ → DraftLine
result_line = support_line "Resultado del Ejercicio" "3.02"

abbrev pub negative_lines : ResultNodes → List DraftLine
negative_lines r =
    result_line LineType.debit r.total_negative
    ∷ map (node_line LineType.credit debit_balance) r.negative_accounts

-- The source reads these balances behind the entry of the losses, which changes no node of the root 5.
abbrev pub positive_lines : ResultNodes → List DraftLine
positive_lines r =
    map (node_line LineType.debit credit_balance) r.positive_accounts
    ++ result_line LineType.credit r.total_positive ∷ []

abbrev pub negative_entry : ℕ → ResultNodes → DraftEntry
negative_entry date r =
    draft_entry date "Por cierre de cuentas de Resultado Negativo (Pérdidas)"
      SourceType.result_closing "CLOSING-RN" (negative_lines r)

abbrev pub positive_entry : ℕ → ResultNodes → DraftEntry
positive_entry date r =
    draft_entry date "Por cierre de cuentas de Resultado Positivo (Ganancias)"
      SourceType.result_closing "CLOSING-RP" (positive_lines r)

-- An entry is proposed, and applied, if it closes any account.
abbrev pub close_nodes :
    List BalanceNode → DraftEntry → Balances → Result (List DraftEntry × Balances)
close_nodes [] e bs = ok ([], bs)
close_nodes (n ∷ ns) e bs = apply_entry bs e >>= λ bs'. ok (e ∷ [], bs')

pub record ResultClosing : Type 0 where
  pub entries : List DraftEntry
  pub total_negative : ℤ
  pub total_positive : ℤ
  pub net_result : ℤ
  pub net_kind : ResultKind
  pub balances : Balances

unfoldable pub build_result_closing_entries : ℕ → Balances → Result ResultClosing
unfolding collect_result_nodes
build_result_closing_entries date bs = do
  r ← collect_result_nodes bs
  (negative, bs₁) ← close_nodes r.negative_accounts (negative_entry date r) bs
  (positive, bs₂) ← close_nodes r.positive_accounts (positive_entry date r) bs₁
  ok (record {
    entries = negative ++ positive;
    total_negative = r.total_negative;
    total_positive = r.total_positive;
    net_result = r.net;
    net_kind = kind_of r.net;
    balances = bs₂;
  })

-- A patrimonial node with a balance.
abbrev pub is_open_node : BalanceNode → Bool
is_open_node n = is_patrimonial n && (has_debit_balance n || has_credit_balance n)

pub record SnapshotLine : Type 0 where
  pub account_id : Option ℕ
  pub account_code : String
  pub account_name : String
  pub account_type : AccountType
  pub root_code : String
  pub parent_code : String
  pub debit_balance : ℤ
  pub credit_balance : ℤ

abbrev snapshot_line : BalanceNode → SnapshotLine
snapshot_line n = record {
  account_id = n.account_id;
  account_code = or_default n.account_code "";
  account_name = n.account_name;
  account_type = n.account_type;
  root_code = n.root_code;
  parent_code = n.parent_code;
  debit_balance = debit_balance n;
  credit_balance = credit_balance n;
}

abbrev node_le : BalanceNode → BalanceNode → Bool
node_le n m =
    str_leb (or_default n.account_code n.parent_code) (or_default m.account_code m.parent_code)

unfoldable pub build_snapshot_lines : Balances → List SnapshotLine
unfolding sort_by
build_snapshot_lines bs = map snapshot_line (sort_by node_le (where_ is_open_node bs))

abbrev pub closing_lines : List BalanceNode → List DraftLine
closing_lines ns =
    map (node_line LineType.debit credit_balance) (where_ has_credit_balance ns)
    ++ map (node_line LineType.credit debit_balance) (where_ has_debit_balance ns)

abbrev pub swapped : DraftLine → DraftLine
swapped l = record l { type = swap_side l.type }

abbrev pub patrimonial_entry : ℕ → List BalanceNode → DraftEntry
patrimonial_entry date ns =
    draft_entry date "Por cierre de Cuentas Patrimoniales" SourceType.patrimonial_closing
      "CLOSING-PATRIMONIAL" (closing_lines ns)

abbrev pub reopening_entry : ℕ → List BalanceNode → DraftEntry
reopening_entry date ns =
    draft_entry date "Por apertura de Cuentas Patrimoniales" SourceType.reopening
      "REOPENING-PATRIMONIAL" (map swapped (closing_lines ns))

abbrev pub no_nodes : List BalanceNode → Bool
no_nodes [] = true
no_nodes (n ∷ ns) = false

unfoldable pub build_patrimonial_closing_and_reopening :
    ClosingRequest → Balances → Result (DraftEntry × DraftEntry)
build_patrimonial_closing_and_reopening r bs = do
  let nodes = where_ is_open_node bs
  raise_if (no_nodes nodes) (conflict_error Reason.nothing_to_close)
  ok (patrimonial_entry r.closing_date nodes, reopening_entry r.reopening_date nodes)
