-- ===== src/Evidence/Sql.antt =====
-- `query_db`: the texts of its five queries, and what it asks one after the other.
pub mod Reads
use synapse_network_sdk.Base.{String, List, [], ◌∷◌}
use synapse_network_sdk.Strings.{◌+++◌}
use synapse_network_sdk.Evidence.Literal.{sql_literal}

-- `", ".join(f"({sql_literal(value)})" for value in values)`
unfoldable pub value_rows : List String → String
unfolding sql_literal
value_rows [] = ""
value_rows (value ∷ []) = "(" +++ sql_literal value +++ ")"
value_rows (value ∷ v ∷ values) =
    "(" +++ sql_literal value +++ ")" +++ ", " +++ value_rows (v ∷ values)

unfoldable pub values_clause : List String → String
unfolding value_rows
values_clause [] = "SELECT NULL::text WHERE false"
values_clause (v ∷ values) = "VALUES " +++ value_rows (v ∷ values)

unfoldable pub invocations_query : String → List String → String
unfolding values_clause sql_literal
invocations_query run_id ids =
    "\n"
    +++ "        WITH ids(id) AS ("
    +++ values_clause ids
    +++ ")\n"
    +++ "        SELECT COALESCE(jsonb_agg(to_jsonb(q) ORDER BY q.created_at), '[]'::jsonb)\n"
    +++ "        FROM (\n"
    +++ "          SELECT invocation_id, quote_id, service_id, credential_id, idempotency_key, status,\n"
    +++ "                 charged_usdc::text AS charged_usdc, created_at::text AS created_at,\n"
    +++ "                 finished_at::text AS finished_at\n"
    +++ "          FROM synapse_invocations\n"
    +++ "          WHERE invocation_id IN (SELECT id FROM ids)\n"
    +++ "             OR idempotency_key LIKE "
    +++ sql_literal (run_id +++ "-%")
    +++ "\n"
    +++ "          ORDER BY created_at\n"
    +++ "        ) q\n"
    +++ "        "

unfoldable pub quotes_query : List String → String
unfolding values_clause
quotes_query ids =
    "\n"
    +++ "        WITH ids(id) AS ("
    +++ values_clause ids
    +++ ")\n"
    +++ "        SELECT COALESCE(jsonb_agg(to_jsonb(q) ORDER BY q.created_at), '[]'::jsonb)\n"
    +++ "        FROM (\n"
    +++ "          SELECT quote_id, service_id, credential_id, quoted_price_usdc::text AS quoted_price_usdc,\n"
    +++ "                 price_model, status, created_at::text AS created_at\n"
    +++ "          FROM synapse_service_quotes\n"
    +++ "          WHERE quote_id IN (SELECT id FROM ids)\n"
    +++ "          ORDER BY created_at\n"
    +++ "        ) q\n"
    +++ "        "

unfoldable pub budget_query : List String → String
unfolding values_clause
budget_query ids =
    "\n"
    +++ "        WITH ids(id) AS ("
    +++ values_clause ids
    +++ ")\n"
    +++ "        SELECT COALESCE(jsonb_agg(to_jsonb(q) ORDER BY q.created_at), '[]'::jsonb)\n"
    +++ "        FROM (\n"
    +++ "          SELECT event_id, credential_id, quote_id, invocation_id, event_kind,\n"
    +++ "                 amount_usdc::text AS amount_usdc,\n"
    +++ "                 remaining_lifetime_usdc::text AS remaining_lifetime_usdc,\n"
    +++ "                 remaining_daily_usdc::text AS remaining_daily_usdc,\n"
    +++ "                 created_at::text AS created_at\n"
    +++ "          FROM synapse_budget_events\n"
    +++ "          WHERE invocation_id IN (SELECT id FROM ids)\n"
    +++ "          ORDER BY created_at\n"
    +++ "        ) q\n"
    +++ "        "

unfoldable pub ledger_query : List String → String
unfolding values_clause
ledger_query ids =
    "\n"
    +++ "        WITH ids(id) AS ("
    +++ values_clause ids
    +++ ")\n"
    +++ "        SELECT COALESCE(jsonb_agg(to_jsonb(q) ORDER BY q.created_at), '[]'::jsonb)\n"
    +++ "        FROM (\n"
    +++ "          SELECT entry_id, reference_type, reference_id, business_type,\n"
    +++ "                 debit_account_id, credit_account_id, amount_usdc::text AS amount_usdc,\n"
    +++ "                 status, created_at::text AS created_at\n"
    +++ "          FROM synapse_ledger_entries\n"
    +++ "          WHERE reference_id IN (SELECT id FROM ids)\n"
    +++ "          ORDER BY created_at\n"
    +++ "        ) q\n"
    +++ "        "

unfoldable pub audit_query : List String → String
unfolding values_clause
audit_query ids =
    "\n"
    +++ "        WITH ids(id) AS ("
    +++ values_clause ids
    +++ ")\n"
    +++ "        SELECT COALESCE(jsonb_agg(to_jsonb(q) ORDER BY q.created_at), '[]'::jsonb)\n"
    +++ "        FROM (\n"
    +++ "          SELECT event_id, event_type, business_type, credential_id, service_id,\n"
    +++ "                 invocation_id, amount_delta::text AS amount_delta, result_status,\n"
    +++ "                 detail_json::text AS detail_json, created_at::text AS created_at\n"
    +++ "          FROM synapse_audit_events\n"
    +++ "          WHERE invocation_id IN (SELECT id FROM ids)\n"
    +++ "             OR EXISTS (\n"
    +++ "               SELECT 1 FROM ids\n"
    +++ "               WHERE synapse_audit_events.detail_json::text LIKE '%' || ids.id || '%'\n"
    +++ "             )\n"
    +++ "          ORDER BY created_at\n"
    +++ "        ) q\n"
    +++ "        "
