-- ===== src/Lib.antt =====
-- The Python SDK of the Synapse network (python/synapse_client): an agent's client for a paid
-- service gateway. An agent discovers services with their live prices, invokes one while it asserts
-- the price it saw, waits until the invocation has a terminal status, and pays out of a budget that
-- the gateway and, on the client's side, AgentWallet keep.
--
-- The parts, and the files that model them:
--   Config        config.py: resolve_gateway_url, from two arguments and three environment
--                 variables. Config/Laws has its theorems.
--   Runtime       exceptions.py: the exception classes and isinstance; results (ok, err, stalled)
--                 and actions, which pass a state on and keep it where an exception is raised.
--   Models        models.py: Models/Invocation and Models/Service are the records that an agent
--                 reads, with a reader for each that takes a field's alias, name and default;
--                 Models/Readers are the kinds of field.
--   Client        client.py: SynapseClient. Client holds its construction and headers,
--                 Client/Response the reading of a response into an exception (_raise_for_error),
--                 Client/Discovery the searches and their pages, Client/Polling the receipts and
--                 wait_for_invocation, Client/Invoke the invocation, and Client/Rediscovery the
--                 second attempt after a PriceMismatchError. The files below each of these hold
--                 its theorems.
--   Wallet        wallet.py: AgentWallet, a SynapseClient whose invoke checks and books a budget.
--                 invoke_llm and invoke_with_rediscovery, which it inherits, are functions of the
--                 method that `self.invoke` is, so that the same definitions serve both classes.
--   Auth          auth.py: SynapseAuth, the owner's session: its signed requests, and the token that
--                 authenticate caches until 30 seconds before its expiry. Auth/Tokens has the
--                 theorems. Auth/Credentials and Auth/Credentials/Calls are _auth_credentials.py,
--                 the calls for agent credentials, with the bodies that they send;
--                 Auth/Credentials/Bodies and Auth/Credentials/Ensure have their theorems.
--                 Auth/ServiceId is _default_service_id; Auth/ServiceId/Form and Auth/ServiceId/Letters
--                 are about its result.
--                 Auth/Finance is _auth_finance.py, and Auth/Finance/Vouchers what a voucher's
--                 redemption sends. Auth/Provider is the registration of services in
--                 _auth_provider_control.py, and Auth/Provider/Checks what it refuses;
--                 Auth/Provider/Calls and Auth/Provider/Lookup are the rest of that file, and
--                 Auth/Provider/Lookup/Status is about the status of a service. The files named Local
--                 show of each call what it keeps of the session.
--   Provider      provider.py: SynapseProvider, each method as the session's call behind it.
--   Session       programs that make any of the session's public calls one after the other.
--   Wallet/Account
--                 what a wallet promises, as an account with steps, and that a wallet's calls are
--                 runs of it.
--   Evidence      scripts/e2e/sdk_local_evidence_report.py: Evidence/Events checks the events of a
--                 log, Evidence/Literal and Evidence/Sql write the queries, Evidence/Store reads and
--                 checks the rows of the database, Evidence/Report makes the summary, the Markdown
--                 report and the exit code. Evidence/Results has the lemmas that these share.
--   Quality       scripts/ci/source_quality_checks.py: Quality and Quality/Checks are the gate,
--                 Quality/Lengths, Quality/Returns and Quality/Passes what it means that it passes.
--   EndToEnd      python/examples/e2e.py: EndToEnd has its environment and the calls that have to
--                 fail, EndToEnd/Target the choice of the service, EndToEnd/Run the wait for a
--                 receipt and main; EndToEnd/Free, EndToEnd/Settles, EndToEnd/Ends and
--                 EndToEnd/Events are about the service, the receipts and the events.
--   Base, Strings, Json, Host
--                 numbers and tests, str.strip and its kin, JSON values with insertion order,
--                 and the environment.
--
-- The environment is the record Host, an argument of what uses it: the gateway's answers, the clock
-- and uuid4 as functions of the history, os.getenv, str.lower, str.isalnum, urlencode, float and
-- Decimal with their texts, pydantic's reading of a field. A history (Trace) is the list of requests
-- sent, sleeps, clock readings and uuid drawings, the last first. The state of a SynapseClient is that
-- history; an AgentWallet is a record with the sum spent and the history, and a SynapseAuth one with
-- the token, its expiry, the signer and the history. The package eth_account is an argument of
-- from_private_key. What is relied on is stated as ClockLaws (time.sleep sleeps as long as it is
-- told, and the system clock, which time.time reads, is set back by a bounded number of seconds, an
-- argument of the laws), in Wallet/Budget as FloatLaws (IEEE arithmetic on amounts) and FairGateway (a
-- charge is no more than the asserted price), and in Auth/ServiceId/Letters as the hypotheses that
-- neither an underscore nor a blank is alphanumeric.
--
-- Numbers: a Python int is ℤ; a float is its 64-bit pattern and is worked on by Host alone; clock
-- readings are in ticks of 2^-22 second. The unbounded loop of wait_for_invocation follows
-- Host.rounds rounds, and a run that needs more is `stalled`; more rounds than max_wait_sec has
-- seconds, with those by which the clock is set back, are enough, since each round sleeps for a
-- second or longer. The loop of _default_service_id
-- that merges underscores follows as many rounds as the text has characters, since each shortens it.
--
-- The scripts take more from outside. Evidence.Tools is json.loads, str.splitlines, the
-- comparisons of Decimals, which raise for NaN, and the order of a set; the rows that psql gives are a
-- function of the query's text, and a query of jsonb_agg(to_jsonb(q)) is taken to give objects.
-- Quality.Repository is the files with their lines, the function definitions that ast.walk meets, and
-- the matches of the regular expressions; files that cannot be read or parsed are left out.
-- EndToEnd.Tools is json.loads, int, the comparisons of Decimals, the names of exception classes and
-- time.monotonic, with MonotonicLaws (it does not go backwards). The loop of await_receipt follows
-- Host.rounds rounds, of which each sleeps for 2 seconds, so that twice the rounds have to be more
-- than the seconds of its deadline and two. What is written to standard error is the message of
-- `system_exit`.
-- Auth/Provider/Lookup/Status relies on ReadLaws: pydantic reads back a value of a field's own type
-- that stands under its alias.
--
-- Not modelled: type coercion inside pydantic and the messages of its errors (a refused field is a
-- ValueError), HTTP below requests, the models of the removed quote flow, render_html and the writing
-- of files in the evidence report, the examples besides e2e.py, the shell scripts, and the SDKs in
-- other languages.
pub mod Base
pub mod Strings
pub mod Json
pub mod Runtime
pub mod Host
pub mod Config
pub mod Models
pub mod Client
pub mod Wallet
pub mod Auth
pub mod Provider
pub mod Session
pub mod Evidence
pub mod Quality
pub mod EndToEnd
mod Tests
