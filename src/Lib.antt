-- ===== src/Lib.antt =====
-- Verification of the mail tester: a service that gives out disposable addresses, receives a mail at
-- one of them, and reports what keeps such a mail from being delivered.
--
-- The parts, and how they interact. A client asks the API (src/api) for an address; the API writes it
-- to Mongo, and its key to Redis. Postfix asks the recipient map (src/ingest/recipient_map.py), which
-- reads that key, and hands accepted mails to the LMTP server (src/ingest/lmtp_server.py), which
-- stores the mail with an event and queues a task. A worker (src/worker/tasks.py) claims the event,
-- pays for it from the owner's quota (src/worker/limits.py), has it analysed (src/processor), and
-- stores the report, which the API shows to the client, who polls for it.
--
-- Files and code:
--   Prelude: shared names, Boolean tests, lists, Python's str as lists of code points, integers.
--   Config: the settings of src/config.py, as a record that the handlers take.
--   Time: src/api/utils/time.py, and the day arithmetic of limits.py and src/api/functions.py.
--   Db/Mongo, Db/Redis: the two drivers as parameters. A record of operations, a record of laws
--     that is relied on, and an instance in memory that meets the laws. Db/Documents has the documents
--     of the collections, Db/Cache the keys of src/db/cache.py.
--   Exec: the state that all processes share (both stores, the next id, the queue), and handlers as
--     actions on it, which return or raise. What was written before an exception stays written.
--   Regex: Python's re for the patterns of the program, as a backtracking matcher over lists of the
--     ways to match; Regex/Language has the language of a pattern, Regex/Greedy the way that is
--     preferred, Regex/Found what findall finds.
--   Decimal: Python's float as an exact decimal.
--   Ingest: Connection (get_connection_info), LmtpServer (store_message, handle_DATA), RecipientMap
--     (lookup, handle_client). Message is what the e-mail package makes of a mail, a parameter.
--   Worker: Limits (quota_holder, consume_daily_quota, get_quota_state, claim_mail_event), Tasks
--     (analyze_received_mail; Outcome says what a task comes to), Spamd (spamd_check and _parse_report
--     of spamassassin_client.py).
--   Api: RateLimit (hit, enforce), MailTests (generate_random, check_address, get_result, get_limits),
--     ApiKeys (create_key, revoke_key, resolve_api_key), History (list_history, get_report),
--     Tokens (current_user, get_active_or_new_token, logout),
--     Auth (register, login, me), Identity (get_request_info, optional_current_user, list_keys,
--     generate_random_email), WebFiles (class WebFiles of main.py).
--   Processor: Score (class Score), and of src/processor/service.py Domains (organizational_domain,
--     domains_aligned), Spf (check_spf), Dkim (check_dkim), Dmarc (check_dmarc), Rdns (check_rdns),
--     Blacklists (check_blacklists, check_domain_blacklists), Sender (is_public_ip, get_sender_ip and
--     the MX probes). Dns is the resolver, a parameter. Content is src/processor/content.py: the
--     bodies and hosts, Parser (class BodyParser), Inspect (inspect_content). Analyzer is
--     src/processor/analyzer.py: Authentication, Headers, Delivery and Body have the calls of
--     score.minus of each check, Analysis puts them together and gives the worker its Services.
--   System: sequences of deliveries, tasks and requests on the shared state.
--   Tests: the theorems at concrete inputs.
-- A function keeps the name that it has in the source. Where a function was cut into helpers, each
-- helper is named for its part: process, run_analysis, finish, release and fail are the body of
-- analyze_received_mail; replace_address is what generate_random writes.
--
-- How it is modelled. Numbers are natural numbers without a bound, as in Python. An instant is a
-- number of microseconds in UTC; a handler reads the clock once, so where the source reads it twice in
-- one handler both readings are the same. An id is a number that grows with each insertion. Points are
-- hundredths, which is what the source rounds to. Texts are compared and folded as ASCII. Mongo answers
-- every call, but in a delivery each write, and the call of the queue, may raise, and in a task the
-- packages and the insertion of the report may; what was written before stays written. A call of Redis
-- may fail, and the theorems say where they assume that it does not. A header of a mail is a str;
-- what is raised on one that is not is a parameter (received_error). Of the document of a report the
-- model keeps what the program reads again. Handlers are atomic: an interleaving of processes is a
-- sequence of whole handlers.
--
-- Loops and fuel. All loops are structural, but the walk of check_dmarc_record, which runs on fuel: as
-- many rounds as the name has dots, since each round removes one; Dmarc/Loop has the loop without
-- fuel. The backtracking matcher repeats only what consumes a character, with the length of the rest
-- as its bound.
--
-- What is a parameter. The packages pyspf, dkimpy, ipaddress, email, html.parser, urllib, smtplib,
-- PyJWT and passlib, the SpamAssassin daemon, the two stores and the resolver are arguments of the
-- definitions that call them. html.parser is given by the handlers that it calls, in order, up to the
-- point at which it raises. A thread pool is the order in which it completes its jobs. A float is an
-- exact decimal, so the sums and comparisons of points are those of the printed numbers.
--
-- Not modelled: the choice of the resolver (get_resolver, get_resolver_ip) and spf_dns_lookup, which
-- adapt dnspython to pyspf, both of them parameters; _fallback_raw, since the worker always hands over
-- the bytes; start-up, routing, the answers of html pages, and the configuration of Postfix, unbound
-- and the containers.
pub mod Prelude
pub mod Config
pub mod Time
pub mod Db
pub mod Exec
pub mod Regex
pub mod Decimal
pub mod Ingest
pub mod Processor
pub mod Worker
pub mod Api
pub mod System
pub mod Tests
