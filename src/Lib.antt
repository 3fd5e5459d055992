-- ===== src/Lib.antt =====
-- A model of the core of the email security gateway, and its correctness theorems.
--
-- A message comes in over a webhook, and `process_message` (webhook_receiver/app.py) takes it through
-- all parts: it skips bounces and duplicates, stores the raw mail, has the message analysed, combines
-- the verdicts into one routing decision, has the message delivered, and writes an audit record.
--
-- Gateway/      webhook_receiver/app.py (the six webhooks in Webhooks.antt, `process_message` in
--               Process.antt, the release, the rejection and the bulk action of the administrator in
--               Admin.antt), security/bounce_detector.py (Bounce.antt), and how malware in an attachment
--               and a malicious link meet the allow list (Malware.antt, Links.antt)
-- Decision/     decision_engine/: `decide` of scorer.py (Scorer.antt), which asks tenant_config.py,
--               vip_policy.py, campaign_clustering.py, feedback_loop.py, allow_block.py,
--               shadow_mode.py and explainability.py, a module each
-- Auth/         auth_checker/: spf.py (Spf.antt, its macros in Spf/Macro.antt), dmarc.py and
--               alignment.py (Dmarc.antt), sender_baseline.py (Baseline.antt), and how `run_auth_checks`
--               of pipeline.py adds up the results (Scoring.antt)
-- Attachments/  attachment_analysis/: `analyze_attachments` of pipeline.py (Pipeline.antt), and the
--               tests of extensions.py, magic_bytes.py, polyglot.py and policy.py, a module each
-- Content/      content_analysis/: `analyze_content` of pipeline.py (Pipeline.antt, Points.antt), and the checks of
--               keywords.py, homoglyphs.py, display_name.py, rtl_detector.py, html_evasion.py,
--               relationship_graph.py, urls.py, visual_brand.py and caching.py, a module each
-- Delivery/     delivery/: `deliver` of pipeline.py (Pipeline.antt), quarantine.py with
--               security/encryption.py (Quarantine.antt), relay.py (Relay.antt), auto_zap.py with
--               mailbox_actions.py (AutoZap.antt)
-- Resilience/   resilience/: circuit_breaker.py and retry.py, which the relay uses
-- Security/     security/rate_limit.py, over the interface of the store, and webhook_auth.py with
--               provider_auth.py (WebhookAuth.antt), and redact.py, which the audit records of
--               audit/logger.py go through (Redact.antt)
-- Scalability/  scalability/message_queue.py and queue.py (WorkerPool.antt), each with the steps of the
--               workers as a relation, and autoscaler.py
-- Compliance/   compliance/: the legal holds and the purge of retention.py (Holds.antt, Retention.antt),
--               the erasure of gdpr.py (Gdpr.antt)
-- Tenancy/      multi_tenancy/: tenant_manager.py (Manager.antt) and rate_limiter.py
-- TimeOfClick/  time_of_click/: rewriter.py and service.py
-- Identity/     identity/: rbac.py, tokens.py, and of middleware.py `verify_request` (Access.antt) and
--               the accounts with `login` (Accounts.antt)
-- Storage       storage/memory.py, and storage/base.py as the record of operations and laws in
--               Storage/Interface.antt, which is an argument of the gateway, of the webhooks and
--               of the rate limiter
-- Prelude, Int, Dict, Text, Ip   what the parts share: lists and tests, integers, Python's dict, str
--               and int, and the operations of Python's ipaddress
--
-- State is passed explicitly: each operation takes the state of its component and the time, and
-- returns the new state. Exceptions are values. A `str` and a `bytes` are lists of character codes,
-- and a case change or a strip is that of ASCII. Times are in one unit, so that a float is a natural
-- number of them.
--
-- Python's ipaddress, re, urlparse, HTMLParser and parseaddr, confusable_homoglyphs, dnspython, the
-- public suffix list, MD5, SHA-256 and HMAC, JSON and base64, Fernet, the clients of SMTP and of the
-- mailboxes, the notifier, the rewriting of MIME bodies, floating-point weights and random jitter are
-- parameters; where a theorem needs a law of one of them, it is a named hypothesis.
--
-- Bounds and fuel: the evaluation of SPF records is a recursion on 11 levels, which is the depth limit
-- of the source; a decimal numeral of n is written with fuel n + 1, which is more than its digits.
-- Retries, the attempts on an item of the worker pool, and loops over records, entries and exchanges
-- are recursions on their lists or counts.
--
-- Not modelled: the checks of DKIM, ARC, BIMI, FCrDNS and MTA-STS (their results, and the verdicts of
-- all analyses in a run of the gateway, are arguments and may be anything), the parsers of the providers,
-- the extraction of links, the keywords of other languages, QR codes, OCR and the classifier (their
-- results are parameters of the analyses), the clients of the mailboxes, the hashes of passwords and
-- the TOTP codes (parameters, too), the inside of archives and documents, the reports of users, the
-- other HTTP routes, the pages of the administrator, data
-- residency, and the operational tools.
pub mod Prelude
pub mod Int
pub mod Dict
pub mod Text
pub mod Ip
pub mod Storage
pub mod Security
pub mod Resilience
pub mod Decision
pub mod Auth
pub mod Delivery
pub mod Attachments
pub mod Scalability
pub mod Identity
pub mod Compliance
pub mod Tenancy
pub mod Content
pub mod TimeOfClick
pub mod Gateway
