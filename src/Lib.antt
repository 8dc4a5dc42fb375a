-- ===== src/Lib.antt =====
-- GovCrawler: a crawler of government web sites that collects contact leads. Agents crawl, and a cloud
-- service keeps the jobs and leads and sends email campaigns.
--
-- An agent's crawler engine (agent/crawler/engine.py) works off a queue of URLs, hands each lead to the
-- outbox of its job (agent/local_store.py), and stores checkpoints of its frontier there. The agent's
-- cloud client (agent/cloud_client.py) posts the outbox in batches. The cloud keeps the job table
-- (cloud/db/mixins/job_mixin.py) that heartbeats and a reaper update, the leads
-- (cloud/db/mixins/lead_mixin.py), and a dispatcher (cloud/api/dispatcher.py) sends the emails of a
-- campaign (cloud/db/mixins/outreach_mixin.py).
--
-- Base          Tests, lists, SQL tables as lists of rows (Base/Table), texts as lists of code points.
-- Outbox        LocalOutbox: each method is a function of the record Outbox. Outbox/Rows has its
--               invariant, Outbox/Retries the attempts and the checkpoints.
-- CloudClient   `_flush_kind`, the drain loops and `is_backpressured`; Batch, Attempts, Delivery and
--               Drain hold the proofs.
-- Url           shared/urls.py, and urlsplit and parse_qsl as the crawler uses them.
-- Crawler       Config (the settings), Pagination (agent/crawler/pagination.py), Engine (state and
--               `_enqueue`), Links (`_enqueue_links`), Worker (`_worker`, `_process`), Frontier
--               (`_save_checkpoint`, `_rehydrate_frontier`).
-- Outreach      The tables of cloud/db/tables/outreach.py and the operations on campaigns and
--               credentials; Outreach/Emails the operations on emails, Outreach/Dispatcher the loop
--               `run_campaign_dispatch`.
--               Outreach/Drafts is cloud/services/campaign_service.py, Campaigns and Creation the
--               routes of cloud/api/campaigns.py, Listings the paged lists; Staging, Added,
--               Suppression, Ownership and Listings/Complete hold proofs.
-- Jobs          cloud/db/mixins/job_mixin.py.
-- Leads         `save_lead` and `bulk_save_leads` of cloud/db/mixins/lead_mixin.py; Leads/Domains the
--               resolution of a URL to a domain, Leads/Scoring shared/scoring.py, Leads/Manual the
--               uploads and edits.
-- Auth          The tables of cloud/db/tables/auth.py. Users, Sessions, Roles and Effective are
--               cloud/db/mixins/auth_mixin.py, Permissions shared/permissions.py, Guard
--               cloud/api/deps.py, Routes and SessionRoutes cloud/api/auth.py, Admin
--               cloud/api/admin.py and cloud/api/roles.py; Overrides/FirstRow is the write of an
--               override row by row. Overrides, Resolution, Revocation, Refresh, Login, LastAdmin and Accounts hold the proofs.
-- CsvImport     cloud/services/csv_import.py; CsvImport/Parsed has the proofs.
-- Tests         Runs on small inputs.
--
-- A transaction or a stretch of code between two awaits is one step. The clock, the answers of the
-- servers and the results of fetching and parsing are arguments: the drain loop takes a list of
-- responses and the dispatch loop a list of rounds, which play the part of fuel; a loop that has used
-- up its list is still running. Eight rounds for each pending lead are enough for the drain loop,
-- since a row is given up at the eighth failure; in the source a deadline may end the loop before. A
-- round of the dispatch loop says how its call of `_send_one_email` ended and, where that raised,
-- whether the server had taken the message before. A crawl is a sequence of steps of the workers, with
-- resumes from checkpoints, also under other policies. Integers are natural numbers; ids and
-- counters of the program are never negative.
--
-- Not modelled: HTTP, SMTP, fetching, HTML parsing, logging and sleeps, which are I/O; the
-- lists of leads and the other HTTP routes of the cloud; the desktop interface, portal, frontend,
-- scripts and migrations.
mod Base
pub mod Outbox
pub mod Auth
pub mod CsvImport
pub mod CloudClient
pub mod Url
pub mod Crawler
pub mod Outreach
pub mod Jobs
pub mod Leads
mod Tests
