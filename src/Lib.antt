-- ===== src/Lib.antt =====
-- A model of the WhatsApp communication API (TypeScript, NestJS) and what is proved of it.
--
-- The program serves organisations that send WhatsApp messages: it bills them, holds them to the
-- limits of their plan, forwards Meta's events to their endpoints and keeps their conversations. The
-- services keep their state in a database; a model takes the rows that a service reads and writes as
-- arguments and returns them. Libraries and other systems (Prisma, Redis, Razorpay, axios, the SSO)
-- are parameters, or the rows and answers that they give.
--
-- Prelude               shared names, text, decimal numbers, signed amounts, tables of rows, doubles.
-- Auth/OrgAccess        src/auth/org-access.service.ts: the grants of a session and the switcher.
-- Billing/Gst           src/billing/gst.ts: GSTIN validation, states and the division of tax.
-- Billing/InvoiceNumber src/billing/invoice.number.ts: the numbers of documents and the financial year.
-- Billing/Access        src/billing/subscription-access.service.ts, with the access cache of
--                       src/redis/redis.service.ts: the two halves of hasAccess, which other calls
--                       can come between, and the invalidations, as steps on the tables and keys.
-- Billing/Invoices      src/billing/invoice.service.ts and receipt.service.ts, with the routes of
--                       billing.controller.ts that read an invoice: what a debit was for (Draft), the
--                       words and the tax (Wording), the tables (Rows), `record` with its counters and
--                       its transaction (Store), look-ups, scopes and the extract (Views), and the
--                       mailing of what has not gone out (Delivery).
-- Billing/Subscriptions src/billing/billing.service.ts: our rows and Razorpay's entities (Rows),
--                       applyRemote and the payments (Remote), applyToGroup of
--                       src/billing/agency-billing.service.ts (Groups), handleWebhook (Webhook, with
--                       what it asks of other services in Effects), reconcile
--                       (Reconcile), billOverage (Overage), the plan on offer (Offer), changePlan and
--                       cancel (Change), register (Register), confirm (Confirm).
-- Inbox/Preview         src/inbox/preview.ts and src/common/utils/phone.ts.
-- Inbox/Conversations   src/inbox/conversation-writer.service.ts.
-- OrganisationSettings  src/organisation-settings/organisation-settings.service.ts: the payer, the
--                       version of cached answers and the tax identity.
-- Plans/Limits          src/plans/plan-limits.service.ts: the limits of an organisation and of an
--                       account, and the upgrade that a refusal suggests.
-- Webhooks/Store        the rows of prisma/schema.prisma that the dispatcher uses.
-- Webhooks/Dispatcher   src/webhooks/webhook-dispatcher.service.ts: the HTTP call (post, readSecret,
--                       excerpt) and the back-off (nextRetryAt).
-- Webhooks/Settle       the same file: what an attempt writes (settleSent, recordEndpointFailure).
-- Webhooks/Outbox       the same file: enqueue, sweep, attemptRow and sendTest.
-- Webhooks/Url          src/webhooks/webhook-url.util.ts.
-- Webhooks/StatusUpdate src/webhooks/handlers/status-update.handler.ts.
--
-- Text is a list of UTF-16 code units. Instants are milliseconds and amounts are paise, as natural
-- numbers. `decimal` runs on one more step of fuel than its number, which the round trip of its
-- digits shows to be enough. Prelude/Double runs on fuel for products below 2 ^ 117 and quotients below
-- 2 ^ 53, which a price, a 32-bit column, over the milliseconds of a date stays within. No other loop
-- needs fuel.
--
-- How the parts of billing meet: a captured payment that handleWebhook records becomes the request
-- of an invoice (`issue_invoice` of Effects carries an `InvoiceRequest`), Invoices raises it with the
-- numbers of InvoiceNumber and the tax of Gst, and Access reads the status and the period that
-- applyRemote writes. A transaction, and an operation on a subscription, is one step: what two
-- operations do between each other's queries is not modelled.
--
-- JavaScript's numbers are doubles. The amounts, and the products of amounts and rates or weights, are
-- taken to be below 2 ^ 53, up to which doubles are exact. The product of the proration of an upgrade,
-- of paise and milliseconds, can pass that: it and its quotient are rounded as doubles are, by
-- Prelude/Double.
--
-- Not modelled: controllers, other than those named, modules, DTOs and Swagger; PDF rendering; mail
-- templates and SES; and the services that the manifest lists as such. A database query that fails
-- is not modelled.
pub mod Auth
pub mod Billing
pub mod Inbox
pub mod OrganisationSettings
pub mod Plans
pub mod Prelude
pub mod Webhooks
