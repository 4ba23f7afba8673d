-- ===== src/Lib.antt =====
-- A model of the newsroom platform's rules: who may do what, what becomes of articles, of comments and of
-- reports from the public, and what becomes of money that supporters pledge.
--
-- The program is a web application over a database. Its rules stand in src/lib and in the actions of
-- src/app; pages call an action, an action passes a gate (src/lib/auth/rbac.ts), calls the rules on the
-- tables, and adds an entry to the audit log (src/lib/audit.ts).
--
--   Prelude      shared notation, lists, results and texts (a text is its list of code points)
--   Store        the database as a parameter: a table with the laws that the calls of prisma rely on;
--                Store/Memory is a table in memory that has those laws and that the tests run on; the
--                order in which an unordered query returns its rows is a parameter too, a RowOrder
--   Audit        recordAudit of src/lib/audit.ts
--   Auth         Permissions (src/lib/auth/permissions.ts), Roles (src/lib/auth/roleService.ts), Rbac
--                (src/lib/auth/rbac.ts), People (src/app/(dashboard)/dashboard/users/actions.ts),
--                Otp (src/lib/auth/emailOtp.ts), Recovery (src/lib/auth/recoveryCodes.ts), Linking
--                (src/lib/auth/accountLinking.ts), Tokens (src/lib/auth/tokens.ts), Account (the tables of
--                prisma/schema.prisma that they use)
--   Issues       Visibility (src/lib/issueVisibility.ts), Reports (src/lib/issues.ts), Alerts
--                (src/lib/issueAlerts.ts), Queue (src/app/(dashboard)/dashboard/issues/actions.ts)
--   Articles     Slugs (src/lib/slugify.ts), Rights (src/lib/mediaRights.ts), Media
--                (src/lib/articleMedia.ts), Records (src/lib/validation/article.ts), Writing, Publishing
--                and Sources (src/app/(dashboard)/dashboard/articles/actions.ts, with
--                src/lib/scheduledPublishing.ts and src/lib/notifications.ts)
--   Comments     Spam (src/lib/spam.ts), Threads (src/lib/settings.ts, src/lib/notifications.ts), Posting
--                (src/components/comments/actions.ts), Moderation
--                (src/app/(dashboard)/dashboard/comments/actions.ts)
--   RateLimit    the limit kept in memory (src/lib/rateLimit.ts)
--   Support      Money and Calendar (src/lib/money.ts), Contributions and Payments
--                (src/lib/contributions.ts)
--
-- A function of the source has its own name here, in snake case: `assignRole` is `assign_role`. A
-- call that throws is an `err`, and leaves the tables as they were; a transaction is one step.
-- Identifiers, random bytes and the clock are arguments. The calls that an action makes stand one
-- after the other, as they do in a request; requests that overlap are not modelled. Numbers are
-- natural; an amount is checked against the largest safe integer where the source checks it. Every
-- loop is over a list but two: the search for a free slug goes one round more than there are rows, since
-- each round that fails has met another row's slug, and the walk up a thread goes as many rounds as the
-- source's own bound on the depth allows.
--
-- Parameters stand for what other code returns: the language's NFKD and URL parser, its toLowerCase for
-- slugs, tokens and recovery codes, the HTML sanitizer, the search text and the addresses found in a body, a
-- limiter's verdict, a fetched preview, the settings, hashes, random bytes. Keys of roles and tiers and the
-- phrases of spam are lowered by a function of Prelude/Texts, which is the language's where the result is
-- compared with ASCII.
--
-- Not modelled: sign-in, trusted devices, lockout and the request guard, uploads, link previews,
-- analytics, mail and pushes, pages and scripts. Of what is modelled, the labels of
-- permissions, the metadata of the log, the cached settings of the support page and the lists that
-- only read for staff are left out.
pub mod Prelude
pub mod Store
pub mod Audit
pub mod Auth
pub mod Issues
pub mod Articles
pub mod Comments
pub mod RateLimit
pub mod Support
