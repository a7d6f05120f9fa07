-- ===== src/Lib.antt =====
-- A verification library for Sentinel EDR: its two operator consoles. The dashboard (dashboard/) is
-- a Next.js application; its browser half reaches the Go control plane only through a proxy of its
-- own, which checks the session and the role. The embedded console (web/) is the single-page
-- application that the Go server carries; it calls the Go API itself and holds a WebSocket to it.
--
-- The parts, and the files that model them:
--
-- - Model: the records that both consoles exchange (web/src/types.ts).
-- - Bff: the proxy's handlers GET, POST and DELETE, with validPath, writeMinRole, getMinRole,
--   operatorRole and allowed (dashboard/app/api/proxy/[...path]/route.ts). A handler is a function
--   from the session and the path to an outcome: a refusal, or the call that it forwards. The
--   regular expressions are recursive tests on texts. Bff.RoleMap has the table of the Go server's
--   guarded routes (server/internal/api/api.go).
-- - Gate: the refusal of public sign-up and the content security policy (dashboard/proxy.ts).
-- - GoClient: goToken and goFetch, by which the proxy calls the Go API (dashboard/lib/go.ts). The
--   token cache is passed from call to call; the Go server's answers and the clock are the world
--   that a call takes.
-- - LiveList and Poll: the hooks useLiveList and useData (dashboard/lib/use-data.ts), as steps on
--   a state, one for each effect, reply, push and timer, in any order.
-- - StreamHub: the EventSource that all components of the dashboard share
--   (dashboard/lib/use-stream.ts): subscriptions, messages, the timer that closes it, and its
--   status.
-- - Mitre: the ATT&CK tables and lookups (dashboard/lib/mitre.ts), the technique chips and the
--   kill-chain strip (dashboard/components/mitre.tsx).
-- - Incident: the incident's narrative, recommendations, lineage and timeline
--   (dashboard/components/incident-summary.tsx, attack-story.tsx and lineage-tree.tsx beside it).
-- - TwoFactor: the card that turns two-factor authentication on and off
--   (dashboard/components/two-factor.tsx).
-- - Calls: the calls of the proxy that the dashboard's pages make, post, postJSON and respond
--   (dashboard/lib/use-data.ts), against the replies that they get; their paths, against Bff.
-- - Pages: the pages of detections, events, cases, rules, endpoints, responses and settings
--   (dashboard/app/(app)/), a child for each: what they keep, ask, send and say; Pages.Overview has
--   the figures of the overview and of the DLP page.
-- - Internet: the page of network connections (dashboard/app/(app)/internet/page.tsx).
-- - Table: the data table's saved view, selection column, new rows and body
--   (dashboard/components/data-table.tsx).
-- - Announcer: the live regions that tell of new detections
--   (dashboard/components/live-announcer.tsx).
-- - Login: the sign-in page with its second factor (dashboard/app/login/page.tsx), and the session
--   check of the console's layout (dashboard/app/(app)/layout.tsx).
-- - Seed: the script that provisions an operator (dashboard/scripts/seed-operator.mjs).
-- - Navigation: the sidebar and the command palette (dashboard/components/app-sidebar.tsx,
--   dashboard/components/command-palette.tsx).
-- - Triage: the panel of the generated triage (dashboard/components/ai-triage.tsx).
-- - Policy: the panel that sends a collection policy or an update to an agent
--   (dashboard/components/policy-panel.tsx); its posts go through Calls and Bff.
-- - Relay: the route that turns the Go server's WebSocket into an event stream for the browser
--   (dashboard/app/api/stream/route.ts).
-- - Format: ages, sizes, colours, details and labels (dashboard/lib/format.ts,
--   dashboard/lib/response-actions.ts, dashboard/components/severity.tsx).
-- - Store: the embedded console's lists and toasts (web/src/store.tsx), fed by Session's replies
--   and Feed's messages.
-- - Session: its API client, with the list of its calls, its session and its sign-in form
--   (web/src/api.ts, web/src/App.tsx).
-- - Screens: its pages (web/src/pages/), a child for the endpoints, detections, cases and events,
--   Screens.Domains for the internet page and Screens.Lists for the others: counts, filters, rows,
--   actions and what they say. Screens.Confirm has the two-step confirmation
--   (web/src/components.tsx).
-- - Feed: its WebSocket, opened again after it closed (web/src/ws.ts).
-- - Shell: its routes, navigation, top bar and toasts (web/src/App.tsx, web/src/Layout.tsx).
-- - Filters: the sorting and searching of its tables, and their controls (web/src/filters.tsx).
-- - ProcessTree: the ancestry and the children of a process (web/src/ProcessTree.tsx).
-- - Common: lists, stable sorting, texts and tests of equality that the parts share.
--
-- How the code is read. A function is a definition by clauses under its name, in snake case.
-- What changes state is a step from a state and an input to a state, and a theorem on runs holds
-- for every list of inputs, so for every order in which replies, timers and events can come. A text
-- that the code takes apart is the list of its code units; one that it only compares or shows is a
-- string. Case mapping is that of ASCII letters; the mark of a match in a cell, which depends on how
-- long a lower-cased text is, takes it as a parameter. A number is a natural number; times are
-- milliseconds. Array.prototype.sort is the stable insertion sort, and the collation of
-- localeCompare is a parameter, as are JSON.parse and the replies of the network. A component's
-- step is taken once the effects that it causes have run.
--
-- Termination. Every loop of the code is a recursion on a list, but for four. The walk up a
-- process's parents has as fuel two more than the number of processes in the window, and its
-- theorem says that it ends before the fuel does. The digits of a number have as fuel one more than
-- the number, and the loop of a size's unit has the four steps that its test allows. The loop of the
-- upload sparkline has as fuel the number of connections, and each round takes at least one.
--
-- Not modelled: the Rust agent (agent/) and the Go server (server/), but for the table of routes;
-- the order of the overview's detections, the columns and fields of the tables and drawers, and the
-- charts; sorting, filtering and paging in the dashboard's data table, which are another library's;
-- the auth set-up (dashboard/lib/auth.ts); the components under dashboard/components/ui, which are
-- copies of another project's; markup and styles. Calls of better-auth, next and react are inputs or
-- parameters of the models that use them.
pub mod Common
pub mod Feed
pub mod Filters
pub mod Format
pub mod Gate
pub mod Internet
pub mod GoClient
pub mod Bff
pub mod Calls
pub mod Incident
pub mod LiveList
pub mod StreamHub
pub mod TwoFactor
pub mod Triage
pub mod Policy
pub mod Poll
pub mod Pages
pub mod Relay
pub mod Session
pub mod Shell
pub mod Store
pub mod Table
pub mod Announcer
pub mod Login
pub mod Seed
pub mod Navigation
pub mod Screens
pub mod Mitre
pub mod Model
pub mod ProcessTree
