-- ===== src/Lib.antt =====
-- AximaVPN sells access to WireGuard servers: users buy a tariff, a payment is settled by a
-- provider's notification or by an administrator, and a settled payment grants or extends a
-- subscription, with which a user creates peers on servers. Servers register themselves with a
-- token, send heartbeats, and are checked by scheduled jobs; an agent on each server carries out
-- what the panel asks of it. This library models that core of the API, with
-- the agent and the browser's client of the API.
--
-- Parts:
--   Text, Common      strings as lists of code units with the operations of JavaScript that the
--                     sources call; lists, options and Boolean tests
--   Cidr              apps/api/src/common/cidr.util.ts: ipToInt, parseCidr, sanitizeCidrs,
--                     rangeToCidrs, aggregateCidrs, excludeIpFromCidrs
--   Exec              asynchronous methods: state passing with exceptions as values; Exec/Keeps says
--                     what a method leaves true, by a rule for each way to build one, and the
--                     modules named Frame say it of each component's methods
--   Database          the tables of apps/api/prisma/schema.prisma and the codes of
--                     packages/shared/src/enums.ts
--   Auth, Users       apps/api/src/auth/auth.service.ts and users/users.service.ts; Sessions takes
--                     their calls in any order, and Sessions/Registry is the register of
--                     accounts and tokens that they implement
--   Subscriptions     apps/api/src/subscriptions/subscriptions.service.ts
--   Payments          apps/api/src/payments/payments.service.ts, with the adapters in
--                     Payments/Providers; it calls Subscriptions.grant_or_extend
--   Servers           apps/api/src/servers/servers.service.ts: registration, heartbeats, countries;
--                     Servers/InstallScript is apps/api/src/servers/install-script.ts
--   IpAlloc           apps/api/src/common/ip-alloc.util.ts: the address of a new peer
--   Peers             apps/api/src/peers/peers.service.ts: create, revoke, recreate, adminDelete,
--                     getConfig, getConfigFile; it reads Subscriptions and Servers, takes an
--                     address from IpAlloc and prints with WireGuard
--   WireGuard         apps/api/src/common/wireguard.util.ts
--   Tariffs           apps/api/src/tariffs/tariffs.service.ts
--   Routes            apps/api/src/routes/routes.service.ts: resolveAndPublish reads the DNS, an
--                     argument, and cleans what it answers with Cidr; Routes/Steps takes its
--                     calls in any order
--   Health            apps/api/src/health: checks and scheduled jobs; it changes server rows
--                     through Servers.update_server
--   AdminBilling      apps/api/src/admin-billing/admin-billing.service.ts
--   Audit             apps/api/src/audit/audit.service.ts: record
--   Api               apps/api/src/common/decorators.ts and common/guards, with a child for each
--                     controller; Api/Router puts the guards of apps/api/src/app.module.ts before
--                     the handlers
--   Panel             requests to Api/Router, the jobs of apps/api/src/health/health.scheduler.ts
--                     and provisioning runs, in any order, each to its end, or as far as it gets
--   Web               apps/web/lib/api.ts and apps/web/lib/auth.tsx; Web/Recovery takes Api/Router
--                     as its network
--   Cipher            apps/api/src/common/crypto.service.ts, over the platform's AES-256-GCM
--   Agent             apps/agent/src/index.ts; its state is the commands that were run and the
--                     temporary files
--   AgentGateway      apps/api/src/agent-gateway/agent-gateway.service.ts: the panel's calls of an
--                     agent, which AgentGateway/Delivery connects to Agent
--   Provisioning      apps/api/src/provisioning/ssh-provisioner.service.ts, over a session whose
--                     answers are arguments
--
-- A method is a function from the tables to its result and the tables it leaves, named as in the
-- source (markSucceeded is mark_succeeded). What a throw interrupts stays written, as the services
-- run one query after another. Operations run alone: two requests do not interleave, and what a
-- provider or the DNS answers is fixed for one call only. The clock, a
-- new row's identifier, random tokens, the cipher, password hashes and signed tokens, the payment
-- provider, the DNS and the agents' answers are arguments. Identifiers, keys, tokens and
-- ciphertexts are only compared in the program and are numbers, but texts where the agent and the
-- configurations print them; times are milliseconds. Messages of errors keep their fixed text.
--
-- Three loops run on fuel: halving in trailing_zeros, which n rounds end, the blocks of a range, of
-- which there are at most as many as addresses, and the candidates of nextFreeIp, of which there
-- are as many as host addresses.
--
-- Not modelled: the pages and components of the web client; what a shell makes of the install
-- script; QR codes and key generation; Telegram
-- delivery; request validation and the rate limit, which are libraries'; paged and alphabetical
-- listings and the order of other listings; the HTTP servers and timers.
pub mod Common
pub mod Text
pub mod Cidr
pub mod Exec
pub mod Database
pub mod Auth
pub mod Users
pub mod Sessions
pub mod Subscriptions
pub mod Payments
pub mod Servers
pub mod Health
pub mod IpAlloc
pub mod WireGuard
pub mod Peers
pub mod Tariffs
pub mod Routes
pub mod AdminBilling
pub mod Audit
pub mod Api
pub mod Agent
pub mod AgentGateway
pub mod Provisioning
pub mod Panel
pub mod Cipher
pub mod Web
