-- ===== src/Lib.antt =====
-- Aria: a live-streaming app whose streamers are language-model personas, and the payments
-- service that sells its credits. This library models the parts that keep money, broadcasts and
-- responses in order.
--
-- The parts and how they interact:
--
-- The payments service (apps/payments/src/payments) takes a payment through a gateway. `confirm`
-- and `refund` of application/service.py write the payment and one outbox row in one transaction;
-- the relay (application/relay.py) publishes the rows to the broker and marks them. The wallet
-- context of the app (apps/aria/src/aria/contexts/wallet) consumes those events and grants or
-- takes back credits in a ledger whose keys make a repeated event harmless. Viewers spend credits
-- on donations, which chat reaches through `SuperchatPort`. The chat context
-- (apps/aria/src/aria/contexts/chat) has the rooms, the slot that lets one response at a time be
-- made in a room, the choice of what is said next in a room, the worker that answers generation
-- requests, and the timeline that a room leaves. The community context
-- (apps/aria/src/aria/contexts/community) has the stories that a broadcast reads out, likes, and
-- the ranking of a persona's supporters, which it makes of the wallet's donations. The persona
-- context (apps/aria/src/aria/contexts/persona) has the personas with their owners, and the
-- profiles from which the chat context lets them speak.
--
-- Files (paths of code below the context or service just named):
--
--   Common/        Int, Text, Uuid, Json: Python's int, str, uuid.UUID and decoded JSON, with the
--                  exceptions that their conversions raise. Error: the exceptions of
--                  common/errors.py and of the libraries, told apart as the `except` clauses do,
--                  and results of code that may raise. Lists, Tests: helpers.
--   Wallet/Model                 domain/model.py: the entities, with their validators.
--   Wallet/Repository/Tables     adapter/outbound/persistence/model.py: the wallet, ledger and
--                                donation tables as a record `Db` of lists, with their keys.
--   Wallet/Repository            adapter/outbound/persistence/repository.py: `apply` in its steps
--                                (flush, UPDATE, donation, commit or rollback).
--   Wallet/Repository/{Balance,Consistency,Apply,Book,Refinement}   theorems on `apply`.
--   Wallet/Service               application/service.py and adapter/outbound/superchat.py.
--   Wallet/{Granting,Donating}   theorems on `grant`, `donate` and `charge`.
--   Wallet/Events, Wallet/Consumer   application/credit_events.py and
--                                adapter/inbound/worker/router.py, over the database and the
--                                dead-letter topic.
--   Wallet/{Consuming,Deliveries,Delivery,Once}   theorems on one delivery and on sequences.
--   Wallet/Ranking               `top_donors` of the donation repository; Totals, Grouping and
--                                Falling say what its groups and its order are.
--   Payments/Model, Payments/Topics  domain/model.py, application/topics.py.
--   Payments/Repository          adapter/outbound/persistence: both tables, `save_with_outbox`.
--   Payments/Service             application/service.py: `prepare`, `confirm`, `refund`.
--   Payments/Relay               application/relay.py and workers/outbox.py, over the broker's log.
--   Payments/{Draining,Explained,Inserting,Saving,Written,Requests,Serving,Stale,Marking,
--   Publishing}                  the invariant of the two tables, requests in any order, and what
--                                is published.
--   Payments/Contract            the payload of one service as the other reads it.
--   Paid                         both services end to end.
--   Chat/Room, Chat/Room/Service domain/room.py; application/room.py and abandon.py over
--                                adapter/outbound/persistence/repository.py.
--   Chat/Room/{Lookup,Changes,Forward}   theorems on any operations on the rooms.
--   Chat/Coordinator             domain/source.py and adapter/outbound/redis/coordinator.py; Slots
--                                says it again without the text of the Redis key.
--   Chat/Message, Chat/Generation    domain/message.py, application/generation.py.
--   Chat/Ask                     what a generation request carries, `_selection_metadata` with it.
--   Chat/Topic, Chat/Topic/Lexical   domain/topic.py and adapter/outbound/clustering/lexical.py;
--                                Score, Choosing and Partition are the theorems.
--   Chat/Candidates              adapter/outbound/redis/candidates.py.
--   Chat/Progress                application/progress.py over the slot, the idle lock, the
--                                candidates and the stories of a room; Stories, Carrying,
--                                Advancing, Rounds and Answers are the theorems.
--   Chat/Idle                    workers/idle.py of the app, one turn over the live rooms; Starving
--                                and Turning are the theorems.
--   Chat/Orchestration           application/service.py over the wallet's tables.
--   Chat/Transcript              adapter/outbound/persistence/transcript.py and `room_messages` of
--                                adapter/inbound/http/router.py; Newest, Cursor and Paging follow
--                                a reader through the pages.
--   Chat/Worker                  adapter/inbound/worker/router.py, adapter/outbound/redis/dedup.py.
--   Community/Story, Community/Like  application/service.py, adapter/outbound/persistence and
--                                adapter/outbound/cache/like_count.py.
--   Community/Ranking            `RankingService` of application/service.py, common/ranking.py and
--                                the wallet's adapter/outbound/ranking.py; Supporters is the
--                                theorem.
--   Persona/Model, Persona/Repository, Persona/Service   domain/model.py,
--                                adapter/outbound/persistence and application/service.py.
--   Persona/Profile              common/persona_profile.py, adapter/outbound/profile.py and
--                                adapter/outbound/cache/profile.py.
--   Persona/{Owning,Reading,Values,Links,Linking,Listing}   theorems on who may write, on what the cache
--                                answers, and on the lists of core values.
--   .../Tests                    the theorems at concrete inputs.
--
-- State is passed explicitly: an operation takes the tables (or the Redis key, or the broker's
-- log) and returns what it answers or raises with the new state. A method that rolls back returns
-- the old rows. Requests are a data type for each component, and histories are lists of requests,
-- polls and deliveries, in any order.
--
-- Bounds: loops are recursion on the rows, the batch or the code points. Only the digits of
-- `str(n)` take fuel, n + 1 of it: every step divides by ten (Common/Text, decimal_from-enough).
-- The retry loop of the coordinator is recursion on the list of the other clients' writes that
-- make it lose its WATCH, so each result is for a loop that ends after that many tries. Amounts
-- are Python integers without a bound. Times of a room are microseconds. The scores of candidates
-- are fractions of ten thousand, rounded as `round` does, where the code adds floats. A reader of a
-- timeline may ask for one page more than there are rows.
--
-- Parameters, for what is not code of the repository: the answers of the payment gateway; how a
-- publication ends (acknowledged, refused, or taken without an acknowledgement); what the profile,
-- the model, the slot's Redis, the database and the other clients do in one turn of the worker
-- (`Turn`) and in one delivery to it, where a call may raise with its work done or not; how the
-- calls of the orchestration service end (`Calls`), those of a round of progress (`Round`)
-- and those for one room of the idle worker (`Visit`); whether `datetime.fromisoformat` reads a
-- text; the identifiers that a request draws, and for a core value the row of another transaction; the
-- names of users; whether Redis is up; the viewers and the last activity of a room.
--
-- Not modelled: the clock, and with it the expiry of Redis keys; transactions that overlap (each is
-- taken at its commit, but for `confirm`, which Payments/Stale splits at its await, and for the
-- core values of a persona, whose session commits in its loop); group offsets of the consumers;
-- column widths beyond those of the validators, but for the one of core values; queries that only
-- list rows, other than the timeline, the core values and the ranking; the cache of the ranking;
-- the text of the personas' prompts and clients of language models; the endless loop around a turn
-- of the idle worker; HTTP and WebSocket routes other than the one for a room's messages;
-- configuration, tracing and logging; the identity context, and the streaming context, which has
-- no code yet.
pub mod Common
pub mod Wallet
pub mod Payments
pub mod Paid
pub mod Chat
pub mod Community
pub mod Persona
