-- ===== src/Lib.antt =====
-- Verification of the core of the WhatsApp HTTP API under waha-plus/src: the session manager with its
-- REST handlers, the apps and labels of a session, the runtime session, its status events, the events of
-- messages, groups and calls, the ids of chats and messages, and the authentication of requests.
--
-- The parts and how they interact. A REST handler of SessionsController calls an abstract
-- SessionManager under the lock of one session name. SessionManagerPlus keeps the running sessions in
-- memory and everything else in repositories; it makes a session object, which talks to the GOWS engine
-- over gRPC and turns the engine's events into its status, presence and account. Each change of status
-- goes through a stream pipeline to the listeners of session.status. The engine's events of messages,
-- groups and calls become the API's; an app for calls listens to the last of them. Ids of chats and
-- messages are converted and filtered on the way in and out. Before a handler runs, the guard asks whether
-- the user that the request's key stands for may do what the route does.
--
-- Base and its children: Boolean tests, lists over native numbers, text as UTF-16 code units with the
--   string methods that the program uses, dictionaries in insertion order, and the state monad M with
--   errors as values, in which what changed before an exception stays changed. Base/Keeping has the rules
--   for what an action leaves and answers.
-- Jids: waha-plus/src/core/utils/jids.ts, one function per export, and ensureSuffix of
--   core/abc/session.abc.ts. Jids/Suffixes, Conversion, Filtering and Keys hold what is proved of them.
-- Session: WhatsappSession of core/abc/session.abc.ts (status, presence, activity) and the handlers of
--   subscribeEvents, start, stop and setPresence of core/engines/gows/session.gows.core.ts. Time is a
--   number that the caller gives; what the engine answers is a Boolean argument, and what happens to the
--   session while a method waits for it is a function. Session/Events is the
--   step relation, Session/Presence the timeouts, Session/Stream the status pipeline of the constructor
--   and utils/StatusTracker.ts, Session/Publishing what listeners are told.
-- Manager: the data of plus/manager.plus.ts, of which World is the state: the sessions in memory, the
--   sessions merged into the stream of all events, three collections and the credentials. Answers holds
--   what the engine, the apps and the media storage answer during one operation.
--   A write to the database is done before those that are asked for later. How the lock of a session ends
--   is an argument of what starts many. Manager/Repositories is plus/storage/mongo, over a record Collection that stands for the driver with
--   its documented behaviour as laws. Manager/Settings is core/helpers.proxy.ts, getWebhooks and
--   ignoreChatsConfig. Manager/Operations has one function per method of the manager, Manager/Controller
--   one per handler of api/sessions.controller.ts, over the interface SessionManager, which the manager
--   and its specification both fill. Manager/Cells is the specification: the cell of one session.
--   Manager/Refinement and Handlers relate the two, Lifecycle and its children say what each handler
--   leaves, Registry is the invariant of the memory, Proxies the choice of a proxy, Fleet the restart and
--   the shutdown of all sessions, Listing the list of sessions, Waiting waitUntil of
--   utils/promiseTimeout.ts.
-- Core: core/manager.core.ts, the manager of the single session "default", which fills the same interface
--   of the handlers. Core/Lifecycle says what the handlers do on it.
-- Auth: core/auth/auth.ts, ApiKeyAuthFactory.ts, ApiKeyService.ts and apiKey.strategy.ts. Auth/Abilities
--   is casl.types.ts, casl.rules.ts, casl.ability.ts, policies.ts and policies.guard.ts; the CASL package
--   is a record Casl with the documented meaning of its rules. Auth/Access says who may do what.
--   Auth/Keys is core/storage/IApiKeyRepository.ts, plus/storage/mongo/MongoApiKeyRepository.ts and
--   api/apikeys.controller.ts over a collection with two unique indexes; Auth/Keys/Validity and Creation
--   hold what is proved of them.
-- Messages: core/utils/ids.ts, the ids and destinations of core/utils/messages.ts,
--   core/utils/convertors.ts and DistinctMessages of core/utils/reactive.ts. Messages/RoundTrip, Reading
--   and Deduplication hold what is proved of them.
-- Gows: what core/engines/gows/session.gows.core.ts makes of the engine's events: ids of messages and
--   acks of receipts, and in Gows/Votes the votes on polls. Gows/Groups is groups.gows.ts beside it,
--   Gows/Calls the call events and apps/calls/services/CallsListener.ts, over what the session answers to
--   each thing that it is asked.
--   Gows/Ids, Repeats, Acks, Polls, GroupEvents, Blanks and IncomingCalls hold what is proved of them.
-- Apps: apps/app_sdk. Apps is its data, the environment and the record AppsTable that stands for the table
--   of apps, with its documented behaviour as laws; Apps/Repository is storage/AppRepository.ts,
--   Apps/Service and Syncing are services/AppsEnabledService.ts over the hooks of each kind of app, of which
--   those of Chatwoot are parameters, and Apps/Routes is the controller. Apps/Paging is waha/Paginator.ts.
--   The other children hold what is proved of them, Apps/Samples a table of rows.
-- Labels: structures/labels.dto.ts, the label methods of session.gows.core.ts over a record LabelEngine of
--   the engine's calls, and api/labels.controller.ts in Labels/Controller. Nothing is assumed of the engine:
--   the one of this repository, gows/src/server/stubs.go, answers the calls without an effect.
--   Labels/Updating and Chats hold what is proved of them.
-- Mutex: modules/rmutex, the lock that several processes share through Redis, over a record Redis of the
--   commands that it sends, each at its time. Mutex/Holding and Exclusion say what a lock keeps others
--   from.
-- Jobs: utils/SinglePeriodicJobRunner.ts and SingleDelayedJobRunner.ts as step relations; Jobs/Single
--   counts the jobs that run.
-- Manager/Samples holds a database of lists and a state to run on; the modules called Tests hold runs and
--   instances of the theorems.
--
-- Bounds and fuel. Two loops are not bounded by their input. waitUntil runs on fuel, one poll each, and two
-- polls more than the timeout's milliseconds are enough when a sleep takes at least its time. The paginator
-- runs on fuel, one call of the API each, and one call more than there are records is enough.
--
-- Not modelled: gRPC, HTTP and logging; the wiring of event streams beyond the status pipeline and the
-- list of merged sessions; sessions named like a property of Object.prototype; the making of labels, whose
-- ids are numbers that JavaScript reads; the bodies, media and replies of messages; channels, and the calls that send
-- messages or change groups; the SQL repositories, but for the table of apps; the Chatwoot app, whose hooks
-- are parameters; the Go engine under gows and the Python relay. They are I/O, other languages, or call the
-- parts above.
pub mod Base
pub mod Jids
pub mod Session
pub mod Manager
pub mod Apps
pub mod Auth
pub mod Core
pub mod Gows
pub mod Jobs
pub mod Labels
pub mod Messages
pub mod Mutex
