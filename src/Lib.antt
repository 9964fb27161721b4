-- ===== src/Lib.antt =====
-- The frontend of mirai: the state machines of authentication and course creation, the conversion of
-- generated lessons, the course library with its storage and cache, the middleware that guards the
-- pages, the client of the identity service, and the session, stream, store and editor of the pages.
--
-- Parts, and the code they model (paths from the repository's root):
--   Prelude       what the code uses of JavaScript (strings as UTF-16 code units, truthiness, trim,
--                 thrown values, the stable sort of Array.prototype.sort), and lemmas on lists.
--   Shared        frontend/src/machines/shared/{types,guards,telemetry}.ts: errors, guards, telemetry,
--                 in Shared/Context the base context, and, in Shared/Machine, runs of a machine with
--                 their invariants and accounts.
--   Login         frontend/src/machines/loginMachine.ts
--   Logout        frontend/src/machines/logoutMachine.ts, with the browser that it clears
--   Registration  frontend/src/machines/registrationMachine.ts and the requests of lib/authClient.ts
--   CourseBuilder frontend/src/machines/courseBuilderMachine.ts
--   CourseGeneration  frontend/src/machines/courseGenerationMachine.ts; its placeholder actors answer
--                 by events, and its percents are in hundredths
--   InvitationAccept  frontend/src/machines/invitationAcceptMachine.ts
--   InvitedUser   frontend/src/machines/invitedUserMachine.ts
--   ComponentEditing, Sme  frontend/src/machines/{componentEditing,sme}Machine.ts, whose actors answer
--                 by events too
--   CourseStorage frontend/src/lib/storage/courseStorage.ts: its folders, and in Storage, Index,
--                 Indexed and Listing the courses with the library index, in Hierarchy the tree of
--                 folders, and in Exports the recent courses, the folders and the export
--   RedisCache    frontend/src/lib/cache/redisCache.ts: both caches and their locks, over a client
--   CachedStorage frontend/src/lib/storage/cachedStorageAdapter.ts: a storage behind any cache
--   Content       frontend/src/lib/contentTransform.ts, with the types of schemas/course.schema.ts
--   Routes        frontend/src/lib/auth.config.ts and frontend/src/middleware.ts
--   Kratos        frontend/src/lib/kratos/client.ts, the client of the identity service
--   NotificationStream  frontend/src/hooks/useNotificationStream.ts
--   AuthContext   frontend/src/contexts/AuthContext.tsx
--   StorageAdapters  frontend/src/lib/storage/{storageAdapter,s3Storage}.ts: the adapters of the files
--   UiStore       frontend/src/store/zustand/index.ts
--   CourseEditor  frontend/src/components/course/CourseEditor.tsx with
--                 frontend/src/store/zustand/courseEditorStore.ts, and of hooks/useCourses.ts the blocks
--                 that a save sends
--   SignupWizard  frontend/src/components/auth/signup: the wizard with its forms, the hook and the
--                 step schemas of frontend/src/lib/proto/validators.ts
--
-- Where parts meet: Kratos/LoginPage runs the login machine with the client's getFlow as its actor,
-- and Kratos/Validation compares the credentials that the client sends with those that the
-- middleware finds. SignupWizard runs the registration machine with the events that its forms send.
-- AuthContext runs over a client. CourseStorage uses any adapter whose files are apart (IsApart);
-- StorageAdapters/Courses fills this with the S3 adapter. CachedStorage is an adapter over a cache with
-- the laws IsCache, which RedisCache fills.
--
-- The larger machines have their data, guards and actors in a child module Data.
--
-- A machine is a state and a context in one record. Its function `step` takes a snapshot and an event
-- to the next snapshot and the effects (requests and telemetry) in their order: the handler of the
-- state, then the entry actions of the new state and its transient transitions, as XState runs them.
-- An event that no handler takes changes nothing. An invoked promise is a call at the event
-- `settled` or `flow_settled`: the service is a parameter, a function of the time and the request,
-- so every order of answers and user events is a list of events. Where the actors are placeholders
-- that the component provides, their answers come with the events. A state of a chart with children is
-- its leaf; `crashed` is the state of a machine that XState stopped since the input of an invoke read
-- a field of null. Each event carries the time of Date.now, a natural number; no order of the times is
-- assumed. A run is a list of events.
--
-- Functions that may throw return Option where the error is not looked at, and Outcome where it is.
-- Numbers that the code uses as counters, orders and times are natural numbers. The hash of an etag is
-- written modulo 2 ^ 32; no other function wraps. The order of a generated lesson and the progress of a
-- job are int32 that are taken not to be negative. The recursions are structural, but for the digits of
-- a number (of an unknown component type, and in base 36), whose fuel is the number and one more, no
-- fewer than its digits; for the attempts at a lock, of which the code makes three; and for the folders
-- of CourseStorage: the source follows their parents without a test for circles, so the search and the
-- path have fuel, and the theorems say how much is enough where the parents run in no circle.
--
-- The network of Kratos is a parameter: for each request the milliseconds after which its headers and
-- its body come, if they come, so that timeouts are comparisons. In AuthContext and CourseEditor the
-- calls under way are lists in the state, which events answer; in NotificationStream streams and timers
-- have numbers, and an event of one that is not there does nothing. The store of the adapters is a
-- state that each operation takes and returns. An operation of CourseStorage writes the index at one
-- time, the `saved_at` of its defaults.
--
-- Not modelled: the other React components, pages and hooks, which render and call services; the tables
-- of frontend/src/lib/proto/display.ts; the RPC clients; generated protobuf code but for the
-- message shapes; the backend in Go; deployment. JSON.parse, the checks of Zod, fetch, Kratos behind it, the auth service,
-- the Redis client, the S3 client and the file system of Node are parameters: RedisCache.Client states
-- as the record IsRedis what Redis documents of its commands, and RedisCache.Laws as the record IsCache
-- what the adapter needs of a cache, with its instance for the Redis cache in RedisCache.Working.
pub mod Prelude
pub mod Shared
pub mod Login
pub mod Logout
pub mod Registration
pub mod InvitationAccept
pub mod InvitedUser
pub mod CourseBuilder
pub mod CourseGeneration
pub mod ComponentEditing
pub mod Sme
pub mod CourseStorage
pub mod Content
pub mod Routes
pub mod RedisCache
pub mod CachedStorage
pub mod Kratos
pub mod NotificationStream
pub mod AuthContext
pub mod StorageAdapters
pub mod UiStore
pub mod CourseEditor
pub mod SignupWizard
