-- ===== src/Lib.antt =====
-- Models and proofs for the Go API service of the language-learning application (services/api).
--
-- A learner's session is made in steps. The session generator selects skills by the state of the
-- FSRS memory model, gives each place of the session a role and matches content to it; the session
-- composer orders the content that the content selector has chosen into an arc of roles, adapts the
-- rest of a running session to the learner's answers and trims it to the time budget; each answer
-- updates the skill's memory state and the experience points. A placement test gives the first
-- level. Around the engine stand the handlers for registration and login with account lockout and
-- token rotation, the handlers for sessions, the placement test and the learner's profile over the
-- tables of the database, the gateway with its authentication and rate limiter, the table of streaks,
-- an in-memory message broker, and a server for development that keeps everything in memory.
--
-- Files, with the code that they model (paths from the repository's root):
--   Shared          Go's tests, slices and maps: tests into Bool, lists, functions for maps, integers
--   Platform        float64 and sort.Slice as records of operations, with the laws that proofs use
--   Model           services/api/internal/model: skill states, content, results, session items
--   Engine.Data     the records that content_selector.go and session_composer.go exchange
--   Engine.Composer services/api/internal/engine/session_composer.go: Template (buildTemplate and its
--                   three templates), Place (placeItems, ComposeSession), Adapt (EvaluateAdaptation),
--                   Budget (EnforceTimeBudget)
--   Engine.Fsrs     services/api/internal/engine/fsrs.go: GradeFromResult, UpdateSkillState
--   Engine.Xp       services/api/internal/engine/xp.go
--   Engine.Session  services/api/internal/engine/session.go: Select (SelectSkills), Roles
--                   (AssignRoles), Build (MatchContent, BuildSession), Placement
--                   (DeterminePlacementLevel, and the cap in handler/placement.go)
--   Engine.Selector services/api/internal/engine/content_selector.go: Pool (filterContent,
--                   fallbackContent, the levels and estimates), Pick (pickContent, addSelection),
--                   Phases (selectWithConstraints), Variety (enforceVariety), Generate
--                   (GenerateContentSet), Sessions (ComposeSession on its result), Stats
--                   (CalculateStats)
--   Auth            services/api/internal/auth/auth.go: Lockout (LockoutManager), Tokens
--                   (RotateRefreshToken with MemoryTokenStore), Jwt (the claims and ValidateToken),
--                   Oauth (ExchangeOAuthCode)
--   Middleware      services/api/internal/middleware: RateLimit (ratelimit.go), Http (JWTAuth and
--                   RequireRole of auth.go)
--   Gateway         services/api/internal/gateway/gateway.go: NewRouter
--   Handler.Auth    services/api/internal/handler/auth.go: Register, Login and Refresh, with
--                   services/api/internal/store/user.go as a list of users
--   Handler.Sessions services/api/internal/handler/session.go: the routes under /sessions, Submit and
--                   Complete among them, Generate
--   Handler.Placement services/api/internal/handler/placement.go
--   Handler.Learners services/api/internal/handler: profile.go, skills.go, stats.go
--   Store.Database  the tables of services/api/migrations and what a statement of SQL does to them
--   Store.Sessions, Store.Skills, Store.Content, Store.Profiles
--                   services/api/internal/store: session.go and session_item.go,
--                   skill.go, content.go, profile.go
--   Store.Streak    services/api/internal/store/streak.go: RecordActivity, Get and UpdateLevel
--   Event.Broker    services/api/internal/event/broker.go: Broker, with Consumer (RunConsumer) and
--                   Queue (the queue that a partition is for a consumer group) and Lost (offsets
--                   of a group that reads several topics)
--   Event.Activity  services/api/internal/event/event.go: ActivityEvent
--   Devserver       services/api/cmd/devserver/main.go: Accounts (sign-up, sign-in), Learners,
--                   Sessions (sessions, their answers and XP)
--   Tests           concrete inputs, with decimals for float64 and insertion sort for sort.Slice
--
-- How state is modelled: a function that changes an object takes it and returns it; a Go map is a
-- function to Option or to the zero value; an index out of range is `none` of an Option or the outcome
-- `panic`. Clock readings, random numbers and new IDs are arguments. Methods run one after the
-- other: the steps of two methods do not interleave, also where a method releases its lock on the way,
-- as Publish and Consume do.
--
-- Loops are structural except four. RunConsumer, which ends when a channel is closed, runs for any
-- given number of turns. EnforceTimeBudget runs on fuel bounded by the number of items and of those
-- that can still be shortened, which every turn lowers. LevelFromXP runs on as many turns as there
-- are points, and one more; that suffices where the threshold of a level is at least the level. The
-- loop over a partition in ConsumeAll runs for as many turns as the partition has records.
--
-- The database: a table is a list of rows, a query a function of the tables, and whether a statement
-- fails is a parameter that is asked before each of them. The order of rows that ORDER BY leaves
-- open, collation and the rounding of NUMERIC and TIMESTAMPTZ columns are parameters as well.
--
-- Not modelled: the handlers for teachers, the stand-in of services/api/internal/database, content
-- search, the onboarding data, the client of the ML service, configuration, seed data, the executables
-- other than the server for development, and the other languages' code (input and output, or calls
-- of libraries). JSON, JWT, bcrypt and chi are parameters; CORS and the limit on request bodies are
-- left out, and so are the broker's channels beyond what Publish sends, and fields, logs and reason
-- texts that nothing modelled reads.
pub mod Shared
pub mod Platform
pub mod Model
pub mod Engine
pub mod Auth
pub mod Event
pub mod Gateway
pub mod Handler
pub mod Middleware
pub mod Store
pub mod Devserver
pub mod Tests
