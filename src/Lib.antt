-- ===== src/Lib.antt =====
-- The backend of a live quiz for schools: a host opens a room, up to fifteen players join it over
-- WebSockets, each answers the same list of questions at its own pace, and a leaderboard ranks them.
-- This library models the parts of the backend that decide what a player scores, when a room starts,
-- moves on and ends, what the tables keep of it, and who may do what over HTTP and WebSockets.
--
-- Parts and files (paths of the program are from the repository's root):
--
--   Game/Scoring      api/internal/game/scoring.go: Score, speedFactor, questionLimit, readingGrace.
--   Game/Selector     api/internal/game/selector.go: SelectQuestions and its tables.
--   Rank              api/internal/rank/rank.go: Standing, Key and Order.
--   Store/Types       api/internal/store/store.go and gameplay.go: the values that rooms exchange
--                     with the store, and its errors.
--   Store/Database    api/internal/store/queries/models.go, rooms.sql.go, players.sql.go and
--                     schools.sql.go: the tables, and the statements as functions on them. Those of
--                     answers.sql.go, hosts.sql.go and questions.sql.go stand with their callers.
--   Store/Rooms       api/internal/store/store.go: CreateRoom and JoinRoom.
--   Store/Progress    api/internal/store/gameplay.go, SaveResult, and store.go, PlayersOfRoom.
--   Store/Hosts       api/internal/store/store.go: HostByEmail, TouchHostLogin, CreateHost, RoomByPIN,
--                     RoomByID and PlayerCount.
--   Store/Questions   api/internal/store/gameplay.go, QuestionsByIDs, and store.go, QuestionPool.
--   Store/Marks       api/internal/store/store.go: MarkRoomStarted, MarkRoomEnded and DeletePlayer.
--   Store/Results     api/internal/store/results.go: RoomResults, with its statement.
--   Store/Capacity, Store/Seats, Store/Refusals, Store/Created, Store/Loaded, Store/Restored,
--   Store/Reloaded, Store/Ranked
--                     what these keep and return, by the lemmas on new rows of Store/Rows.
--   Game/State        api/internal/game/room.go: the fields of Room and playerState, the messages,
--                     the connections, and what a room calls.
--   Game/Board        api/internal/game/play.go: the standings, the throttled leaderboard, and its
--                     copy in the sorted set of Redis.
--   Game/Session      api/internal/game/room.go: startSession, endSession, podium, closeAll, and
--                     endIfAllFinished of play.go.
--   Game/Play         api/internal/game/play.go: nextQuestion, serve, answer, outcomeOf, resolve and
--                     settleExpired.
--   Game/Room         api/internal/game/room.go: newRoom, the attach, detach, join and kick handlers,
--                     the commands as events, and the loop.
--   Game/Registry     api/internal/game/registry.go: Get, AddPlayer, spawn and forget.
--   Game/Players      laws of the map of players.
--   Game/Invariant    the invariants of a room, and that every event keeps them.
--   Game/Effects      what an answer does to its player, and what the standings show.
--   Game/Protocol     an abstract session, its steps, and that the handlers and the loop refine it.
--   Auth              api/internal/auth/tokens.go: the tokens of hosts and players.
--   Config            api/internal/config/config.go: Load and what it reads from the environment.
--   Http/Requests     api/internal/http: requests and responses, validation, CSV cells, CORS.
--   Http/Api, Http/Handlers, Http/Hosting, Http/Routes
--                     api/internal/http/api.go, handlers.go, results.go and middleware.go: what the
--                     handlers use, the handlers, the guard of hosts, and the routes.
--   Http/Live         the registry of Game/Registry as the RoomRegistry of the handlers.
--   Http/Validation, Http/Joining, Http/Created, Http/Access, Http/Login
--                     the laws of the routes.
--   Ratelimit         api/internal/ratelimit/limiter.go: Allow and its counters.
--   Ws                api/internal/ws/client.go: Send, Close, writePump and dispatch of a connection,
--                     and in Ws/Handler api/internal/ws/handler.go: from a request to a connection.
--   Seed              api/internal/seed/questions.go: ValidateQuestions and ValidateBankSize.
--   Shared            numbers, lists, tests and `Float64`, shared by the parts.
--   Tests             runs of the code, and the theorems at concrete inputs.
--
-- How the parts interact: the loop of a room takes one event at a time (a command of a client, a join,
-- a kick, a timer), so that a handler is a function from a Room to a Room. A handler that reads the
-- clock, calls the store or the Redis board, or shuffles options does so through `Deps`, whose
-- operations take and return a state `World` of which the library assumes nothing. What the room sends
-- to its connections, and the timers it sets, are the entries of the field `log`, the latest first.
-- The map of players is a list of players with distinct ids, beside the field `order`; a Go pointer to
-- a player is its id, and a handler writes the player back where the code assigns its fields.
--
-- A transaction of the store is a function on the tables. `Faults` says which of its calls fail, and a
-- commit whose error hides a stored change is a case of it. PostgreSQL's locks make the transactions of
-- one kind follow one another, so that a sequence of calls is all there is to model.
--
-- Numbers: a point in time or a duration is a number of nanoseconds, scores and counters are natural
-- numbers, and a time that the code may compute as negative is an integer of Shared/Int. The code's
-- `int` has 64 bits, and the values of a session stay far below 2 ^ 63. `float64` is the parameter
-- `Float64` of Shared/Floats, with the laws of IEEE 754 that the code relies on; Shared/Tenths is an
-- instance of them. No definition runs on fuel: each is by
-- recursion on a list, and the attempts at a PIN on the number of attempts left, as in the code.
--
-- A REST handler is a function of the request, of how its calls end (`Calls`: the time, the failures,
-- the ids that the database gives), and of the server's state: the tables, the live rooms and the join
-- limiter. A host is the bearer of a token that Auth reads back. The
-- live rooms are the interface RoomRegistry, as in the source; Game/Registry implements it.
-- A call of the registry holds its lock for one move, so that callers that run at the same time are a
-- list of moves. A room in the registry is the address and the arguments of newRoom.
--
-- Not modelled: JSON, HTTP, SQL, Redis, bcrypt and JWT themselves, which are libraries and services;
-- the search of schools, the leaderboard of schools, the read pump of a socket, logs and the recovery of panics, and the commands; the
-- delivery of events over Go channels, which the model takes as a list of events in the order of their
-- arrival. The collation of the database is a parameter of Http/Api.
-- Regular expressions, trimming and JSON decoding are parameters (Texts in Seed and in
-- Http/Requests, Json in Ws/Commands, QuestionJson in Store/Questions), and so is the JWT library (Jwt
-- in Auth).
pub mod Auth
pub mod Config
pub mod Game
pub mod Http
pub mod Rank
pub mod Ratelimit
pub mod Seed
pub mod Shared
pub mod Store
pub mod Tests
pub mod Ws
