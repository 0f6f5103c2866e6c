-- ===== src/Lib.antt =====
-- The challenge service: players have goals, grouped in challenges, whose rewards they claim. The
-- service reads and writes one row of progress for each player and goal, grants rewards by a remote
-- platform, and answers with JSON that is pre-marshalled from the configuration.
--
-- Parts, and the files that model them:
-- - pkg/mapper/error_mapper.go: Mapper/Errors holds the error values, with `fmt.Errorf`'s wrapping,
--   Mapper/Text their texts, and Mapper/Status holds MapErrorToGRPCStatus.
-- - pkg/mapper/challenge_mapper.go: Mapper/Proto, with its object pools as a state. The messages of
--   pkg/pb/service.pb.go are Pb.
-- - pkg/service/claim.go: Service/Claim is ClaimGoalReward, cut where its state changes: the
--   validation, the transaction with its deferred functions, the checks of the locked row, and the
--   grant, mark and commit. Service/Retry is grantRewardWithRetry.
-- - pkg/service/prerequisite_checker.go and the progress map of pkg/service/progress_query.go:
--   Service/Prerequisites. The queries themselves are Service/ProgressQuery.
-- - pkg/service/goal_selection.go: Service/Selection has the part from the progress read on, which
--   RandomSelectGoals and BatchSelectGoals hold alike; Service/Selection/Requests has the two
--   functions with their validation; Service/Available is the filter, Service/Sample the shuffle.
-- - pkg/service/set_goal_active.go: Service/SetGoalActive. pkg/service/initialize.go:
--   Service/Initialize.
-- - pkg/response/json_injector.go: Response/Escape, Response/Fields and Response/Inject, on bytes;
--   Response/Bytes holds the functions of the `bytes` and `strconv` packages that they use.
-- - pkg/client/ags_reward_client.go: Client. Its retries run inside those of Service/Retry.
-- - pkg/response/builder.go: Response/Builder, over the cache and the injector.
-- - pkg/cache/serialized_challenge_cache.go: Cache, three maps filled with a marshaller's answers.
-- - pkg/server/challenge_service_server.go: Server holds what the RPC handlers share; Server/Challenges,
--   Server/Players, Server/Selections, Server/Claims and Server/Rotation are the handlers, which call
--   the functions of pkg/service, and Server/Convert their conversions.
-- - pkg/common/authServerInterceptor.go: Auth has the decoding of claims, Auth/Interceptor the two
--   interceptors, which run before a handler of Server and tell it the user.
-- - pkg/handler: Http has the users of requests, Http/Challenges and Http/Initialize the two handlers
--   that answer without the RPC layer.
-- - pkg/common/buffer_pool.go and pkg/common/sonic_marshaler.go: Gateway, the pool of buffers and the
--   encoder that the gateway answers with.
-- - pkg/pb/service.pb.gw.go and the server's side of pkg/pb/service_grpc.pb.go: Gateway/Requests makes a
--   message of an HTTP request, and Gateway/Endpoints are the handlers of the gateway's mux, over the
--   interceptor of Auth and the handlers of Server.
-- - main.go: Startup/Routes has the paths that the HTTP server serves, below the base path of
--   pkg/common/utils.go; pkg/common/gateway.go strips it.
-- - main.go: Startup is the loop that converts the configured challenges and fills the cache with them,
--   from which Http/Challenges answers.
-- - main.go: Startup/Main is the start of the program, with the settings of Startup/Environment;
--   Startup/Migrations is pkg/migrations/runner.go. Startup/Main/Guarded puts the start before the
--   interceptor and the HTTP handlers.
-- - pkg/client/noop_reward_client.go: Client/Noop, which the program does not use.
-- - Service/Retry/Nested puts the client of pkg/client into the retries of a claim. Http/Shown compares
--   what the HTTP handler and the RPC show of a goal.
-- - Service/History puts the operations of pkg/service in a sequence, for what holds of all of them.
--
-- The modules below each of these, such as Service/Claim/Success, hold the proofs about it. Base
-- holds the shared names and lemmas, Domain the records of the shared `domain` package and the
-- interfaces of its rules and goal cache, Tests the concrete runs.
--
-- Calls that leave the service are events of a trace (Service/Effects), newest first. What a call
-- answers is any function of the trace, its own event at the head: so the repository, the reward
-- client, the clock, `crypto/rand`, a cancelled wait and the order in which `range` visits a map
-- may change from call to call, and a theorem holds for each choice of them. Where the source reads
-- the clock again for each goal, with no call between, each reading is one of its own (`later`). A
-- function ends with a value, with an error, or with a panic. An error carries whether the
-- function's own variable `err` is set, which the deferred rollback of ClaimGoalReward reads. A nil
-- pointer or interface is `none`. The methods of UserGoalProgress and the functions of the rotation
-- package are fields of `Rules`; the row that a rotation changes in place is its second answer.
--
-- Bounds: times are whole seconds and delays milliseconds, as native numbers; the seconds until a
-- time are cut off at 0 in the source too, and a count that goals are subtracted from includes
-- them. Times carry no zone: that two pieces of code print a time alike, one in UTC and one in the
-- zone that the time carries, is a hypothesis where it is used, and holds for times in UTC. Go's
-- `int` is Base/Int's ℤ. The two retry loops recurse on the attempts that are left, four at first,
-- and the shuffle on its rounds; the printing of a number recurses on the number itself, which has
-- no more digits than that. Every other loop is recursion on a list.
--
-- An `int32` keeps the low 32 bits (Base/Int32); what a float that does not fit one is converted to is
-- the machine's choice, and a parameter.
--
-- Not modelled: log calls, the sizes that builders reserve, the locks of the cache (a method is one
-- step), the gateway's own mux, its header matcher and the text of its error replies, the handlers of
-- RegisterServiceHandlerServer, which are not registered, tracing and logging glue, the page of the
-- API's description, and of main.go the set-up of logging and metrics, the failures of servers that
-- have started, and the shutdown. The accessors and descriptors of the generated messages, the encoders
-- of JSON and protobuf, gRPC's transport and SDK calls stay outside. A path is text with no escapes, and
-- the mux's `cleanPath` is an argument. A handler's reply is what it returns: gRPC marshals it later,
-- so no handler puts an object back into its pool.
pub mod Base
pub mod Domain
pub mod Pb
pub mod Mapper
pub mod Cache
pub mod Client
pub mod Response
pub mod Service
pub mod Server
pub mod Auth
pub mod Http
pub mod Gateway
pub mod Startup
pub mod Tests
