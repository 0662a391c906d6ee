-- ===== src/Lib.antt =====
-- EduLearn notification service: a model of the Go program, and the theorems about it.
--
-- The service takes events from Kafka, keeps notifications and one-time passwords, sends mails and
-- shows notifications to the users who are connected by WebSocket. A gRPC server behind a chain of
-- interceptors answers the other services, which ask for passwords, verify them and read notifications. A message of Kafka goes through the
-- consumer (retries, workers) to the handler of its topic; the handler checks that the event was not
-- processed, stores a notification or a password, sends a mail or hands a message to the hub, and
-- marks the event. The hub keeps the connections of each user and delivers messages to them. Requests
-- verify one-time passwords; a success is published as an event.
--
-- Which file models which part (paths from the root of the repository):
-- - Errors: internal/domain/errors/errors.go, and the error values of Go. Effect: calls that act on
--   the outside world, as functions of a state `W` that return a result and the next state.
-- - Otp, Otp/Code: internal/domain/entities/otp.go (NewOTP, Verify, GenerateOTP).
-- - Notification, Notification/Validity: internal/domain/entities/notification.go and message.go.
-- - Events, Events/Validity: internal/domain/events (the payloads and their Validate).
-- - Ports: internal/application/ports and internal/domain/repositories, the interfaces, as records of
--   operations. Each interface that a theorem rests on has a record of laws beside its implementation:
--   Redis/Laws (the cache), OtpStore/Laws (the passwords), NotificationStore/Processed (the processed
--   events), NotificationStore/Created (a row that is created), RateLimit/Laws (the counters and their
--   expiry).
-- - Redis: internal/infrastructure/redis/redis_client.go (RedisCache) over the client of go-redis.
-- - OtpStore: internal/infrastructure/redis/otp_repository.go (SaveOTP, GetOTP, DeleteOTP).
-- - RateLimit, RateLimit/Window: internal/infrastructure/ratelimit/retelimit.go (Allow, Reset).
-- - NotificationStore and below: internal/infrastructure/database/gorm (the notification repository:
--   a table behind caches). Reads, Writes and Stale say what a read finds after which writes.
-- - EmailOtp, EmailOtp/Verification, EmailOtp/Sent: internal/application/services/email_otp_service.go and
--   forgot_password_service.go (SendOTP, VerifyOTP, Send).
-- - Handlers and below: internal/application/events, the four handlers. Handlers/Display: how the
--   in-app handler shows a notification. Handlers/Once: an event that comes again.
-- - Hub and below: internal/interfaces/websocket/hub.go. Hub/Groups: the map of the connections.
--   Hub/Invariant: what every handler keeps. Hub/Delivery: a broadcast. Hub/Stale: the periodic check,
--   with the readers that end while it runs.
--   Hub/Shutdown. Hub/Pumps: the goroutines of one connection and the handler that accepts it.
--   Hub/Loop: all of these goroutines as a step relation; Hub/Quiet and Hub/Live: what a step keeps;
--   Hub/Private and Hub/Private/Wires: for whom the texts in the channels and on the sockets are.
-- - Hub/Auth: internal/interfaces/websocket/auth.go (Authenticate), over the JWT library. Hub/Auth/Connect:
--   Authenticate in front of ServeWS.
-- - Kafka and below: internal/infrastructure/kafka. Kafka/Consumer: registration, topics and retries
--   of consumer.go; Kafka/Consumer/Pipeline: the channel between claims and workers as a step
--   relation; Kafka/Consumer/Lifecycle: the consume loop, Close and HealthCheck; Kafka/Broker: broker.go,
--   the publications and their counters; Kafka/Producer: producer.go, with the retries and subscriptions.
-- - Sending, Sending/Twice: internal/application/services/notification_service.go (CreateAndQueue) and
--   internal/infrastructure/notification (the dispatch and the strategies). Sending/Message: the message
--   that the in-app strategy builds. Sending/Service: the rest of
--   notification_service.go, which the gRPC handler calls.
-- - Smtp: internal/infrastructure/email/email_sender.go, its configuration and the monad of its state, the
--   pool and the metrics. Smtp/Pool: Get, Put and Close of the pool of connections; Smtp/Sender: Send with
--   its retries and its time limit, over a schedule that says when an attempt is late and what the other
--   sends do meanwhile. Smtp/Sender/Traffic: the sends beside each other, the late ones too, as a step
--   relation. Smtp/Pool/Opened, Smtp/Pool/Keeps, Smtp/Sender/Transmit and Smtp/Sender/Keeps: what they keep.
-- - Grpc: internal/interfaces/grpc/handler.go, every call of the service. Grpc/Otp and Grpc/Notifications:
--   the calls over the password service and over the notification repository.
-- - Grpc/Middleware: internal/interfaces/grpc/middleware.go, the interceptors and their chain.
-- - Template: internal/infrastructure/template/renderer.go (Render) over the cache.
-- - Config: internal/infrastructure/config/config.go (LoadConfig and its validations).
-- - Health: internal/infrastructure/health/health.go (the probes and their answers).
-- - Utils, Utils/Search, Utils/Masks: pkg/utils/generate_uuid.go (the helpers on texts).
-- - ServiceErrors: internal/infrastructure/errors/errors.go (the constructors, FromError, ToGRPCStatus,
--   fromGRPCStatus).
-- - Tests: concrete servers, stores and inputs, on which the theorems are applied.
--
-- How the code is read. A struct is a record, a call that changes state a function from the state to the
-- next state, a Go error a value of `Result`. Times and durations are nanoseconds in ℕ, times since the
-- zero time of Go; a request reads the clock once. Texts are the native strings. What is not in the
-- repository is a parameter with named laws: Redis, the database behind gorm, sarama, the mail server,
-- the templates, random draws, identifiers, JSON. The loops are structural recursion: GenerateOTP over
-- its six places, executeHandler over the attempts that are left, so no fuel is chosen; only `decimal`,
-- the printing of a number, runs on fuel, one more than the number itself, and a number has fewer digits.
-- A panic and a wait on a full channel are outcomes of their own in the hub, and a step of their own in
-- the pipeline. The goroutines of the hub act through its event loop one event at a time; Hub/Loop
-- interleaves their rounds freely, except the shutdown.
--
-- Not modelled: log, metric and tracing calls; contexts and their deadlines, but for the time limit of a
-- mail; the wiring and the start of the process (internal/bootstrap, cmd); the rounding
-- of floating point; the messages of protobuf, but for the fields that the handler uses; generated code.
pub mod Config
pub mod Effect
pub mod EmailOtp
pub mod Errors
pub mod Events
pub mod Grpc
pub mod Handlers
pub mod Health
pub mod Hub
pub mod Kafka
pub mod Notification
pub mod NotificationStore
pub mod Otp
pub mod OtpStore
pub mod Ports
pub mod Prelude
pub mod RateLimit
pub mod Redis
pub mod Sending
pub mod ServiceErrors
pub mod Smtp
pub mod Template
pub mod Tests
pub mod Utils
