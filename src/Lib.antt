-- ===== src/Lib.antt =====
-- Models of the Nanit bridge: cameras on one side, RTMP, RTSP, MQTT, ONVIF and a web page on the
-- other.
--
-- The program holds one state for each baby. Messages of the camera's websocket become updates of
-- that state; the state manager merges them and hands them to its subscribers, MQTT and the ONVIF
-- event manager. MQTT also carries commands back to the websocket. A REST client with a session on
-- disk fetches babies and event messages, and an RTMP server passes the camera's stream on to its
-- subscribers and to an RTSP server.
--
-- Which file models what:
--   Baby/State          pkg/baby/state.go: `State` with a field for each pointer, `merge` for
--                       Merge (with whether it allocates), `as_map` for AsMap
--   Baby/Manager        pkg/baby/state_manager.go: Update, Subscribe, notifySubscribers, enqueue
--   Baby/Uids           pkg/baby/utils.go: the valid UIDs, SyntheticMAC
--   App/Sensors         pkg/app/websocket_handlers.go: processSensorData, processControl,
--                       processSettings, processStatus
--   App/Messages        pkg/app/app.go: the message handler of runWebsocket
--   App/Streaming       pkg/app/websocket_handlers.go, pkg/app/app.go: requestLocalStreaming, when
--                       runWebsocket asks for the stream, getLocalStreamURL
--   App/Commander       pkg/app/commander.go: HandleMQTTCommand and the commanders by baby
--   Mqtt/Topics         pkg/mqtt/mqtt.go: the topics, and the handler of the command subscription
--   Mqtt/Publisher      pkg/mqtt/mqtt.go: what runMqtt publishes for an update
--   Mqtt/Discovery      pkg/mqtt/discovery.go: the entities announced to Home Assistant
--   Onvif/Events        pkg/onvif/events.go: EventManager with its timers, subscription and drain
--   Onvif/Subscriptions pkg/onvif/events.go: HandleEventsService, HandleSubscription
--   Onvif/Durations     pkg/onvif/events.go: parseISODuration
--   Onvif/Soap          pkg/onvif/helpers.go, pkg/onvif/server.go: FindTagValue, GetRequestAction
--   Onvif/Security      pkg/onvif/handler.go, pkg/onvif/envelope.go: the authentication, and the
--                       header of NewEnvelopeWithUser
--   Onvif/Handler       pkg/onvif/handler.go: NewHandler with its routes, handleSnapshot, stripPort
--   Client/Session      pkg/session/session.go: Store, with the contents of its file
--   Client/Rest         pkg/client/rest.go, pkg/message/message.go: Authorize, RenewSession,
--                       FetchAuthorized, FetchBabies, EnsureBabies, FetchNewMessages
--   Client/Connection   pkg/client/websocket_conn.go: SendRequest, handleResponse, handleMessage
--   Client/Manager      pkg/client/websocket.go: WithReadyConnection, the callbacks of the socket
--   Rtmp/Broadcaster    pkg/rtmpserver/broadcaster.go: deliver as a machine with a schedule
--   Rtmp/Bridge         pkg/rtmpserver/server.go: the publishers by baby, bridgeToRTSP
--   Rtsp/Streams        pkg/rtspserver/server.go: RegisterStream, UnregisterStream, Close, WriteH264,
--                       WriteAAC, GetKeyframe, the locks as steps
--   Rtsp/Paths          pkg/rtspserver/server.go, pkg/rtmpserver/server.go: the UID in a path
--   Utils/Tailer        pkg/utils/tailer.go: the circular buffer of lines
--   Utils/Perseverance  pkg/utils/attempter.go, pkg/utils/number.go: RunWithPerseverance, MinInt
--   Utils/Graceful      pkg/utils/graceful.go: the contexts and what their goroutines do
--   Prelude             what the models share: tests, lists, Go maps, integers, equality, texts
--   Examples            runs on concrete inputs
-- The children of these modules hold the proofs, and are named for what they prove.
--
-- How code becomes definitions. A nil pointer is `none`, an error a constructor, a panic `none` or
-- a constructor of its own. A method that runs under one lock is one step; where a lock is given
-- back in between, or a `select` chooses, the parts are separate steps and the order of the steps
-- is a list; `update`, `subscribe` and `handle_state` put the parts of their methods together, and
-- Baby/Manager/Views lets other goroutines in between those of Update. A Go map is an association
-- list. An int32 is an integer, and the id of a request, which counts up, its 32 bits; a uint64
-- counter wraps at 2^64; times and durations are nanoseconds as natural numbers, or the 64 bits of
-- an int64 where they may overflow. A text that is taken apart is the list of its code points; a
-- regular expression is a function of its own. JSON, HTTP replies, files, hashes, floats and the
-- media packages are parameters.
--
-- Bounds. The queues have the capacity of the channels, 64. The request loop of the REST client
-- takes the attempts that are left as an argument, and the code has two. The retry loop runs over a
-- list of what its rounds meet, so that it needs no fuel; the other loops are structural.
--
-- Not modelled: the generated messages, the XML templates of the ONVIF replies, snapshots, the web
-- page, the timers of event polling, the connection to the MQTT broker, options and logging: for the
-- most part they call libraries.
pub mod Prelude
pub mod Baby
pub mod Client
pub mod Rtmp
pub mod Rtsp
pub mod Utils
pub mod App
pub mod Onvif
pub mod Mqtt
pub mod Examples
