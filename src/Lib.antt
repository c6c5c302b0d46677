-- ===== src/Lib.antt =====
-- The core of the QQ assistant: the queue that its agent works on, the scheduler that fires tasks
-- into it, the agent's own loop, the services that outside requests go through, and the QQ
-- transport.
--
-- How the parts interact: producers push items into the todo queue (internal/tool/todo). These are
-- the QQ client for incoming messages (internal/adapter/napcat), the message service for requests
-- of the HTTP API (internal/messaging), the scheduler for tasks that come due
-- (internal/scheduler), and the agent itself, through its tool `todo_list`. The agent (internal/agent/main) polls the queue and runs the model until
-- the queue is empty or it gives up. The model's tools send messages, which the QQ client takes
-- into its outgoing queue. The tagging service (internal/tagging, internal/agent/tagger) is
-- independent of the queue.
--
-- Which file models what:
--   Prelude: integers with 64-bit wrap-around, texts as lists of code points, strings.TrimSpace, decimal
--     numbers, maps as association lists (Prelude/Table), sorting, and ids made of a prefix and a counter.
--   Todo: internal/tool/todo/store.go (Add, List, Complete, IsEmpty, Len, Version); Todo/Tool:
--     RunTodoList of internal/tool/todo/tool.go.
--   Scheduler/Calendar: what the scheduler uses of package time. Scheduler/Schedule: Next of
--     internal/scheduler/schedule.go. Scheduler/Builder: internal/scheduler/builder.go.
--     Scheduler/Store: internal/scheduler/store.go (AddAt, List, Cancel, due, dispatch, Run, Tick).
--     Scheduler/Tool: RunScheduleTask and buildSchedule of internal/tool/schedule/tool.go.
--   Agent/History, Agent/Prompt, Agent/Loop: internal/agent/main/agent.go and prompt.go.
--   Messaging: internal/messaging (Submit).
--   Napcat/Directory, Napcat/Incoming, Napcat/Client, Napcat/History, Napcat/Lists,
--     Napcat/Startup: internal/adapter/napcat.
--   Tagging, Tagging/Service: internal/agent/tagger and internal/tagging.
--   Qq/Getter, Qq/Sender: internal/tool/qq.
--   Moderator: internal/agent/moderator; Moderator/Command, Moderator/Input:
--     internal/agent/registry.go and cmd/moderator/main.go.
--   Health: internal/health/service.go, and the checks of Run in internal/app/app.go.
--   Http: internal/adapter/http: NewRouter of router.go, TokenAuth of middleware/auth.go, the handlers
--     Send, RegisterSet, Tag and Check, and the bodies of dto.
--   Llm: patchMissingContent of internal/llm/wrapper.go.
--   Config: internal/config/config.go.
--   App: the stores that Run of internal/app/app.go and NewMainAgent share between the parts, and the
--     turns of the parts.
--   App/Pipeline: Run and dispatch of internal/scheduler/store.go, the channel of fired tasks and
--     forwardScheduledFires, in the small steps between which other goroutines come.
--   App/Lifecycle: Run of internal/app/app.go from start to end, NewMainAgent, Start of
--     internal/adapter/http/server.go, and cmd/server/main.go.
--   Clock: internal/tool/time.go, and the layouts of times.
--
-- How state corresponds: a store is a record of its fields, and a method takes the store and
-- returns the new one beside its result, since its lock makes it one step. A Go map is a Table,
-- whose entry order stands for the order in which Go visits the map. A nil pointer or a missing key
-- is none. A context is its Err. time.Now is an argument. A panic is the result none, where the
-- theorems are about panics.
--
-- Bounds and fuel: the loops of Next run 8, 370 or 1500 days, as in the source. A date is found
-- from its day number by a search through at most 400 years of one Gregorian cycle. The drain of
-- the todo queue runs on the fuel 30, and the theorem on its end shows that no runner exceeds it:
-- each of at most six rounds that succeed follows at most four that fail, or five failures end the
-- drain. The loop over the pages of a chat's history runs on the fuel 500, the most messages that
-- it reads: each page that it goes on from has one at least.
--
-- Asia/Shanghai is UTC+8 without daylight saving, as it is since 1992. Parameters stand for what is
-- not the program's code: the runner of the model and its tools, the chat model, the JSON decoder
-- and encoder, the letters and digits of package unicode, the environment, the OneBot API,
-- ZeroBot's message parser, the printing of durations in floating point and of local time.
--
-- Not modelled: tickers, which are given by the sequence of their turns; logging;
-- time.ParseInLocation and gjson, which are parameters; ListenAndServe and Shutdown of net/http, and
-- gin's answer to a request without a route; the options of the chat models and the tools' schemas,
-- which are passed on to the eino library; and the delivery of a signal to the process. The
-- goroutines of the scheduler and of the forwarding are modelled step by step in App/Pipeline; the
-- other parts act in App as if each did so alone.
pub mod Prelude
pub mod Todo
pub mod Scheduler
pub mod Agent
pub mod Messaging
pub mod Napcat
pub mod Tagging
pub mod Qq
pub mod Clock
pub mod Moderator
pub mod Health
pub mod Http
pub mod Llm
pub mod Config
pub mod App
