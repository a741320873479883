-- ===== src/Lib.antt =====
-- The server of the call service (server/app) and its recording agent (agent/agent.py).
--
-- Users sign in (Auth), choose a profile (Profile), wait for a partner with whom they are matched and
-- talk in a room of LiveKit (Waiting, Call); the agent records the room and reports the address of the
-- recording to the server (Agent).
--
-- Files, and the code that they model:
--   Waiting           server/app/domains/call/services/ws_service.py and the web socket
--                     `/ws/waiting` of server/app/domains/call/routes_ws.py
--     State           `waiting_users`, `matching_candidates`, `entered_users`, the profiles in Redis
--                     and the messages sent, as the record `Lobby`
--     Filter          `is_match`
--     Connect         `handle_connect`
--     Receive         `handle_receive_event`
--     Disconnect      `handle_disconnect`
--     Session         `websocket_waiting`: one step per call of a handler, and sequences of steps
--     Tasks           the same handlers one `await` at a time: coroutines with their place and their
--                     local variables
--     Turns           the turns that the event loop gives to coroutines over one lobby
--     Route           `websocket_waiting` from the dependency on the user to its clean-up
--     Matching, Invariant, Preserved, Leaving, Closing, Requeue, Accepting, Blocking, RouteLaws
--                     theorems about whole handlers
--     Steps, LeavingSteps, Interleaved, Races
--                     theorems about interleaved coroutines
--     Reaching, Answering, Departing, Departed, Alone
--                     from coroutines to whole handlers
--   Auth              server/app/domains/auth, server/app/core/security.py and config.py, and
--                     server/app/domains/user/crud.py
--     World           settings, libraries, clocks, the stores
--     Accounts        `RegisterRequest` and crud.py
--     Validation      what pydantic demands of a registration
--     Login           tokens, log-in, refresh, log-out, registration, `get_current_user`
--     Oauth           services/google.py, line.py, kakao.py and naver.py
--     AccountLaws, CurrentUser, Sessions, OauthLaws
--                     theorems about them
--   Call              server/app/domains/call without ws_service.py
--     Rooms           access tokens for rooms, and the calls of LiveKit's room service
--     Queue           `register_for_call_queue` and the web socket `/ws/call`
--     History         the recorded calls: create, list, set the address of the recording
--     QueueLaws, HistoryLaws
--                     theorems about them
--   Profile           server/app/domains/user and server/app/core
--     Locale          `get_locale`
--     Update          `update_user_profile`
--     View            `get_user_profile`, `translate`, the lists of options
--     Upload          `upload_profile_image`
--     Seed            server/init_seed.py
--     UpdateLaws, LocaleLaws, SeedLaws, Seeding
--                     theorems about them
--   Tables            server/app/domains/user/models/interest.py, language.py and gender.py: the rows of
--                     the options and of their translations, with their constraints; IsOption and
--                     IsTranslation say what the three kinds of options have in common
--     Links           the rows that join users with options, as `update_user_profile` replaces them
--     Queries         the joins of services/setup.py on these rows
--     Ordering        `order_by`
--     Planting, Planted
--                     the loops of server/init_seed.py row by row, and the nested options that they
--                     leave
--   Agent             agent/agent.py
--     Egress          `start_egress_with_retry`
--     Waiting         `wait_s3_object_exists`
--     Entrypoint      `entrypoint` and `on_shutdown`
--     EgressLaws, Delays, WaitingLaws, RecordingLaws
--                     theorems about them
--   Routes            the routes.py files of server/app/domains, with the guards of each route
--     Table           the table of the routes that the code declares, as server/app/main.py,
--                     server/app/api/api_v1.py and the routers put it together, and how a router finds
--                     a route in it
--     Laws, Shadowed  theorems about them
--   App               the application as one function: a request is resolved by the router and
--                     answered by the function behind its route, on the one state of the server
--     Stable          the changes of the database and of Redis that the code makes, as an interface: a
--                     property that they keep is kept by every request
--     Kept            the functions behind the routes make no other changes
--     Rows, Sound, Sessions
--                     what it means that the database is sound and what Redis holds, and that these
--                     changes keep it so
--     Recording       the request with which the agent reports a recording
--     Histories, Refreshing, Guards, Reading, Flow
--                     theorems about requests and sequences of requests
--   Migrations        server/alembic/versions: the revisions as lists of operations on a schema
--     Laws            theorems about them
--   Models            the rows of the tables (server/app/domains/user/models, call/models)
--   Dict, Redis, Json, Text, Calendar, Raise, Prelude
--                     dictionaries in insertion order, Redis keys with their expiry, values of
--                     `json.loads`, the operations on texts and dates that the code uses, handlers
--                     that change state and may raise, and shared lemmas
-- A file named Tests holds runs at concrete inputs.
--
-- State is passed explicitly: a handler takes the state and gives its answer or its error and the new
-- state; what was written before an error stays written. In most modules a handler runs to its end
-- before the next one starts. Waiting.Tasks and Waiting.Turns run the handlers of the waiting room one
-- `await` at a time, in any order: the effect that a coroutine awaits is one step, and what it does
-- then, up to its next `await`, is in the same step only where it reads nothing that others change.
-- The loop of `handle_disconnect` over the rooms raises RuntimeError if there are more or fewer rooms
-- after an `await`; a name that is deleted and made anew in between counts as visited. A dictionary is
-- a list of its entries in insertion order, and a set is a list without repetition.
-- Identifiers and times are natural numbers, times in seconds. A key in Redis is gone from the second
-- at which it expires. A web socket is a number, and whether a message can still be sent to it is part
-- of the world at the time of a call.
--
-- Fuel: `str` prints a number n with fuel n + 1, which is enough since each digit divides the number
-- by ten; the poll for the recorded object has one round more than the seconds of the time-out, and
-- each round takes at least two seconds.
--
-- Code outside of the repository is an argument: jose, passlib, email-validator, the answers of
-- LiveKit, S3 and the providers of log-ins. `IsLawful` says what the theorems use of their documentation.
--
-- What FastAPI reads of a request for a handler (bodies, parameters, the bearer token) is an argument,
-- and nothing is read of a request without the form that the handler declares (status 422); only the
-- conditions on the body of a registration are in the code. The
-- application answers one request after the other, a web socket from its opening to its end; the rows
-- of the database and Redis are its state. A web socket for waiting is given the lobby that it finds,
-- any lobby whatever, with the Redis of the server.
--
-- The router of Starlette is an argument, too. `IsRouter` is what a theorem asks of it where it
-- matters, as Starlette documents it: routes are tried in the order in which they were added, and the
-- first whose path and method fit answers, where a parameter takes a text that is not empty. The
-- redirection of a path with a slash at its end, and the pages that FastAPI adds by itself
-- (/openapi.json, /docs, /docs/oauth2-redirect, /redoc), are left out.
--
-- The numbers that the sequences of the options give to a run of init_seed.py are arguments, since
-- deleted rows and failed runs use numbers up. The delays of the agent are fractions; the floats of
-- the code are the same up to the 34th.
--
-- Not modelled: the CORS middleware of main.py, the declarations of db, alembic/env.py, the connection
-- of the agent to its room, and the log lines; a number that does not fit the 32 bits of its column,
-- other than those of a recorded call.
-- The front end and the copy of LiveKit's agents under agent/livekit are no part of this library.
pub mod Prelude
pub mod Dict
pub mod Text
pub mod Raise
pub mod Redis
pub mod Json
pub mod Calendar
pub mod Waiting
pub mod Models
pub mod Auth
pub mod Call
pub mod Profile
pub mod Tables
pub mod Routes
pub mod Migrations
pub mod Agent
pub mod App
