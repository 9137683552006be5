-- ===== src/Lib.antt =====
-- Verification of the DePIN client service.
--
-- The service lets users register monitors for URLs, assigns their checks to runner nodes, and sends
-- Telegram alerts when a URL goes down or comes back. Alerts cost credits: three free ones a day, then
-- purchased ones. Purchases and node stakes are paid on Solana and verified against the chain.
--
-- How the parts interact: the queue consumer takes batches of check results and hands each to the
-- alert service, which keeps a health state per monitor and, at a change of state, finds the owner's
-- chat, takes a credit and sends the message. The linking of accounts provides the chat. The two
-- purchase services and the node service verify a payment with the Solana client and record its
-- signature, so that it pays once. The monitor service stores the monitors, drops the cached list of
-- the active ones and arms the scheduler. The node service stores the nodes and feeds the in-memory
-- registry, from which the scheduler takes the nodes that are online. A request reaches these services
-- through the table of the routes, the JWT middleware and the handlers, a message or a button of the chat
-- through the bot's guard; the bot and the statistics read the ping logs, which other programs write.
-- The start declares the queues, binds them to the exchange of the updates, and hands the same updates to
-- the consumer and to the hub.
--
-- Which module models which file:
--   Base: integers over the native numbers, tables as lists with the SQL statements on them, sorting.
--   World: the tables, the Redis keys and the sent messages (World.Tables); outcomes, errors and
--     failing calls (World.Calls).
--   Credits: db/telegram.sql (deduct_telegram_credit, add_purchased_credits), the credit queries of
--     db/repositories/telegram_repo.go, GetCreditStatus of services/telegram_service.go.
--   Health: the health states, subscriptions and chats of db/repositories/telegram_repo.go.
--   Alert: services/alert_service.go; Alert.Machine is its Two-Packet rule, Alert.Process the stored
--     states, Alert.Dispatch the delivery.
--   Consumer: services/consumer_service.go from the delivery on: handleDelivery,
--     extractMonitorIDFromJobID and the loop of Start.
--   Solana: GetTransferInfo, GetTransactionStatus and DeriveNodePDA of solana/solana_client.go.
--   Payments: db/repositories/tx_repo.go, AddMonitorPurchasedCredits of db/repositories/user.go and of
--     services/user_service.go, AddPurchasedCredits of services/telegram_service.go.
--   Telegram: the accounts of db/repositories/telegram_repo.go; Telegram.Service is the linking and
--     toggling of services/telegram_service.go.
--   Registry: services/registry.go.
--   Users: db/repositories/user.go, registration, login and tokens of services/user_service.go.
--   Runner: db/repositories/noderunner_repo.go; Runner.Nodes is services/noderunner_service.go and
--     what the handlers of controllers/noderunner.go do after the decoding.
--   Monitors: db/repositories/monitor_repo.go, services/monitor_service.go.
--   PingLogs: db/repositories/pingLogs.go, and the summaries of db/repositories/telegram_repo.go;
--     Monitors.Stats is Stats of services/monitor_service.go.
--   Bot: the guard, /start, /help and /verify of bot/bot.go; Bot.Handlers the other commands, the
--     callbacks and the table of the handlers.
--   Http: the requests and replies, dto; Controllers: the handlers of controllers, a file for each of
--     user.go with transaction.go and ping.go (Account), telegram.go (Linking), monitor.go (Monitoring)
--     and noderunner.go (Nodes).
--   Router: the JWT middleware of router/middleware.go, pkg/contextutils/keys.go; Router.Routes is the
--     table of router/router.go with the dispatch of a request.
--   Hub: ws/hub.go, with the sends of ws/bridge.go, as a step relation; Hub.Connections adds the
--     goroutines of ServeWs. This part has a state of its own and no world.
--   Env: loadConfig of config/env/env.go; Env.Once is Load and Get.
--   App: New of app/application.go with the queues of services/consumer_service.go and ws/bridge.go,
--     over a state of the broker; App.Process is Run, shutdown and main.go, App.Origin the CORS rule.
--   Keeping: what a computation keeps, with a rule for each way to build one, which the ruleset
--     keeps_rules hands to `search`.
--   Invariant: the invariant of the tables, kept by the statements on the credits and payments
--     (Invariant.Balances, Invariant.Ledger), the links, monitors, services and alerts, by the handlers
--     (Invariant.Handlers), all routes (Invariant.Requests) and all commands of the bot (Invariant.Chats).
--   System: the service that Run of app/application.go starts, as a sequence of requests, updates of the
--     bot, deliveries of the queue and ticks of the registry. Its children follow the tables
--     (System.Reachable), payments (System.Once), credits (System.Ledger), the health states
--     (System.History), the alerts (System.Alerts, System.Outages) and the chats (System.Chats) through
--     any such sequence; System.Strangers is what an update of a sender without an account does. The hub and the scheduler, which no request calls, stand outside of it.
--   Tests: sample data, and each result at a concrete input.
-- A function has the name of the Go function in lower case, with the prefix `repo_` where a service's
-- function has the same name as the repository's.
--
-- Conventions. A handler is a function of the world, which is the whole state that it reads and
-- writes. Each call to PostgreSQL, Redis or Telegram takes one element of the world's `faults`, and
-- fails if that is `true`; a failing call changes nothing, and a cancelled context, a lost connection
-- or an id that PostgreSQL refuses as a UUID is such a failure. `calm w` is `w` with no failure to
-- come. One handler runs at one moment and no other runs meanwhile, but the order of handlers is free.
-- A panic is an outcome of its own. Every loop is over a list, so the model needs no fuel. SQL INT,
-- int64 and uint64 keep their ranges where the code depends on them (purchased credits, amounts of
-- tokens); the consecutive failures, the balance of monitor credits and the stake do not reach theirs.
-- A binding that the broker has is not made again, and neither is a queue or an exchange that is declared.
-- Rows of a table stand in the order in which a query without ORDER BY meets them. A Go `int` that
-- holds an id is a number.
--
-- Not modelled: the decoding and encoding of JSON, the CORS library around the routes (its rule for
-- origins is), the cleaning of paths by http.ServeMux, the long polling of the bot, the script
-- scripts/tx_check.go, a token balance in the chain's reply without an owner or an amount, the Solana program (program), the stored function of AccumulateReward, and
-- the libraries, whose behaviour enters as parameters: the chain's RPC, bcrypt, JWT, the parsing of
-- URLs and floats, SHA-256 and FindProgramAddress.
pub mod Base
pub mod World
pub mod Keeping
pub mod Credits
pub mod Health
pub mod Alert
pub mod Consumer
pub mod Solana
pub mod Payments
pub mod Telegram
pub mod Registry
pub mod Users
pub mod Runner
pub mod Monitors
pub mod Hub
pub mod Env
pub mod Router
pub mod PingLogs
pub mod Bot
pub mod Http
pub mod Controllers
pub mod App
pub mod Invariant
pub mod System
mod Tests
