-- ===== src/Lib.antt =====
-- A verification of the TypeScript parts of the Pump.fun trading bot: the API server that bridges the
-- trading engines, the dashboard's hooks and the logic of its pages, the fetch wrapper of the API
-- client, and the preview plugin and renderer of the mockup sandbox.
--
-- The dashboard talks to the API server over REST and one WebSocket; the server keeps wallets and
-- settings in PostgreSQL, relays orders to the Rust engine over gRPC and falls back to the Python
-- engine over HTTP. Each file below says which source file it models; a definition keeps the words
-- of the function that it translates.
--
-- - Toast: artifacts/dashboard/src/hooks/use-toast.ts
-- - AdminKey: artifacts/dashboard/src/hooks/use-admin-key.ts
-- - LiveTrades: artifacts/dashboard/src/hooks/use-live-trades.ts
-- - AdminAuth: artifacts/api-server/src/lib/admin-auth.ts
-- - Wallets: artifacts/api-server/src/routes/wallets.ts
-- - Stream: artifacts/api-server/src/index.ts, the order stream and its reconnection
-- - Sockets: artifacts/api-server/src/index.ts, the WebSocket fan-out and its keep-alive
-- - Python: artifacts/api-server/src/lib/python-status.ts and the child process of artifacts/api-server/src/index.ts
-- - Health: artifacts/api-server/src/routes/health.ts
-- - Base58, RpcUrl: artifacts/api-server/src/routes/settings.ts, the helpers
-- - Metrics: artifacts/api-server/src/routes/token-metrics.ts
-- - Bot: artifacts/api-server/src/routes/bot.ts and lib/grpc-client.ts
-- - Settings: artifacts/api-server/src/routes/settings.ts, the routes
-- - Trades: artifacts/api-server/src/routes/trades.ts
-- - SystemConfig: artifacts/api-server/src/db/seed-system-config.ts and artifacts/api-server/src/routes/admin.ts
-- - Fetch: lib/api-client-react/src/custom-fetch.ts (Body reads a response, Message words its error, Send is customFetch)
-- - Mockup: artifacts/mockup-sandbox/mockupPreviewPlugin.ts
-- - Banner: artifacts/dashboard/src/components/OfflineBanner.tsx
-- - KeyPrompt: the admin key prompt of artifacts/dashboard/src/pages/Wallets.tsx, Strategies.tsx and Settings.tsx
-- - Backtest: artifacts/dashboard/src/pages/Strategies.tsx, the backtest panel
-- - Chart: artifacts/dashboard/src/pages/Dashboard.tsx, the profit chart
-- - Display: artifacts/dashboard/src/lib/utils.ts, and the ages and tips of pages/Tokens.tsx and pages/Settings.tsx
-- - Forms: artifacts/dashboard/src/pages/Settings.tsx, the three cards that save the configuration, over the routes of Settings
-- - Preview: artifacts/mockup-sandbox/src/App.tsx
-- - OrderForm: artifacts/dashboard/src/pages/Trades.tsx, the order form, over Bot/Orders
-- - Controls: artifacts/dashboard/src/pages/Dashboard.tsx, the start and stop button, over Bot/Control
-- - Resume: artifacts/dashboard/src/pages/Wallets.tsx, the card of a paused wallet, over Wallets
-- - Navigation: artifacts/dashboard/src/App.tsx
-- - Grpc: artifacts/api-server/src/lib/grpc-client.ts, the client and its calls
-- - Common, Text, Json, Js, Tx: shared names, texts, JSON values, JavaScript's numbers, and transactions
--
-- Conventions. Mutable module state is a record that each operation takes and returns; time is an
-- argument in milliseconds; a callback, a timer or a message is an event, and a history is a list of
-- events. Texts that are only compared are native strings. JavaScript numbers that the code merely
-- compares, stores or passes on are an abstract type (Js.antt). A database statement may throw:
-- Tx.antt takes the faults to come as a list. A theorem holds for every such list, unless it says that
-- there are no faults.
--
-- The one loop on fuel is `spill` of Base58.antt: the carry is its own fuel, which is enough since the
-- base is at least 2 and each round divides the carry (Base58/Value.antt). The engines of Bot.antt are
-- functions of a world that each call may change, and every call is recorded in its order.
--
-- The cards of KeyPrompt.antt share the cache of AdminKey.antt. A request that is under way (a scan of
-- Mockup.antt, a socket of Banner.antt, a change of KeyPrompt.antt) is part of the state, and its
-- answer is an event. Forms, OrderForm, Controls and Resume have the server behind them: OrderForm and
-- Controls call the handlers of Bot, Resume those of Wallets through the guard, and Forms uses the
-- interface ConfigService of Settings/Service.antt, which the routes of Settings fill. A
-- configuration without the order and the times of its rows is the quotient of Settings/View.antt. A
-- request of Resume may also be lost, before or after the server has dealt with it.
--
-- Not modelled: the Rust and Python engines, which are other languages' code behind an interface; React
-- rendering and the markup of components and pages, and the copies of shadcn/ui components;
-- generated clients and schemas, build and Vite configuration, and logging.
pub mod Common
pub mod Toast
pub mod AdminKey
pub mod LiveTrades
pub mod AdminAuth
pub mod Js
pub mod Tx
pub mod Wallets
pub mod Stream
pub mod Sockets
pub mod Python
pub mod Health
pub mod Base58
pub mod Text
pub mod RpcUrl
pub mod Json
pub mod Bot
pub mod Settings
pub mod Trades
pub mod Fetch
pub mod Mockup
pub mod SystemConfig
pub mod Banner
pub mod KeyPrompt
pub mod Display
pub mod Backtest
pub mod Chart
pub mod Forms
pub mod Preview
pub mod Metrics
pub mod OrderForm
pub mod Controls
pub mod Navigation
pub mod Grpc
pub mod Resume
