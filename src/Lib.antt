-- ===== src/Lib.antt =====
-- The client side of a trading dashboard, the TypeScript of dashboard/src: the stores that hold what
-- the operator sees and edits, and the code that talks to the backend under the operator's session.
--
-- Parts, with the files of dashboard/src that they model:
--   Symbols   utils/validateSymbol.ts, and the normal form of a symbol.
--   Drawing   types/drawing.ts. Drawing/Schema models utils/drawingSchema.ts; Drawing/State,
--             Drawing/Store, Drawing/Keys and Drawing/Transfer model store/drawingStore.ts: a record
--             for the store with its timers and requests, and one function for each action, under
--             the action's name in snake case (addDrawing is add_drawing, _scheduleSave is
--             schedule_save). Drawing/Steps puts the actions, the timers and the answers together as
--             steps in any order, Drawing/Timeline compares its history with a timeline, Drawing/Reset
--             has its part of store/resetAllStores.ts; the other files are about single properties.
--   Session   store/sessionStore.ts. Session/Http models services/api/client.ts, with the actions
--             that other code does on the session at each await as arguments; Session/Bootstrap
--             and Session/Launch model services/api/session.ts.
--   Market    store/marketStore.ts over the types of types/index.ts: Market/Quotes models the quotes
--             and live bars, Market/Storage what is kept in the local storage, Market/Watchlists the
--             actions on watchlists; Market/Bars, Market/Reload and Market/Membership are about them.
--             Market/HeikinAshi models utils/heikinAshi.ts.
--   Feed      `MarketDataWsService` of services/ws.ts: Feed/Service has its methods and the events of
--             its sockets and timers, in any order; Feed/InStep and Feed/Kept are about them.
--   Bus       `WebSocketService` of services/ws.ts, the socket of the backend's events; Bus/Recovery is
--             about its reconnects.
--   Activity  pushActivity of store/accountStore.ts, and the fired alerts and the statistics of
--             store/alertStore.ts, which Activity/Stats has; Activity/Feeds, Activity/Counts and
--             Activity/Summary are about them.
--   Live      hooks/useWebSocket.ts: Live/Guards has its type guards, Live/Handlers and Live/Orders its
--             handlers, Live/Run the events and the answers in any order; Live/Invariant
--             and Live/Kept are about them. Live/Stores models store/accountStore.ts and
--             store/simStore.ts, Live/Bot models store/botStore.ts.
--   Research  Research/Profile models store/stockProfileStore.ts and Research/Diagnostics
--             store/diagnosticsStore.ts, each action split at its await; Research/Ownership and
--             Research/Loading are about their runs.
--   Panels    Panels/Risk models store/riskStore.ts, Panels/Interface store/uiStore.ts and Panels/Alerts
--             the list of alerts of store/alertStore.ts.
--   Screener  store/screenerStore.ts: Screener/Store has its actions, and Screener/Requests runScan and
--             enrichResults, split at their awaits; Screener/Scans has the steps of the page, with any
--             number of requests under way, and Screener/Shown is about them.
--   Analytics store/analyticsStore.ts: Analytics/Trades, Analytics/Sectors and Analytics/Summary have the
--             matching of trades, the exposure by sector and the summary of profit and loss;
--             Analytics/Matching is about the first, and Analytics/Loop has its `while` loop over
--             the index.
--   Indicators utils/indicators.ts: Indicators/Averages and Indicators/Oscillators have the
--             calculations; the other files are about windows, prefixes, times and bounds.
--   Signals   utils/opportunitySignals.ts: Signals/Build has the signal of a quote, Signals/Rank the
--             ranking, and Signals/Sound what a signal says.
--   Engine    utils/drawingEngine.ts, the part that computes: Engine/Geometry, Engine/HitTest and
--             Engine/Snap; Engine/Topmost and Engine/Nearest are about them.
--   Common    shared names, lists, maps keyed by a text, flags of requests that wait, and integers for
--             the runs.
-- The drawing store saves through the API client, whose requests need the session that the session
-- store holds; the market store and the socket service normalise symbols in the way
-- that Symbols describes. The events of the socket reach the account, bot, simulation, market and
-- alert stores through the handlers of Live; the hit tests of Engine rely on the points that the
-- drawing store keeps.
--
-- Numbers: a price, a coordinate or a volume is a value of a type `N`, and what the code computes of
-- it is a parameter (`Arith`, `Num`, `Reals`, `Plane`, `Measures`, `Calc`). A theorem that needs laws of
-- these operations takes them as a hypothesis, such as `IsExact`, the laws of sums that are not
-- rounded; floating point satisfies them as far as it does not round. Times, counts and status codes
-- are native natural numbers. The date that `Date.parse` reads, the value that `JSON.parse` reads, the
-- answer of `fetch`, the id of `crypto.randomUUID` and the clock are arguments. zod is the record
-- `Zod`, with what it documents as fields.
--
-- Bounds: the history holds 50 entries and a series 5000 bars, as in the code. Every function is
-- structurally recursive but match_loop of Analytics/Loop, whose fuel counts the tests of the loop's
-- condition: one more than there are rows is enough.
--
-- Not modelled: React components and the other hooks, the wrappers of single endpoints, drawing on the
-- canvas, toasts and notifications of the browser, the backtest, swing, autopilot and settings stores,
-- and the Python backend. A copy through JSON is the value itself, so the coordinates of a drawing are
-- finite numbers, which JSON and zod keep: NaN and the infinities, which JSON writes as null and zod
-- refuses, are left out of the type `N` there. Keys of an object that look like array indices keep
-- their place.
pub mod Common
pub mod Symbols
pub mod Drawing
pub mod Session
pub mod Market
pub mod Feed
pub mod Screener
pub mod Analytics
pub mod Bus
pub mod Activity
pub mod Indicators
pub mod Engine
pub mod Signals
pub mod Live
pub mod Research
pub mod Panels
