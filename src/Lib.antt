-- ===== src/Lib.antt =====
-- Glanceus, the dashboard client of ui-react: its modules that decide which source is fetched
-- when, which tabs and widgets stand where, what is saved, and what a chart can draw. Rendering is
-- left out, and so is the code that only calls the HTTP client or the desktop shell.
--
-- The parts, with the file of the repository and the module that models it:
--
-- Coordinator (ui-react/src/pages/sourceUpdateCoordinator.ts). The class SourceUpdateCoordinator
-- is the record `SourceUpdateCoordinator`, one field for each of its fields; its timers are due
-- times, and its awaits are lists of the requests and the polls that wait (`fetches`, `polls`).
-- Each method is a function of the same name in snake_case: Coordinator.State holds the small
-- ones, Merge mergeSummaryWithDetail, Queue enqueueTask, startTask and pumpQueue, Submit
-- submitSources and scheduleTrailingSubmit, Snapshot applySourcesSnapshot and commitDetail, Events
-- the entry points, the continuations after each await and the timer callbacks. `step` is one turn
-- of the event loop with the time that Date.now gives in it, and `run` a history of turns, in any
-- order. What the server answers, and when, is part of the turns. Errors go to onError, which is
-- the list `errors`.
--
-- ViewTabs (ui-react/src/pages/dashboardViewTabs.ts and ui-react/src/store/viewTabsState.ts). The
-- functions on orders of tabs, in ViewTabs.Names the names of new ones, and in ViewTabs.Store the
-- store as a record with its setters. The module that a page calls, Layout, places the items of
-- the view that a tab shows.
--
-- Layout (ui-react/src/pages/dashboardLayout.ts). Layouts as they come have coordinates that are
-- numbers or texts; sanitised ones are natural numbers.
--
-- SaveQueue (ui-react/src/pages/viewSaveQueue.ts). The closure's variables are a record, and the
-- two awaits of `run` are its phase. Dashboard.tsx puts a view into it after each change of its
-- layout.
--
-- Charts (ui-react/src/components/widgets/shared/chartFieldValidation.ts and chartState.ts).
-- Fields from metadata or rows, the check of an encoding, and the state of a chart, which uses
-- that check.
--
-- AppStore (ui-react/src/store/index.ts). The application's store as a record; `act` has a clause
-- for each of its functions, and the timers that hide toasts are a list. QueueSync writes its
-- queue's active source into this store, and the pages read from it what Coordinator has fetched.
--
-- QueueSync (ui-react/src/hooks/useScraper.ts, the throttled sync of the queue). The refs of the
-- hook are a record. Scraper (the rest of that file) is the hook over the store of AppStore and
-- the sync of QueueSync: Logs merges its logs, Events has the listeners, Handlers the functions
-- that the page calls and `resume` what follows their awaits, and Turns the hook's turns, a render
-- with its effects among them. The desktop shell and the server answer in turns; the making of
-- objects and the text of a number are the record `Runtime`.
--
-- WidgetLayout (ui-react/src/components/widgets/shared/layoutContract.ts) is a table.
--
-- Swr (ui-react/src/hooks/useSWR.ts). The fetchers behind the cache of the library swr, with what
-- the server answers as a parameter, and the optimistic updates of the cached sources, whose
-- record is that of Coordinator's snapshot: updateSourcesSnapshot is how Coordinator writes it.
--
-- Template (ui-react/src/lib/templateExpression.ts). Lexer is tokenize, Parser the class Parser,
-- Eval evalNode with the functions of Helpers, and Cache the cache of parsed expressions behind
-- evaluateTemplateExpression. Widgets call it with the data that Coordinator fetched. The engine's
-- Number, String, toFixed and operators are the record `Engine`, and reads of a property a
-- parameter.
--
-- Backend (ui-react/src/api/client.ts, ensureBackendReady). The module's variables, the startups
-- that run, and their callers are a record, and an answer to the probe or the end of a sleep is a
-- turn. Coordinator, Swr and Scraper wait here before each of their requests.
--
-- Config has the records of ui-react/src/types/config.ts that several parts share. Prelude has
-- what JavaScript gives: dynamic values with `===`, doubles, texts as UTF-16 units with trim and
-- parseInt, sets of ids, maps as lists of entries in insertion order, and the stable sort.
--
-- Numbers are natural numbers or integers without a bound where the code has doubles: ids of
-- requests, counters, times and places in a grid stay far below 2 ^ 53. (For a y of 2 ^ 53 or
-- more, the source's loop in settleWithoutOverlap, which adds 1 to a double, would not end;
-- `settle` counts exactly.) A double is nan, an infinity, or a whole number of units of 2 ^ -1074.
--
-- Loops: pump_loop has the length of the queue as fuel, since each round takes a task off; settle
-- has the bottom of the lowest placed node, since nothing overlaps below it; the two scans of a
-- free place have the bounds that the source's loops have. tokenize has the length of the text and
-- one as fuel, each round taking a character; parseTernary the number of tokens and one, since a
-- call inside it stands after a token, and the loops of the parser the number of the tokens left
-- and one. The loop that looks for a free name tries one name more than there are taken ones. All
-- other loops recur on their list.
--
-- Not modelled: React components and their effects but those of the hook, the other methods of the
-- HTTP client, i18n, the background worker, the Rust shell and the Python server. Which texts the
-- engine's Date reads is a parameter of Charts.Fields.
pub mod Prelude
pub mod Config
pub mod Coordinator
pub mod ViewTabs
pub mod Layout
pub mod SaveQueue
pub mod Backend
pub mod Charts
pub mod QueueSync
pub mod Scraper
pub mod WidgetLayout
pub mod AppStore
pub mod Swr
pub mod Template
