-- ===== src/Lib.antt =====
-- A verification library of china_a_share: the VIX alerts, the data cache, the analysis tasks and the
-- research strategies.
--
-- The parts of the program that are modelled:
--   Vix (src/china_a_share/vix): `VixAlertService.run_hourly_scan` of scanner.py reads a quote
--     (source.py), records the settled close (history.py), claims and sends the alerts of the rules
--     that it hits (rules.py), opens a position for each, and closes the positions that are due
--     (positions.py). The commands of a chat (commands.py) list, add, modify and remove rules.
--     Vix/Rules, Source, Claims, Positions, History, Scanner and Commands are these, with the
--     functions' names; the stores are those in memory, as dicts in insertion order.
--   Cache (src/china_a_share/cache.py): `MemoryDataCacheStore` is Cache/Memory, its entries from the
--     least to the most recently used; `LayeredDataResponseCache` is Cache/Layered, where
--     what pandas makes of the cells and of a table is an argument.
--   Tasks (src/china_a_share/tasks.py): the datasets of `MemoryAnalysisTaskStore` are Tasks/Datasets,
--     `_wait_for_write_slot` is Tasks/Throttle, `CloudRunJobDispatcher.dispatch` is Tasks/Dispatch and
--     `AnalysisTaskCoordinator` is Tasks/Coordinator, whose store of tasks is a dict.
--   Strategies (src/china_a_share/discovery): strategy_models.py is Strategies/Models;
--     `MemoryStrategyStore` of strategy_store.py is Strategies/Store and `CloudStorageStrategyStore` is
--     Store/Cloud, over the calls of a bucket. `parse_rule_spec` of strategy_interaction.py is
--     Strategies/RuleSpec. `StrategyInteractionCoordinator` is Strategies/Interaction, whose Editing has
--     the steps of a draft, Commands the other commands and Dispatch `handle_message` and
--     `handle_card_action`; Strategies/Desk has its calls of the store. `StrategyScanner` of
--     strategy_scanner.py is Strategies/Scanner, with the markers of the store and the cards that a
--     chat has accepted as its state; Scanner/Daily has the scan and the preview, Scanner/Trial the
--     trial. Strategies/Acts is what both build on: a call reads and changes a state and may raise.
--     A card lists at most the first thirty rows of a compiled strategy and counts the rest.
--   Prelude, Dates and Floats are what the parts share: texts as lists of code points, dicts,
--     exceptions as values, Python's `date`, and the interface for floats, whose laws are those of the
--     IEEE comparisons. Examples runs the definitions and applies the theorems.
--
-- Loops are structural recursion, on lists or on the attempts that are left (three for a quote, four
-- for a dispatch), so nothing runs out of fuel. A crash between two calls is not modelled, an exception
-- of a call is. Times are natural numbers in the unit that each file names.
--
-- Not modelled: Cloud Storage and HTTP, which are arguments where a part relies on them; the texts of
-- messages, cards and logs; the regular expressions of the VIX commands, whose matches are the
-- arguments; the numeric values of floats. The price loader, the rule engine over tables of prices, the
-- compiler of rules and the execution of a compiled plan are arguments of the strategies. The other parts
-- of the program are not modelled: the search and backtests, the analysis workflow, the planners, the
-- providers and the servers.
pub mod Prelude
pub mod Floats
pub mod Dates
pub mod Vix
pub mod Cache
pub mod Tasks
pub mod Strategies
pub mod Examples
