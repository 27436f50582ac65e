-- ===== src/Lib.antt =====
-- Verification of the settlement corridor: the ledger, and the services that move money with it.
--
-- The corridor takes USDT on one chain and pays it out on another. The gateway quotes a payout, the
-- deposit watcher reports deposits that are final, the dispatcher pays out, and the ledger keeps the
-- books and the state of every order. Modelled are:
--
--   Ledger/Money      amounts, checked int64 arithmetic, decimal strings: ledger/internal/money
--   Ledger/Accounts   account codes and the chart of accounts: ledger/internal/accounts
--   Ledger/Journal    posting, reversal, balances, self-checks: ledger/internal/journal
--   Ledger/Halt       the halt flag, its log and its cache: ledger/internal/halt
--   Ledger/Orders     the order state machine and deposit reorgs: ledger/internal/orders
--   Ledger/Recon      chain snapshots and the periodic self-check: ledger/internal/recon
--   Ledger/Database   the tables as lists of rows: ledger/migrations
--   Ledger/Error      the sentinel errors and the result of a fallible call
--   Ledger/Tests, Ledger/Money/Tests   runs at fixed inputs
--   Watcher/Money     amounts of the watched token: depositwatcher/internal/money
--   Watcher/Transfers, Watcher/Classify   an event log as a transfer, and a transfer against its order:
--                     depositwatcher/internal/chain/classify.go
--   Watcher/Tracker   deposits until and after finality: depositwatcher/internal/finality
--   Watcher/Pool      the block that enough providers hold final, and the logs that two report:
--                     depositwatcher/internal/chain/pool.go, health.go, finality.go, logs.go
--   Dispatcher/Attempts, Dispatcher/Broadcast   dispatch_attempts and Broadcast:
--                     dispatcher/internal/dispatch/attempts.go, broadcast.go
--   Dispatcher/Slots  paying addresses and the choice of one: dispatcher/internal/slots
--   Dispatcher/States, Dispatcher/Entering, Dispatcher/Settling   dispatch_state, the conversion entry,
--                     the retries, finality, freezes and the scan for failures:
--                     dispatcher/internal/dispatch/store.go, dispatch.go, finality.go, freeze.go,
--                     reconcile.go
--   Gateway/Pricing   what a payout costs: gateway/internal/pricing
--   Watcher/Tests, Dispatcher/Tests, Gateway/Tests   runs at fixed inputs
--   Base              tests, lists, integers with int64 wrap-around, byte strings, tables, sorting
--
-- State and operations. A database is a record `Store` of tables, a table is a list of rows in the
-- order of insertion. An operation is a function from a store to a result, an error or a value with
-- the new store: a transaction that fails commits nothing. Names are those of the source in this
-- library's spelling: Post is `post`, Reverse is `reverse_entry`, HandleDepositReorg is
-- `handle_deposit_reorg`. Go's int64 is the integers between -2^63 and 2^63 - 1, and the raw operators
-- wrap (`add64`, `sub64`, `neg64`). Times count nanoseconds from Go's zero time, which is 0.
--
-- Interaction. Orders post and reverse entries in the journal inside their own transaction and read
-- the halt flag; the journal resolves account codes by the chart. Transition is two functions, a
-- reading half and a writing half with the compare-and-set on the version, so that other transactions
-- can be put between them. `Steps` (Ledger/Orders/History) is any sequence of committed transactions,
-- IngestSnapshot's included.
--
-- The tracker is a record of two lists of candidates and the list of its calls to the outside, in order;
-- Go's maps iterate in any order, and the list's order is one of them, which no theorem looks at; so are
-- the groups of hashes in the pool. Each
-- call of the tracker is one step. The dispatcher's statements are single steps, and Broadcast is three
-- sections that other callers' sections may come between (`Sections`). A chain broadcast whose row can
-- not be committed is a step of its own, and so is one that the chain refuses. MarkRetired is two
-- statements, with what others commit between them as an argument. The dispatcher's conversion entry is a list of the ledger's
-- lines, and its amounts come from the gateway's quote.
--
-- Fuel. format_nat has fuel 20, enough since 2^64 < 10^20; pad_to has decimals + 1 rounds, each of
-- which adds a digit. All other recursion is structural.
--
-- The loops that wait for the ledger run over the list of its answers, and end by then or still wait.
--
-- Parameters. `Outside` is what the provider pool, the ledger and the recorder answer in one tick of the
-- tracker; `asking` puts the answer of a modelled pool there, whose `Provider` carries what it answers in
-- one round. `Services` is the signer, the chain and SHA-256 during one Broadcast; `FinalityCheck` and
-- `Reports` are the chain and the ledger for the other calls of the dispatcher. `digest` stands for
-- SHA-256 of the JSON encoding of the canonical payload and is any function; only the conflict of two
-- payloads supposes that it tells them apart. `order_known` is the foreign key of an entry on orders.
-- The clock is an argument, and so are go-ethereum's hash of an event and its address of a topic.
--
-- Not modelled: failures of the database but for the commit of a broadcast, gaps in sequences, columns
-- filled by now(), the JSON detail of a halt, the audit log, list queries and cursors, a cached balance
-- out of bigint range, the deferred balance trigger, HTTP and the clients of other services, tickers,
-- metrics, the scan of new blocks, batches, energy, screening, signing, webhooks and the console.
pub mod Base
pub mod Ledger
pub mod Watcher
pub mod Dispatcher
pub mod Gateway
