-- ===== src/Lib.antt =====
-- banco: a market maker for non-interactive atomic swaps on Liquid. A trader funds a taproot contract
-- (offer.go) whose script forces the first output of the transaction that spends it; the provider
-- watches the contract's address and, once it is funded, builds, signs and broadcasts the transaction
-- that fulfils the order (trade.go), with the coins of a wallet service.
--
-- The parts, and the files that model them:
--   Prelude     names of the libraries, Boolean tests, lists, bytes, association lists, integers
--   Buffer      pkg/bufferutil: Io (the free list and the buffer as a state, Go's value and error),
--               ByteOrder and FreeList (bufferutil.go), VarInt (writeVarInt, readVarInt and the sizes),
--               Serializer (serializer.go), Deserializer (deserializer.go); Rules, Scratch and Keeps
--               have the rules for what an action reads, writes and keeps
--   ScriptNum   scriptnum.go: scriptNum.Bytes and Int32, on integers in the range of an int64
--   Result      a value and an error of package main, or a panic; Call is a call that changes the world
--   Float       the operations of float64 that package main uses; Model has fixed decimals for tests
--   Currency    currencyutil.go; Hex is encoding/hex
--   Offer       offer.go: Scripts (FulfillScript, RefundScript, compileFulfillClause,
--               compileRefundClause), Funding (CreateFundingOutput); Builder and Engine are the
--               interfaces of the script builder and of the script engine, Model an instance of both
--   Order       order.go: the struct, New (NewOrder, OutputValue, InputValue)
--   Trade       trade.go: Types (the struct and its constructors, CancelTrade), Libs and Laws (the
--               interfaces of psetv2 and of the wallet service), Prepare (PrepareFulfillTransaction),
--               Witness and Execute (ExecuteTrade), Step (the state that ExecuteTrade works on),
--               Fulfils (the calls that make a transaction); Model is an instance of the interfaces
--   Ocean       ocean.go: Client (the interface of the daemon's clients), Service (the methods), Start
--               (NewWalletService), Notify (TransactionNotifications)
--   Esplora     esplora.go: Client (NewEsplora, FetchTransactionHistory, FetchPrevout, FetchUnspents)
--   App, Market app.go: the networks, the script hash and the history of an address; GetMarkets,
--               GetMarketWithLimits, GetMarketsWithLimits, getTradingPair
--   Rates       rates.go: the client and its methods; Feed has the steps of its goroutines
--   Store       db.go: Rows (the tables), Sql (a connection, its transaction and the calls that fail),
--               Init (initDB), Save (saveOrder, updateOrderStatus), Query (fetchOrderByID,
--               fetchOrdersToFulfill, fetchOrderIDByAddress); View is the map that the tables stand for
--   Watch       app.go: Coins (coinsAreMoreThan), Execute (executeTrades), Order (watchForTrades) on the
--               state of Act
--   Web         main.go: Start (main up to the router), Poll (the polled function, startWatching), and
--               the handlers: Quote (/pair, /trade/preview), Place (POST /trade; Asks has what its
--               form asks for), Rows and Pages (the pages and /address-to-script), Stream
--               (/offer/:id/transactions), as Handlers that answer with a Response
--
-- A Serializer of Buffer makes the witness in Trade.Execute, over the package's one free list; the
-- scripts of Offer are the leaves that Trade.Witness looks for. Watch runs a trade for each coin, and sets
-- the status of the order in Store before and after; Web.Poll runs Watch for each order that Store
-- lists, and Web.Place makes an order at the price of Rates, saves it in Store and has Ocean watch its
-- address. The service of Ocean is the wallet of Trade (ocean_wallet). A function that changes shared
-- state takes the state and returns it, errors are values, and what was done before an error stays done.
--
-- Bounds: a byte, a uint64 and an int64 are numbers with their limits written out (`% 2 ^ w` where the
-- source wraps). The only counters of rounds are that of `le_loop`, 8 of them, since the number that the
-- loop divides by 256 in each round is below 2 ^ 63, and that of `start_watching`, which has no end.
-- ReadSlice panics above 2 ^ 48 bytes, the most that Go's runtime allocates on amd64; that the machine
-- may have less memory than that is left out.
--
-- Not modelled: the libraries (the script builder and engine, taproot, psetv2, the gRPC clients, net/http,
-- encoding/json, the websocket, viper and gin) are parameters, with laws that say what the code relies
-- on; of gin and of the templates only what a handler answers with is kept, without the markup. A method
-- of psetv2 whose error the code does not look at is a plain function, with a law for what it accepts.
-- The operations of float64 are a parameter without laws. The concurrent use of the free list and of the
-- map of prices is not modelled: an action has them for itself. The format of times is a parameter, and
-- so are the identifier and the times that are drawn. The texts around an error are left out. A
-- transaction identifier is cut by bytes, as text whose characters are one byte each.
pub mod Prelude
pub mod Buffer
pub mod ScriptNum
pub mod Result
pub mod Call
pub mod Hex
pub mod Float
pub mod Currency
pub mod Ocean
pub mod Esplora
pub mod Offer
pub mod Order
pub mod App
pub mod Market
pub mod Rates
pub mod Store
pub mod Trade
pub mod Watch
pub mod Web
