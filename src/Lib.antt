-- ===== src/Lib.antt =====
-- A model of go-res, a library for RES services over NATS (package `res`, at the repository's root).
--
-- A service is a tree of resource handlers. A request's subject names a resource; the tree finds
-- the handler for the name, with the path parameters and the worker group; the request is queued
-- with its group, and a pool of workers runs the queues.
--
-- Base        shared names; `Result` is a Go call that returns or panics, `Panic` lists the panics.
-- Params      Go maps with string keys, as association lists.
-- Parts       mux.go: `splitPattern`, `mergePattern`; the parts between the dots of a name.
-- Pattern     pattern.go: `IsValid`, `IndexWildcard`, `Matches`, `Values`, the replacement of tags
--             with its buffer (Pattern/Replace); mux.go: `isValidPath`.
--             A string is the list of its bytes, and an index is the suffix behind it. The loops of
--             `Matches` and `Values` take fuel, the length of the pattern: each round takes a byte.
-- Group       group.go: `parseGroup` as a state machine over the bytes, `toString`.
-- Mux         mux.go: the node tree (Mux/Tree), `Contains`, `fetch`, `add`, `AddListener` (Mux/Fetch),
--             `matchNode`, `GetHandler` (Mux/Lookup), both together (Mux/Routing, Mux/Built), `AddHandler` and
--             `Mount` (Mux/Mount). A mounted Mux shares its root with its parent: what is
--             registered in it after the call is not followed into the parent.
-- Worker      worker.go and `runWith`, `close` of service.go: what each goroutine does under the
--             mutex is one step, and so is the test of the state by which `runWith` begins; the steps of all
--             goroutines are taken in any order, for one Serve with its Shutdown (Worker/Step).
-- Rid         types.go: `IsValidRID`; resource.go: `isValidPart`; service.go: `parseRID`.
-- Request     request.go: the methods that reply (Request/Reply), and `executeHandler` with what it
--             recovers from (Request/Execute). A handler is a finite script of calls on its request.
--             `json.Marshal` is a parameter, which returns bytes or an error. What is published on
--             the reply subject by `reply` is kept in the request. getrequest.go: the request that
--             `Value` makes of the service's own get handler (Request/Get).
-- Events      resource.go: the methods that send an event; service.go: `event`, `rawEvent`
--             (Events/Send). The apply handlers are functions on what the service stores, whose
--             type is a parameter; `encodes` stands for whether `json.Marshal` succeeds. The effects
--             of a call are the list of what is published and of what the listeners are told.
-- Dispatch    service.go: `handleRequest`, from a subject to the queue of its group; what the
--             service owns and subscribes to (Dispatch/Subscribe); `With`, `WithGroup`, and
--             `processRequest` (Dispatch/Process), which a worker runs for a queued request.
-- Service     service.go: the state changes of `Serve` and `Shutdown` as a step relation
--             (Service/Life); the events for the whole system, `Reset`, `ResetAll`, `TokenEvent`,
--             `TokenEventWithID`, `TokenReset` (Service/System).
-- Query       queryevent.go: the requests of a query event; a callback is a finite script of calls.
-- Store       store/storehandler.go: `changeHandler` and the answers of `getResource`
--             (Store/Handler), `modelDiff` (Store/Model), `collectionDiff` with its matrix, of which
--             every access is tested for its bounds (Store/Diff); store/value.go: `Value`, `Equal`
--             (Store/Value). The transformer, and `json.Marshal` with `json.Unmarshal` behind it,
--             are parameters. The loop over the matrix takes fuel, the number of elements: each
--             round takes one. store/mockstore/store.go: the store with its lock and transactions
--             (Store/Mock), the calls of a transaction, with the overrides of the defaults
--             (Store/Mock/Calls), and the transactions that are open at a time
--             (Store/Mock/Locking). Store/Contract is what a store promises, which the handler's
--             clients rely on (Store/Handler/Replica) and the mock store keeps.
--             store/transformer.go: the transformers of query results and events, with the values
--             of type interface{} that they know as a data type, and the slice that TransformEvents
--             writes to (Store/Transform), TransformFuncs and IDTransformer (Store/Transform/Ids).
--             store/querystorehandler.go: the tests before use (Store/QueryHandler/Setup), the
--             answers to get requests (Store/QueryHandler), the events of the resources that a
--             change affects (Store/QueryHandler/Events), which are sent by Events, and the callback
--             of a query event, a script of Query (Store/QueryHandler/Callback). The query store,
--             the request handlers and the affected resources are parameters.
--
-- A panic with nil, which `recover` does not tell from a return, is a part of the handlers of
-- getrequest.go, and not of those of request.go.
--
-- A panic ends a call, and what it leaves half done is not modelled. The order in which Go walks a
-- map is that of the association list. Formatting of messages, logging, tracing, JSON and the NATS
-- connection are outside of the model.
--
-- Not modelled: the setters of fields and the handler options of service.go; ValidateListeners,
-- Register, Route, FullPath and the OnRegister callbacks of mux.go; the subscription of
-- QueryEvent; in store the setters of handlers, and mockstore.QueryStore, which only calls its
-- callbacks; the Badger stores (store/badgerstore and middleware), which are glue over a database;
-- resprot, which decodes JSON; restest, logger and examples, which are a test harness, output and
-- demonstrations.
pub mod Base
pub mod Params
pub mod Parts
pub mod Pattern
pub mod Group
pub mod Mux
pub mod Worker
pub mod Rid
pub mod Request
pub mod Events
pub mod Dispatch
pub mod Query
pub mod Service
pub mod Store
