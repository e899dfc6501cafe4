-- ===== src/Lib.antt =====
-- cosmos-pay: payments over HTTP (x402) by authz grants on Cosmos chains.
--
-- A resource server puts a handler behind the middleware. A request without a payment is answered
-- with 402 and the requirements. The client signs an authorization of the transfer (ADR-036) and
-- retries with it in a header. The middleware posts it to the facilitator, which verifies it,
-- reserves its nonce, broadcasts the transfer under the payer's grant to the facilitator, waits for
-- its inclusion and commits the nonce; on an error it releases the nonce. On success the inner
-- handler runs.
--
-- Which file models which part; `Verify` stands for (*Verifier).Verify, and so on:
-- - Types, Types/Codes, Types/Tags: facilitator/types.go, the structs, codes and JSON tags;
--   Types/Decode the decoding of each struct.
-- - Amounts: cmpAmounts (facilitator/verify.go) over the decimal reading of big.Int.
-- - Nonces: facilitator/store.go. Nonces/Contract is the life cycle that the comment on NonceStore
--   gives, as laws over a map from (payer, chain, nonce) triples to statuses; Nonces/Memory is
--   MemoryNonceStore with Reserve, Commit, Release, Exists and GC; Nonces/Key is nonceKey.
-- - Chain: facilitator/chain.go, the chain client as a record of functions.
-- - Adr036: facilitator/adr036.go, the sign documents and VerifyADR036; Adr036/Sorting is what is
--   relied on of the SDK's SortJSON, and Adr036/Binding is about what the sign
--   bytes determine, with Encoding/Json/Unique on the JSON that is printed.
-- - Verify: facilitator/verify.go, the numbered steps of Verify as one helper each; Verify/Refusals
--   is about the codes of the errors.
-- - Settle: facilitator/settle.go, Settle over any nonce store, the state passed along.
-- - Interleave: concurrent calls of Settle, and the collector of facilitator/cmd/main.go, as a step
--   relation over the in-memory store; Interleave/Safety without the collector, Interleave/Collector
--   with one that spares settlements in flight, Interleave/Race with any; Interleave/Serial takes a
--   whole call of Settle as steps of the relation.
-- - Noble: facilitator/chain_noble.go. Noble/Query the queries, Noble/Tx and Noble/Broadcast
--   the transaction, Noble/Wait the polling for its inclusion, Noble/Config the environment and the
--   key, Noble/Connect the start of the client with its connections, codec and prefixes.
-- - Http, Middleware: middleware/middleware.go, Paid and its helpers; Middleware/Headers is about the
--   headers of a refusal.
-- - Server: facilitator/cmd/main.go, the handlers; Server/Main what main starts with, its mux, and the
--   process as a sequence of events.
-- - Deployment: the middleware in front of the facilitator's settlement endpoint, and
--   Deployment/Chain the settlement over the Noble client; Deployment/Exchange takes the demo client,
--   the demo server and the facilitator together; Deployment/Wire gives the parts the decoders of
--   encoding/json, and Deployment/Wire/Payment is about what is then paid for a page.
-- - Client: examples/client/main.go, from the requirements to the header of the payment, and
--   Client/Run its two requests.
-- - DemoServer: examples/server/main.go, the configuration, the page and the mux.
-- - Tools: Tools/Keys the key generator (tools/keygen/main.go) and deriveKey, which the commands
--   share; Tools/Grant tools/grant/main.go; Tools/Fixture tools/fixture/main.go, and
--   Tools/Fixture/Posted its text posted to the facilitator.
-- - Prelude, Errors, Clock, Encoding: what the program uses of Go and its standard library: texts,
--   words of 64 bits, errors, time.Time, UTF-8, base64 and JSON. Encoding/Json writes as json.Marshal
--   does and Encoding/Json/Indent as json.MarshalIndent does; Encoding/Json/Text, Number and Parse
--   read as json.Unmarshal does, into a value of Encoding/Json/Value, which Encoding/Json/Struct
--   puts into a struct.
-- - Examples: a scenario, runs of the program on it, and the theorems at concrete inputs.
--
-- Numbers. `uint64` and `int64` are bit patterns below 2 ^ 64, and arithmetic on them wraps where
-- the source can wrap. Amounts are integers without a bound.
-- Loops. The loops over lists are structural. The wait for a transaction has fuel, one unit for a
-- round; a clock that passes the deadline after round n makes n + 1 units enough. The decimal
-- digits of a number have one unit of fuel for each unit of the number, and one more. The JSON
-- parser has three units for each byte, and one more, which Encoding/Json/Parse/Fuel shows enough.
--
-- Parameters: the Cosmos SDK (SortJSON, keys, bech32, codecs, the signing of transactions), SHA-256,
-- go-bip39, gRPC and RPC services, HTTP clients, the clock, the random bytes of nonces.
-- The JSON decoders are parameters of Middleware, Server and Client, which Deployment/Wire
-- instantiates; what a free-form map is decoded to stays a parameter.
-- Not modelled: of encoding/json, the limit on the nesting, the texts of errors, and floats; starting
-- the servers and the log; the bech32 prefixes, the connections and the codec of the grant tool, which
-- are those of the Noble client; the tests.
pub mod Prelude
pub mod Errors
pub mod Clock
pub mod Types
pub mod Amounts
pub mod Nonces
pub mod Chain
pub mod Encoding
pub mod Adr036
pub mod Verify
pub mod Settle
pub mod Http
pub mod Middleware
pub mod Interleave
pub mod Noble
pub mod Client
pub mod Server
pub mod Tools
pub mod DemoServer
pub mod Deployment
pub mod Examples
