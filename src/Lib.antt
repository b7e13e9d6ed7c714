-- ===== src/Lib.antt =====
-- Renee: the service that stores and relays encrypted document updates.
--
-- The program is a set of crates. crates/renee-types holds the vocabulary: identifiers, operation
-- sets, the public Loro metadata of updates. crates/renee-wire holds the codecs: a frame carries
-- a body, a body is an envelope, and an envelope's payload is a greeting, a capability message or
-- an update message. crates/renee-model holds the reference state machines that the running
-- service is compared with: negotiation, capabilities and updates. crates/renee-sessiond,
-- renee-gatewayd, renee-stored and renee-supervisord are the service itself.
--
-- The files. Prelude, Bytes, Bits, Texts and Maps carry what the others share: results, lists
-- over native numbers, big-endian words, `BTreeMap` as an ordered list of entries. Types is
-- crates/renee-types/src/lib.rs: Types/Operations the operation sets, Types/LoroRange,
-- Types/PublicLoroRanges and Types/LoroOplogVersion the Loro metadata with their `new`,
-- Types/AcceptanceSequence the 64-bit counter, Types/ImmutableUpdate the updates. Wire is
-- crates/renee-wire: Wire/Envelope, Wire/Frame and Wire/Greeting are src/lib.rs, Wire/Capability
-- is src/capability.rs, Wire/Update is src/update.rs, and Wire/Decoder the cursor that both
-- payload files declare. Model is crates/renee-model/src/lib.rs: Model/Negotiation,
-- Model/Capability (its commands in Model/Capability/Commands) and Model/Update.
--
-- Session is the `negotiate` and the relay loop of crates/renee-sessiond/src/main.rs, a state
-- machine over the frames that arrive from the gateway and from the store; Session/Negotiation
-- sets it beside Model/Negotiation, Session/Turns and Session/Guarded are about what a session
-- may pass on from its start, Session/Relay about what a negotiated one does. Stored is
-- crates/renee-stored/src: Stored/Verifier is verifier.rs; Stored/Subscription is
-- subscription.rs, the registry in Stored/Subscription/Registry, the receiving end in
-- Stored/Subscription/Subscriber and their interleavings in Stored/Subscription/Steps; the rest
-- is store.rs. There Stored/Tables holds the tables, one map for each table of `SCHEMA`,
-- Stored/Authority the authorization of a presented capability, Stored/Control and
-- Stored/Control/Commands the grants and revocations, Stored/Creation the creation of documents,
-- Stored/Updates and Stored/Updates/Pages the acceptance and reading of updates, Stored/Passes
-- with Stored/Passes/Enumeration and Stored/Passes/Vector the passes over a captured window, and
-- Stored/Broker the operations of `DurableUpdateStore` that touch the tables, the subscriptions
-- and the passes together: an accepted update is announced to the subscriptions of its document,
-- a revocation ends the subscriptions and passes below its target. Tests applies the theorems to
-- concrete values.
--
-- Names are those of the source. A `&mut self` method returns the outcome and the state it
-- leaves. A decoder is a function from the bytes that are left to an error or a value and what it
-- leaves. Integers are natural numbers with the width of their type written out where the source
-- checks or converts. The loops of `authorizes`, `is_descendant` and
-- `issuer_has_descendant_capacity` have the 64 rounds of the source; the binary search of
-- `end_counter_for` gets the number of the entries as its fuel, and it halves that number in each
-- round. The walks up the capabilities of Stored/Authority have the 64 rounds of the source; the
-- recursive statement of a revocation has 64 rounds and one for each row, more than an ancestry
-- has nodes. A vector backfill scans at most 64 rows a page and the minting of a token draws at
-- most four times, as in the source.
--
-- Parameters and what is left out. SHA-256 is a parameter of the capability commands and of the
-- verifiers, as are the answers of the system's random source. The answers of a subscription's
-- channel, a tokio channel, to an update that is sent are a parameter of `notify`; an update that
-- the channel takes is queued last. Identifiers and secrets are byte strings, whose lengths stand
-- as hypotheses. An instant is a number of seconds. A slice of the acceptance order is `none`
-- where `BTreeMap::range` panics. A table is what SQLite documents of it: a map from its primary
-- key, and a transaction without a commit changes nothing. Of the constraints of `SCHEMA` the
-- primary keys and the unique acceptance sequences are modelled: an insertion that breaks a
-- foreign key or a `CHECK` fails in the source and not here. Not modelled are the schema set-up
-- and the validation of a recovered store (`open` and `validate_*` of
-- crates/renee-stored/src/store.rs), the emission gates of subscriptions (locks), the dispatch of
-- messages in crates/renee-stored/src/main.rs, the gateway, the supervisor, SQLite, TLS, sockets,
-- tasks and the asynchronous runtime, output for people and the test tools.
pub mod Prelude
pub mod Bytes
pub mod Texts
pub mod Bits
pub mod Types
pub mod Wire
pub mod Maps
pub mod Model
pub mod Stored
pub mod Session
pub mod Tests
