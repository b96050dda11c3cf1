-- ===== src/Lib.antt =====
-- Verification of the core of federated-reserve: a network of agents, one for each state, that
-- negotiate swaps, coalitions, bond auctions and aid over A2A messages and settle them on a chain.
--
-- The parts, and how they interact. An agent's executor (packages/agent/src/a2a/executor.ts) takes
-- a message, dispatches it by skill to a handler, and answers on the event bus of the message's
-- task. A handler asks the language model, falls back to a rule of its own where the model is
-- absent or fails, and may have the agent's wallet send a transaction. Bids for a bond are parked
-- in a registry (packages/agent/src/a2a/bond-auction-registry.ts), which evaluates an auction once
-- its window closes or its cap is reached, settles the winner and answers every parked bid. The
-- evaluation rests on the agent's credit rating (packages/shared/src/credit-rating.ts), which reads
-- the personas of the states (personas.ts, states.ts).
--
-- The files:
--   Prelude, Prelude/*       names of the libraries, Boolean tests, lists, dictionaries, a stable
--                            sort and the integers
--   Shared/Credit            assessCredit; Credit/Bounds and Credit/Monotone its laws
--   Shared/States, Personas  the tables of packages/shared/src/states.ts and personas.ts
--   Shared/Deployments       the lookups of packages/shared/src/deployments.ts
--   Shared/Skills            the payloads of packages/shared/src/a2a-types.ts
--   Shared/Text, BigInt      template literals as lists of pieces; BigInt applied to a text
--   Agent/Auction/Evaluate   evaluateBondAuction and askBondAuctionReasoner of the executor
--   Agent/Auction/Registry   BondAuctionRegistry: submit is submitBidAndAwait, begin and finish are
--                            runEvaluation before and after it awaits the evaluator, Runs is every
--                            order in which the calls, timers and microtasks can come
--   Agent/Executor/Events    what a handler publishes, sends and reports, in order: a Run is a list
--                            of events and whether the handler returned or threw
--   Agent/Executor/Deps      what an executor is given: configuration, state and services
--   Agent/Executor/Chain     executeBondMint, executeAidTransfer and executeResponderLeg
--   Agent/Swap/*             handleNegotiateSwap, decideOnProposal, decideOnCounter, makeSettlement
--   Agent/Executor/Coalition handleCoalitionInvite and handleCoalitionRevisedInvite
--   Agent/Executor/Aid       handleAidRequest; Agent/Executor/Shock handleShockSignal
--   Agent/Executor/Bond      handleBondBid, makeBondMintSettler, and the close of an auction with
--                            the agent's own evaluator and settler
--   Agent/Executor/Execute   execute and cancelTask
--   Agent/State              the working state of an agent, packages/agent/src/state.ts
--   Agent/Sweep              sweepNoaaShocksAndFanOut of packages/agent/src/tick.ts
--   Agent/Memory             the log of packages/agent/src/memory.ts
--   Agent/Rebalance          maybeAutoRebalance of packages/agent/src/tick.ts
--   Observer/Types, Project  what the observer shows, packages/observer/src/types.ts, and how it reads
--                            the memory of an agent
--   Observer/Health          deriveHealth of packages/observer/src/store.ts
--   Observer/Store           ObserverStore: Negotiations are the rounds and their trimming,
--                            Operations what comes over the network, Hydrate what comes from files,
--                            Snapshot what it answers, Runs any sequence of operations
--   Inft/Crypto, KeyStore    packages/og-inft/src/crypto.ts and key-store.ts
--   Data/RateLimit           TokenBucket of packages/data-plane/src/rate-limit.ts
--   Data/Workers             runWithConcurrency of packages/data-plane/src/rate-limit.ts, as turns of
--                            its workers in any order
--   Data/Scheduler           refreshOnce of packages/data-plane/src/scheduler.ts and both caches
-- The observer (packages/observer) collects what the agents report and what they write to their
-- memory; the data plane (packages/data-plane) collects economic data from five sources for the
-- agents; the iNFT package (packages/og-inft) encrypts an agent's memory for its owner.
-- The modules named Tests hold the theorems applied to concrete inputs.
--
-- Units. Dollar amounts are in millionths of a dollar, the base unit of USDC. The rating computes
-- in floating point in the source and exactly here: the reserve ratio is in basis points,
-- percentages in hundredths of a percent, a score in 1/14000 of a point. Amounts of a swap are the
-- texts of the messages, read as BigInt reads them. There is no fuel: every function is structural.
--
-- Parameters. The language model, the Trading API and the chain, the deployments file and the
-- environment are functions or values that an executor is given; `none` is a call that fails. The
-- zod schemas are third-party code: a message carries what they make of it. The model's answers
-- have the kinds and the non-negative numbers that the prompts ask for; the action on a swap may
-- be any text.
--
-- The ciphers, the curve, the hashes and random bytes of packages/og-inft are parameters too, with
-- what their documentation promises as the hypotheses of a record. Dates and texts of the platform
-- are functions that an operation is given; an operation of the observer reads the clock once.
--
-- Not modelled: log lines, message ids, the explorer links of the executor, prompts, the other steps
-- of an agent's tick, the initiator's side, discovery, the state in an agent's memory and its upload,
-- the clients of the sources, the HTTP routes, the frontend and the contracts.
pub mod Prelude
pub mod Shared
pub mod Agent
pub mod Observer
pub mod Inft
pub mod Data
